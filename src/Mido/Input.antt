-- ===== src/Mido/Input.antt =====
-- The input of a port of alsa_midi/mido_backend.py: `_handle_input_bytes` and
-- `_receive`. The parser is MIDO's: a parameter, which is fed with bytes and gives messages.
use python_alsa_midi.Prelude.{
  ℕ, ◌≡◌, refl, sym, ◌∙◌, ap, Bool, true, false, Option, none, some, List, [], ◌∷◌, ◌++◌, arith,
}
use mathlib.Core.List.{append-nil, append_assoc}

-- `mido.parser.Parser`
pub record Parser : Type 1 where
  pub State : Type 0
  pub Message : Type 0
  pub feed : State → List ℕ → State
  -- the messages that are complete, and the parser without them
  pub take_all : State → List Message × State

module _ (mido : Parser) where
  open mido use {State, Message, feed, take_all}

  -- A port of MIDO: `queue` holds the bytes of events, oldest first; `called` are the messages that the
  -- callback was called with.
  pub record InputPort : Type 0 where
    pub parser : State
    pub has_callback : Bool
    pub queue : List (List ℕ)
    pub called : List Message

  -- `_handle_input_bytes`
  unfoldable pub handle_input_bytes : List ℕ → InputPort → InputPort
  handle_input_bytes bytes p = elim p.has_callback [
    | true ↦
        let fed = take_all (feed p.parser bytes) in
        record p { parser = fed.1; called = p.called ++ fed.0 }
    | false ↦ record p { queue = p.queue ++ (bytes ∷ []) }
  ]

  -- What `queue.get` takes; `none` when the queue is empty.
  abbrev pub receive_from : List (List ℕ) → InputPort → Option InputPort
  receive_from [] p = none
  receive_from (bytes ∷ rest) p = some (record p { parser = feed p.parser bytes; queue = rest })

  -- `_receive`
  unfoldable pub receive : InputPort → Option InputPort
  receive p = receive_from p.queue p

  -- Events that come one after the other.
  unfoldable pub handle_all : List (List ℕ) → InputPort → InputPort
  unfolding handle_input_bytes
  handle_all [] p = p
  handle_all (bs ∷ bss) p = handle_all bss (handle_input_bytes bs p)

  unfoldable pub receive_all : List (List ℕ) → InputPort → Option InputPort
  unfolding receive
  receive_all [] p = some p
  receive_all (_ ∷ bss) p = elim (receive p) [ none ↦ none | some q ↦ receive_all bss q ]

  -- The parser fed with the bytes of events.
  abbrev pub feed_all : State → List (List ℕ) → State
  feed_all s [] = s
  feed_all s (bs ∷ bss) = feed_all (feed s bs) bss

  handle-queue :
      (bs : List ℕ) (p : InputPort)
      → p.has_callback ≡ false
      → handle_input_bytes bs p ≡ record p { queue = p.queue ++ (bs ∷ []) }
  unfolding handle_input_bytes
  handle-queue bs p h = ground (arith, h)

  handle_all-queue :
      (bss : List (List ℕ)) (p : InputPort)
      → p.has_callback ≡ false
      → handle_all bss p ≡ record p { queue = p.queue ++ bss }
  unfolding handle_all
  handle_all-queue [] p h = ap (λ q. record p { queue = q }) (sym (append-nil p.queue))
  handle_all-queue (bs ∷ bss) p h =
      ap (handle_all bss) (handle-queue bs p h)
      ∙ handle_all-queue bss (record p { queue = p.queue ++ (bs ∷ []) }) h
      ∙ ap (λ q. record p { queue = q }) (append_assoc p.queue (bs ∷ []) bss)

  receive_all-queue :
      (bss : List (List ℕ)) (p : InputPort)
      → receive_all bss (record p { queue = bss })
        ≡ some (record p { parser = feed_all p.parser bss; queue = [] })
  unfolding receive_all receive
  receive_all-queue [] p = refl
  receive_all-queue (bs ∷ bss) p = receive_all-queue bss (record p { parser = feed p.parser bs })

  -- A port without a callback loses no bytes and keeps their order: when as many events are received as
  -- came, the parser has been fed with all their bytes in order, and the queue is empty.
  pub receive_all-handle_all :
      (bss : List (List ℕ)) (p : InputPort)
      → p.has_callback ≡ false
      → p.queue ≡ []
      → receive_all bss (handle_all bss p)
        ≡ some (record p { parser = feed_all p.parser bss; queue = [] })
  receive_all-handle_all bss p h e =
      ap (receive_all bss) (handle_all-queue bss p h ∙ ap (λ q. record p { queue = q ++ bss }) e)
      ∙ receive_all-queue bss p
