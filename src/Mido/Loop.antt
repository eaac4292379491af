-- ===== src/Mido/Loop.antt =====
-- `_Client._input_loop` of alsa_midi/mido_backend.py. The rounds are given: whether the client is closing, and
-- what `event_input` does then. The ports are those that `ports` holds while the loop runs.
use python_alsa_midi.Prelude.{
  ℕ, ◌≡◌, refl, sym, ◌∙◌, Bool, true, false, Option, none, some, List, [], ◌∷◌, ℤ, eqb_ℤ, arith,
  if◌then◌else◌,
}
use python_alsa_midi.Exceptions.{Error, Result, ok, err, assertion_error}
use python_alsa_midi.Mido.Input.{Parser, InputPort, handle_input_bytes, handle_all}

-- What `event_input` does: it returns nothing, an event that is no `MidiBytesEvent`, or the port and the
-- bytes of one that is; or it raises.
pub data Polled : Type 0 where
  nothing other : Polled
  midi_bytes : Option ℤ → List ℕ → Polled
  failed : Error → Polled

-- A test of `closing`, with what follows if it is not set.
pub data Round : Type 0 where
  closing : Round
  polled : Polled → Round

-- How the loop stands: it waits for more, it has seen `closing`, or it has logged an exception.
pub data Standing : Type 0 where
  running closed : Standing
  logged : Error → Standing

module _ (mido : Parser) where
  -- A port and its class's attribute `_for_input`
  pub record Device : Type 0 where
    pub for_input : Bool
    pub port : InputPort mido

  abbrev pub Ports : Type 0
  Ports = ℤ → Option Device

  unfoldable pub deliver : List ℕ → Device → Device
  deliver bytes d =
      if d.for_input then record d { port = handle_input_bytes mido bytes d.port } else d

  abbrev pub deliver_to : List ℕ → Option Device → Option Device
  deliver_to bytes none = none
  deliver_to bytes (some d) = some (deliver bytes d)

  -- `self.ports.get(port_id)` and what the object that is found there is told.
  unfoldable pub hand : ℤ → List ℕ → Ports → Ports
  unfolding deliver
  hand id bytes ports k = if eqb_ℤ k id then deliver_to bytes (ports k) else ports k

  -- The body of the loop
  unfoldable pub round : Polled → Ports → Result Ports
  unfolding hand
  round Polled.nothing ports = ok ports
  round Polled.other ports = ok ports
  round (Polled.failed e) ports = err e
  round (Polled.midi_bytes none bytes) ports = err assertion_error
  round (Polled.midi_bytes (some id) bytes) ports = ok (hand id bytes ports)

  unfoldable pub input_loop : List Round → Ports → Ports × Standing
  unfolding round
  input_loop [] ports = (ports, Standing.running)
  input_loop (Round.closing ∷ rs) ports = (ports, Standing.closed)
  input_loop (Round.polled x ∷ rs) ports = elim (round x ports) [
    | ok after ↦ input_loop rs after
    | err e ↦ (ports, Standing.logged e)
  ]

  -- The bytes that come for a port before the loop ends, oldest first.
  abbrev heard_then : ℤ → Polled → List (List ℕ) → List (List ℕ)
  heard_then k Polled.nothing later = later
  heard_then k Polled.other later = later
  heard_then k (Polled.failed e) later = []
  heard_then k (Polled.midi_bytes none bytes) later = []
  heard_then k (Polled.midi_bytes (some id) bytes) later =
      if eqb_ℤ k id then bytes ∷ later else later

  unfoldable pub heard : ℤ → List Round → List (List ℕ)
  heard k [] = []
  heard k (Round.closing ∷ rs) = []
  heard k (Round.polled x ∷ rs) = heard_then k x (heard k rs)

  -- A port for input has handled the bytes; another one is as it was.
  unfoldable pub has_handled : List (List ℕ) → Option Device → Option Device
  has_handled bss none = none
  has_handled bss (some d) =
      some (if d.for_input then record d { port = handle_all mido bss d.port } else d)

  has_handled-nil : (o : Option Device) → has_handled [] o ≡ o
  unfolding has_handled handle_all
  has_handled-nil none = refl
  has_handled-nil (some d) = ground arith

  has_handled-deliver_to :
      (bs : List ℕ) (bss : List (List ℕ)) (o : Option Device)
      → has_handled bss (deliver_to bs o) ≡ has_handled (bs ∷ bss) o
  unfolding has_handled handle_all deliver
  has_handled-deliver_to bs bss none = refl
  has_handled-deliver_to bs bss (some d) = ground arith

  -- The port `k` after an event for the port `id`
  hand-has_handled :
      (k id : ℤ) (bs : List ℕ) (bss : List (List ℕ)) (ports : Ports)
      → has_handled bss (hand id bs ports k)
        ≡ has_handled (if eqb_ℤ k id then bs ∷ bss else bss) (ports k)
  unfolding hand
  hand-has_handled k id bs bss ports =
      elim (eqb_ℤ k id)
        as (λ b.
          has_handled bss (if b then deliver_to bs (ports k) else ports k)
          ≡ has_handled (if b then bs ∷ bss else bss) (ports k)) [
            | true ↦ has_handled-deliver_to bs bss (ports k)
            | false ↦ refl
          ]

  -- The loop hands every port that is for input exactly the bytes of the events that were addressed to it
  -- before the loop ended, in their order, and changes nothing else.
  pub input_loop-heard :
      (rs : List Round) (ports : Ports) (k : ℤ)
      → (input_loop rs ports).0 k ≡ has_handled (heard k rs) (ports k)
  unfolding input_loop heard
  input_loop-heard [] ports k = sym (has_handled-nil (ports k))
  input_loop-heard (Round.closing ∷ rs) ports k = sym (has_handled-nil (ports k))
  input_loop-heard (Round.polled Polled.nothing ∷ rs) ports k = input_loop-heard rs ports k
  input_loop-heard (Round.polled Polled.other ∷ rs) ports k = input_loop-heard rs ports k
  input_loop-heard (Round.polled (Polled.failed e) ∷ rs) ports k = sym (has_handled-nil (ports k))
  input_loop-heard (Round.polled (Polled.midi_bytes none bs) ∷ rs) ports k =
      sym (has_handled-nil (ports k))
  input_loop-heard (Round.polled (Polled.midi_bytes (some id) bs) ∷ rs) ports k =
      input_loop-heard rs (hand id bs ports) k ∙ hand-has_handled k id bs (heard k rs) ports
