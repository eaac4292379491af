-- ===== src/Client/Output.antt =====
-- The output of events in alsa_midi/client.py: `_prepare_event`, `_event_output` and the loops of
-- `SequencerClientBase`. An event with MIDI bytes goes through ALSA's encoder, piece by piece.
pub mod Pieces
pub mod Bytes
pub mod Direct
use python_alsa_midi.Prelude.{
  ℕ, zero, suc, ◌-◌, ◌==◌, Bool, true, false, Option, none, some, List, [], ◌∷◌, ℤ, pos, negsuc,
  ltb_ℤ, eqb_ℤ, length, drop, if◌then◌else◌,
}
use python_alsa_midi.Exceptions.{Result, ok, err, already_closed, check_alsa_error}
use python_alsa_midi.Stateful.{Act, lift, return, this, put, ◌>>=◌, ◌>>◌}
use python_alsa_midi.Platform.{Platform}
use python_alsa_midi.Client.Session.{Encoded, IoCall, Library, Client, call, get_event_parser}
use python_alsa_midi.Event.ToAlsa.{Overrides, Alsa}
use python_alsa_midi.Event.Payload.{Payload}
use python_alsa_midi.Event.Codec.{Event, to_alsa}

-- `bytes[n:]`: a negative index counts from the end.
unfoldable pub slice_from {ℓ} : {A : Type ℓ} → ℤ → List A → List A
slice_from (pos n) xs = drop n xs
slice_from (negsuc n) xs = drop (length xs - suc n) xs

-- `EventType.NONE`
abbrev pub type_none : ℤ
type_none = pos 255

-- The MIDI bytes of a `MidiBytesEvent`.
unfoldable pub midi_bytes_of : Payload → Option (List ℕ)
midi_bytes_of (Payload.midi_bytes bs) = some bs
midi_bytes_of _ = none

module _ (p : Platform) (l : Library (Alsa p)) where
  -- `_prepare_event` returns an event and the remainder.
  abbrev pub Remainder : Type 0
  Remainder = Option (Alsa p × List ℕ)

  abbrev pub rest_of : Encoded l.Parser (Alsa p) → List ℕ → Remainder
  rest_of r bytes =
      if ltb_ℤ r.processed (pos (length bytes))
      then some (r.event, slice_from r.processed bytes)
      else none

  unfoldable pub encode_piece : Alsa p → List ℕ → Act (Client p l) (Alsa p × Remainder)
  unfolding get_event_parser slice_from
  encode_piece a bytes = do
    parser ← get_event_parser p l
    c ← this
    let r = l.encode parser bytes a in
        put (record {
          event_parser = some r.parser;
          calls = IoCall.encode bytes r.processed ∷ c.calls;
        })
    let r = l.encode parser bytes a in return (r.event, rest_of r bytes)

  abbrev pub prepare_from :
      Option (List ℕ) → Event → Overrides → Remainder → Act (Client p l) (Alsa p × Remainder)
  prepare_from none e o rem = lift (to_alsa p e o l.zeros) >>= λ a. return (a, none)
  prepare_from (some bytes) e o none = lift (to_alsa p e o l.zeros) >>= λ a. encode_piece a bytes
  prepare_from (some bytes) e o (some r) = encode_piece r.0 r.1

  -- `_prepare_event`
  unfoldable pub prepare_event :
      Event → Overrides → Remainder → Act (Client p l) (Alsa p × Remainder)
  unfolding encode_piece midi_bytes_of
  prepare_event e o rem = prepare_from (midi_bytes_of e.payload) e o rem

  -- `snd_seq_event_output` of a complete event, or else the pending output.
  abbrev pub output_or_pending : Alsa p → Act (Client p l) ℤ
  output_or_pending a =
      if eqb_ℤ a.type type_none then call p l IoCall.output_pending else call p l (IoCall.output a)

  abbrev pub output_piece : Alsa p × Remainder → Act (Client p l) (ℤ × Remainder)
  output_piece r = do result ← output_or_pending r.0; return (result, r.1)

  -- `_event_output`
  unfoldable pub event_output_once :
      Event → Overrides → Remainder → Act (Client p l) (ℤ × Remainder)
  unfolding prepare_event
  event_output_once e o rem = prepare_event e o rem >>= output_piece

  -- `_event_output_direct`: the remainder survives only when no event is complete.
  unfoldable pub event_output_direct_once :
      Event → Overrides → Remainder → Act (Client p l) (ℤ × Remainder)
  unfolding prepare_event
  event_output_direct_once e o rem = do
    r ← prepare_event e o rem
    result ← output_or_pending r.0
    return (result, (if eqb_ℤ r.0.type type_none then r.1 else none))

  abbrev pub Outcome : Type 0
  Outcome = Option (Result ℤ × Client p l)

  -- After a round: `_check_alsa_error`, and again with the remainder if there is one.
  abbrev pub after_check :
      Result (Unit {0})
      → ℤ
      → Remainder
      → Client p l
      → (Alsa p × List ℕ → Client p l → Outcome)
      → Outcome
  after_check (err e) result rem c again = some (err e, c)
  after_check (ok _) result none c again = some (ok result, c)
  after_check (ok _) result (some r) c again = again r c

  abbrev pub after_round :
      Result (ℤ × Remainder) × Client p l → (Alsa p × List ℕ → Client p l → Outcome) → Outcome
  after_round (err e, c) again = some (err e, c)
  after_round (ok r, c) again = after_check (check_alsa_error r.0) r.0 r.1 c again

  -- The loop of `event_output` and `event_output_direct`, on fuel.
  unfoldable pub output_loop :
      (Remainder → Act (Client p l) (ℤ × Remainder)) → ℕ → Remainder → Client p l → Outcome
  unfolding check_alsa_error
  output_loop once zero rem c = none
  output_loop once (suc fuel) rem c =
      after_round (once rem c) (λ r c'. output_loop once fuel (some r) c')

  -- `_check_handle`, then the loop; `is_open` tells whether the client has its handle.
  abbrev pub when_open : Bool → Outcome → Client p l → Outcome
  when_open true out c = out
  when_open false out c = some (err already_closed, c)

  -- `event_output`
  unfoldable pub event_output : Bool → ℕ → Event → Overrides → Client p l → Outcome
  unfolding output_loop event_output_once
  event_output is_open fuel e o c =
      when_open is_open (output_loop (event_output_once e o) fuel none c) c

  -- `event_output_direct`
  unfoldable pub event_output_direct : Bool → ℕ → Event → Overrides → Client p l → Outcome
  unfolding output_loop event_output_direct_once
  event_output_direct is_open fuel e o c =
      when_open is_open (output_loop (event_output_direct_once e o) fuel none c) c

  -- A round of `event_output_buffer`: it ends the method, or has output an event.
  pub data Round : Type 0 where
    ended : ℤ → Round
    sent : ℤ → Remainder → Round

  abbrev pub buffer_piece : Alsa p × Remainder → Act (Client p l) Round
  buffer_piece r =
      if eqb_ℤ r.0.type type_none
      then (call p l IoCall.output_pending >>= λ code. return (ended code))
      else (call p l (IoCall.output r.0) >>= λ code. return (sent code r.1))

  abbrev pub after_buffer :
      Result Round × Client p l → (Alsa p × List ℕ → Client p l → Outcome) → Outcome
  after_buffer (err e, c) again = some (err e, c)
  after_buffer (ok (ended code), c) again = some (ok code, c)
  after_buffer (ok (sent code rem), c) again = after_check (check_alsa_error code) code rem c again

  unfoldable pub buffer_loop : Event → Overrides → ℕ → Remainder → Client p l → Outcome
  unfolding check_alsa_error prepare_event
  buffer_loop e o zero rem c = none
  buffer_loop e o (suc fuel) rem c =
      after_buffer ((prepare_event e o rem >>= buffer_piece) c)
        (λ r c'. buffer_loop e o fuel (some r) c')

  -- `event_output_buffer`
  unfoldable pub event_output_buffer : Bool → ℕ → Event → Overrides → Client p l → Outcome
  unfolding buffer_loop
  event_output_buffer is_open fuel e o c = when_open is_open (buffer_loop e o fuel none c) c

  -- `event_output_pending` and `drain_output` of the base class: a call and the check of its code.
  abbrev pub checked : IoCall (Alsa p) → Act (Client p l) ℤ
  checked x = do code ← call p l x; lift (check_alsa_error code); return code

  unfoldable pub event_output_pending : Bool → Act (Client p l) ℤ
  unfolding check_alsa_error
  event_output_pending true = checked IoCall.output_pending
  event_output_pending false = lift (err already_closed)

  unfoldable pub drain_output : Bool → Act (Client p l) Unit
  unfolding check_alsa_error
  drain_output true = checked IoCall.drain_output >>= λ _. return tt
  drain_output false = lift (err already_closed)
