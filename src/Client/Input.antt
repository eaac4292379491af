-- ===== src/Client/Input.antt =====
-- The input of events in alsa_midi/client.py: `_event_input`, `event_input` of the base class,
-- `event_input_pending` and `extract_output`. The event that ALSA lends is decoded and given back.
pub mod Frees
pub mod Timeouts
use python_alsa_midi.Prelude.{
  Bool, true, false, ◌&&◌, Option, none, some, ◌∷◌, ℤ, pos, pos_part, ltb_ℤ, eqb_ℤ, take,
  if◌then◌else◌,
}
use python_alsa_midi.Exceptions.{Result, ok, err, already_closed, type_error, check_alsa_error}
use python_alsa_midi.Stateful.{Act, lift, return, this, put, ◌>>=◌, ◌>>◌}
use python_alsa_midi.Platform.{Platform}
use python_alsa_midi.Struct.{Field}
use python_alsa_midi.EventType.{EventType, value, is_midi_bytes}
use python_alsa_midi.Event.ToAlsa.{Alsa}
use python_alsa_midi.Event.Class.{class_for}
use python_alsa_midi.Event.Codec.{Event, from_alsa, midi_bytes_from_alsa}
use python_alsa_midi.Client.Session.{IoCall, Library, Client, call, get_event_parser}

module _ (p : Platform) (l : Library (Alsa p)) where
  -- The code, and the event if there is one.
  abbrev pub Received : Type 0
  Received = ℤ × Option Event

  -- The room for the bytes of an event: of `SYSEX` its length, else twelve.
  unfoldable pub room : Alsa p → ℤ
  unfolding value
  room a =
      if eqb_ℤ a.type (pos (value EventType.sysex))
      then p.memory.get Field.ext_len a.union
      else pos 12

  unfoldable pub decode_bytes : Alsa p → ℤ → Act (Client p l) Received
  unfolding get_event_parser room midi_bytes_from_alsa
  decode_bytes a code = do
    parser ← get_event_parser p l
    c ← this
    let r = l.decode parser (room a) a in
        put (record { event_parser = some r.parser; calls = IoCall.decode (room a) ∷ c.calls })
    let r = l.decode parser (room a) a in
        (if ltb_ℤ r.count (pos 0)
          then return (r.count, none)
          else (lift (midi_bytes_from_alsa p (take (pos_part r.count) r.bytes) a) >>= λ e.
              return (code, some e)))

  unfoldable pub decode_event : Bool → Alsa p → ℤ → Act (Client p l) Received
  unfolding decode_bytes is_midi_bytes class_for from_alsa
  decode_event prefer_bytes a code =
      if prefer_bytes && is_midi_bytes (pos_part a.type)
      then decode_bytes a code
      else (lift (from_alsa p (class_for (pos_part a.type)) a) >>= λ e. return (code, some e))

  -- `finally: snd_seq_free_event(alsa_event)`
  abbrev pub finally_free : Alsa p → Act (Client p l) Received → Act (Client p l) Received
  finally_free a m c = let r = m c in (r.0, record r.1 { calls = IoCall.free_event a ∷ r.1.calls })

  -- The event that the call has lent, or the code of an error.
  abbrev pub take_event : Bool → ℤ → Act (Client p l) Received
  take_event prefer_bytes code c =
      if ltb_ℤ code (pos 0)
      then (ok (code, none), c)
      else finally_free (l.event c.calls) (decode_event prefer_bytes (l.event c.calls) code) c

  -- `_event_input`, of a client that has its handle
  unfoldable pub event_input_once : Bool → Act (Client p l) Received
  unfolding decode_event
  event_input_once prefer_bytes = call p l IoCall.input >>= λ code. take_event prefer_bytes code

  abbrev pub checked_event : Received → Result (Option Event)
  checked_event r = elim (check_alsa_error r.0) [ ok _ ↦ ok r.1 | err e ↦ err e ]

  -- `event_input` of the base class. The handle is not checked, and cffi refuses `None`.
  unfoldable pub event_input : Bool → Bool → Act (Client p l) (Option Event)
  unfolding event_input_once check_alsa_error
  event_input false prefer_bytes = lift (err type_error)
  event_input true prefer_bytes = event_input_once prefer_bytes >>= λ r. lift (checked_event r)

  -- `event_input_pending`
  unfoldable pub event_input_pending : Bool → Bool → Act (Client p l) ℤ
  unfolding check_alsa_error
  event_input_pending false fetch_sequencer = lift (err already_closed)
  event_input_pending true fetch_sequencer = do
    code ← call p l (IoCall.input_pending fetch_sequencer)
    lift (check_alsa_error code)
    return code

  -- What `extract_output` does with the event that the call has lent.
  abbrev pub extracted : Act (Client p l) Event
  extracted c =
      let a = l.event c.calls in
      (
        from_alsa p (class_for (pos_part a.type)) a,
        record c { calls = IoCall.free_event a ∷ c.calls },
      )

  -- `extract_output`
  unfoldable pub extract_output : Bool → Act (Client p l) Event
  unfolding class_for from_alsa check_alsa_error
  extract_output false = lift (err already_closed)
  extract_output true = do
    code ← call p l IoCall.extract_output
    lift (check_alsa_error code)
    extracted
