-- ===== src/Client/Forward.antt =====
-- A client of alsa_midi/client.py that sends on what it receives: `_event_input`, then `event_output`.
use python_alsa_midi.Prelude.{Option, none, some, ◌∷◌, ℤ, pos, ltb_ℤ, if◌then◌else◌}
use python_alsa_midi.Exceptions.{Result, ok}
use python_alsa_midi.Stateful.{lift, return, ◌>>=◌}
use python_alsa_midi.Platform.{Platform}
use python_alsa_midi.Event.ToAlsa.{Alsa}
use python_alsa_midi.Event.Payload.{Payload}
use python_alsa_midi.Event.Codec.{Event}
use python_alsa_midi.Client.Session.{IoCall, Library, Client}
use python_alsa_midi.Client.Input.{finally_free}

module _ (p : Platform) (l : Library (Alsa p)) where
  -- The event that the next input lends.
  abbrev pub next_event : Client p l → Alsa p
  next_event c = l.event (IoCall.input ∷ c.calls)

  -- What `_event_input` returns, by the code of the call and what decoding the event gives.
  abbrev input_result :
      ℤ → Alsa p → Result Event → Client p l → Result (ℤ × Option Event) × Client p l
  input_result code a m c =
      if ltb_ℤ code (pos 0)
      then (ok (code, none), c)
      else finally_free p l a (lift m >>= λ e. return (code, some e)) c
