-- ===== src/Event/Received/Resend.antt =====
-- A received event of alsa_midi/event.py that is sent on as it is.
use python_alsa_midi.Prelude.{ℕ, ◌≡◌, Bool, not, some, pos, if◌then◌else◌}
use python_alsa_midi.Exceptions.{ok}
use python_alsa_midi.EventType.{EventType}
use python_alsa_midi.Platform.{Platform}
use python_alsa_midi.Event.ToAlsa.{Alsa, no_overrides}
use python_alsa_midi.Event.FromAlsa.{masked_is}
use python_alsa_midi.Event.Payload.{Payload}
use python_alsa_midi.Event.Class.{EventClass}
use python_alsa_midi.Event.Codec.{Event, to_alsa, from_alsa}
use python_alsa_midi.Event.RoundTrip.Decode.{decoded}
use python_alsa_midi.Event.RoundTrip.Events.{fresh}

abbrev one_stamp : ℕ → Bool
one_stamp f = if masked_is 1 1 f then not (masked_is 1 0 f) else masked_is 1 0 f

module _ (p : Platform) where
  -- The event that is sent: the one that was received, but what a time in ticks leaves of the time's second
  -- word is zero, and the union holds `d`.
  abbrev pub sent : Alsa p → p.memory.Data → Alsa p
  sent a d = record a { nsec = if masked_is 1 1 a.flags then a.nsec else pos 0; union = d }

  abbrev read_event : EventClass → Alsa p → Payload → Event
  read_event c a x = record { class = c; header = decoded p c.type a; payload = x }

  -- The event is stored as it was received, and read again.
  abbrev IsResent : Alsa p → Event → Type 0
  IsResent a e =
      (d : p.memory.Data) × (to_alsa p e no_overrides (fresh p) ≡ ok (sent a d))
      × (from_alsa p e.class (sent a d)
          ≡ ok (record e { header = record e.header { raw_data = some (p.memory.raw d) } }))
