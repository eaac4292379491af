-- ===== src/Mido/Send.antt =====
-- `Output._send` of alsa_midi/mido_backend.py: the event of a message, its output and the drain after it.
use mathlib.Core.Option
use python_alsa_midi.Prelude.{ℕ, Bool, Option, none, some, List, ℤ}
use python_alsa_midi.Exceptions.{Result, ok, err, ◌>>=◌}
use python_alsa_midi.Address.{of_port}
use python_alsa_midi.Platform.{Platform}
use python_alsa_midi.Port.Info.{PortInfo}
use python_alsa_midi.Port.Handle.{Port}
use python_alsa_midi.Event.Class.{midi_bytes_class}
use python_alsa_midi.Event.Header.{init, default_args}
use python_alsa_midi.Event.ToAlsa.{Alsa, Overrides, port}
use python_alsa_midi.Event.Payload.{Payload}
use python_alsa_midi.Event.Codec.{Event}
use python_alsa_midi.Client.Session.{IoCall, Library, Client}
use python_alsa_midi.Client.Waiting.Blocking.{Waited, event_output, drain_output}

-- `port=self._port, dest=self._dest_port`
abbrev pub routed : Option Port → Option PortInfo → Overrides
routed from dest = record {
  queue = none;
  port = Option.map (λ (p : Port). port p.port_id) from;
  dest = Option.map (λ (d : PortInfo). of_port d.client_id d.port_id) dest;
}

module _ (p : Platform) (l : Library (Alsa p)) (time : List (IoCall (Alsa p)) → ℤ) where
  -- `MidiBytesEvent(message.bytes())`
  unfoldable pub new_event : List ℕ → Result Event
  unfolding init
  new_event bytes = init p none default_args >>= λ h.
      ok (record { class = midi_bytes_class; header = h; payload = Payload.midi_bytes bytes })

  abbrev pub then_drain : Bool → ℕ → Waited p l time ℤ → Waited p l time ℤ
  then_drain is_open fuel none = none
  then_drain is_open fuel (some (err e, c)) = some (err e, c)
  then_drain is_open fuel (some (ok _, c)) = drain_output p l time is_open fuel c

  abbrev pub send_event :
      Result Event → Bool → ℕ → Option Port → Option PortInfo → Client p l → Waited p l time ℤ
  send_event (err e) is_open fuel from dest c = some (err e, c)
  send_event (ok e) is_open fuel from dest c =
      then_drain is_open fuel (event_output p l time is_open fuel e (routed from dest) c)

  unfoldable pub send :
      Bool → ℕ → List ℕ → Option Port → Option PortInfo → Client p l → Waited p l time ℤ
  unfolding new_event event_output drain_output
  send is_open fuel bytes from dest c = send_event (new_event bytes) is_open fuel from dest c
