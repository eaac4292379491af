-- ===== src/Tests/Mido.antt =====
-- The theorems on the back-end for MIDO (alsa_midi/mido_backend.py) at concrete inputs.
use python_alsa_midi.Prelude.{
  ℕ, ◌≡◌, refl, true, false, none, some, List, [], ◌∷◌, ◌++◌, pos, bit_or, eqb_ℤ, if◌then◌else◌,
}
use python_alsa_midi.Exceptions.{ok}
use python_alsa_midi.Port.Info.{PortInfo}
use python_alsa_midi.Port.Flags.{cap_write, cap_subs_write, type_midi_generic}
use python_alsa_midi.Port.Handle.{init}
use python_alsa_midi.Handle.{Call}
use python_alsa_midi.Mido.Input.{
  Parser, InputPort, handle_all, handle_input_bytes, receive_all, receive_all-handle_all,
}
use python_alsa_midi.Mido.Loop.{
  Polled, Round, Ports, input_loop, heard, has_handled, input_loop-heard,
}
use python_alsa_midi.Mido.Open.{input_kind, closed_port, open_port}
use python_alsa_midi.Mido.Open.Virtual.{open_port-virtual}
use python_alsa_midi.Tests.Setup.{parse_address}
use python_alsa_midi.Tests.AdminSetup.{memory, alsa, session}

abbrev info : PortInfo
info = record {
  client_id = pos 20;
  port_id = some (pos 0);
  name = "Out";
  capability = 0x63;
  type = 2;
  midi_channels = pos 16;
  midi_voices = pos 0;
  synth_voices = pos 0;
  read_use = pos 0;
  write_use = pos 0;
  timestamping = false;
  timestamp_real = false;
  timestamp_queue_id = pos 0;
  client_name = some "Synth";
}

-- A port of another client that has the name searched for as its own.
abbrev decoy : PortInfo
decoy = record info { client_id = pos 21; name = "Synth"; client_name = some "Piano" }

-- A parser that keeps the bytes it is fed with.
abbrev keeping : Parser
keeping = record {
  State = List ℕ;
  Message = List ℕ;
  feed = λ s bs. s ++ bs;
  take_all = λ s. (s ∷ [], []);
}

abbrev input_port : InputPort keeping
input_port = record { parser = []; has_callback = false; queue = []; called = [] }

abbrev notes : List (List ℕ)
notes = (0x90 ∷ 60 ∷ 100 ∷ []) ∷ (0x80 ∷ 60 ∷ 0 ∷ []) ∷ []

receive_all-handle_all_example :
    receive_all keeping notes (handle_all keeping notes input_port)
    ≡ some (record input_port { parser = 0x90 ∷ 60 ∷ 100 ∷ 0x80 ∷ 60 ∷ 0 ∷ [] })
receive_all-handle_all_example = receive_all-handle_all keeping notes input_port refl refl

-- The ports 0 and 1, for input and for output.
abbrev ports : Ports keeping
ports k =
    if eqb_ℤ k (pos 0)
    then some (record { for_input = true; port = input_port })
    else if eqb_ℤ k (pos 1)
    then some (record { for_input = false; port = input_port })
    else none

abbrev rounds : List Round
rounds =
    Round.polled Polled.nothing
    ∷ Round.polled (Polled.midi_bytes (some (pos 1)) (0x90 ∷ 61 ∷ 9 ∷ []))
    ∷ Round.polled (Polled.midi_bytes (some (pos 0)) (0x90 ∷ 60 ∷ 100 ∷ []))
    ∷ Round.polled Polled.other
    ∷ Round.closing
    ∷ Round.polled (Polled.midi_bytes (some (pos 0)) (0x80 ∷ 60 ∷ 0 ∷ []))
    ∷ []

input_loop-heard_example :
    (input_loop keeping rounds ports).0 (pos 0)
    ≡ some (record {
      for_input = true;
      port = record input_port { queue = (0x90 ∷ 60 ∷ 100 ∷ []) ∷ [] };
    })
unfolding heard has_handled handle_all handle_input_bytes
input_loop-heard_example = input_loop-heard keeping rounds ports (pos 0)

open_port-virtual_example :
    open_port parse_address alsa memory
      (record { is_virtual = true; alsa_capability = none; alsa_type = none })
      (ok [])
      (closed_port input_kind 0 (some "keys"), (session, []))
    ≡ (
      ok tt,
      (
        record (closed_port input_kind 0 (some "keys")) {
          caps = bit_or cap_write cap_subs_write;
          is_virtual = true;
          port = some (init (record { handle = some 1 }) (pos 128) (pos 0));
          key = some (pos 0);
        },
        (session, Call.create_simple_port 1 "keys" (pos cap_write) (pos type_midi_generic) ∷ []),
      ),
    )
open_port-virtual_example = open_port-virtual parse_address alsa memory "keys" 0 1 0 session [] refl
