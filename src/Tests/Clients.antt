-- ===== src/Tests/Clients.antt =====
-- The theorems on ports and clients (alsa_midi/port.py, alsa_midi/client.py) at concrete inputs.
use python_alsa_midi.Prelude.{
  ℕ, ◌<◌, ◌≡◌, refl, true, false, Option, none, some, List, [], ◌∷◌, ◌++◌, ℤ, pos, negsuc, eqb_ℤ,
  arith, pos_part, neg_part, ◌+◌, ◌*◌, ◌%◌, if◌then◌else◌, if◌then◌else◌,
}
use mathlib.Core.List.{Perm}
use python_alsa_midi.Prelude.Sort.{IsSorted}
use python_alsa_midi.Exceptions.{Result, ok}
use python_alsa_midi.Struct.{u8, fits}
use python_alsa_midi.Port.Info.{PortInfo, AlsaPortInfo, from_alsa, to_alsa}
use python_alsa_midi.Port.SortKey.{Key, less_key, preference}
use python_alsa_midi.Client.ListPorts.{
  Options, Sorting, ClientEntry, Sequencer, selects, sorted_by, list_ports,
}
use python_alsa_midi.Client.ListPorts.Select.{wanted, selects-eq-wanted}
use python_alsa_midi.Client.ListPorts.Listing.{Snapshot, IsServed, listing, list_ports-listing}
use python_alsa_midi.Client.ListPorts.Order.{port_less, list_ports-default}
use python_alsa_midi.Event.Class.{midi_bytes_class}
use python_alsa_midi.Event.ToAlsa
use python_alsa_midi.Event.Codec
use python_alsa_midi.Event.ToAlsa.{Alsa, no_overrides}
use python_alsa_midi.Event.Payload.{Payload}
use python_alsa_midi.Event.Codec.{Event}
use python_alsa_midi.Event.RoundTrip.Events.{fresh}
use python_alsa_midi.Client.Output.Direct.{Sent}
use python_alsa_midi.Client.Output.Direct.Returns.{event_output_direct-Sent}
use python_alsa_midi.Client.Session.{Library, Client}
use python_alsa_midi.Client.Output.{event_output_direct, midi_bytes_of, event_output}
use python_alsa_midi.Client.Output.Pieces.{taken, Progresses}
use python_alsa_midi.Client.Output.Bytes.{event_output-returns, event_output-taken}
use python_alsa_midi.Tests.Setup.{platform}

-- A synth with one port that can be read and written, and connected to.
abbrev pub synth_port : AlsaPortInfo
synth_port = record {
  client = pos 20;
  port = pos 0;
  name = "MIDI 1";
  capability = 0x63;
  type = 2;
  midi_channels = pos 16;
  midi_voices = pos 0;
  synth_voices = pos 0;
  read_use = pos 1;
  write_use = pos 0;
  port_specified = pos 0;
  timestamping = pos 0;
  timestamp_real = pos 0;
  timestamp_queue = pos 0;
}

abbrev synth_client : ClientEntry
synth_client = record { client = pos 20; name = "Synth" }

abbrev snapshot : Snapshot
snapshot = (synth_client, synth_port ∷ []) ∷ []

abbrev pub sequencer : Sequencer
sequencer = record {
  next_client = λ prev. (if eqb_ℤ prev (negsuc 0) then pos 0 else negsuc 1, synth_client);
  next_port = λ client prev. (if eqb_ℤ prev (negsuc 0) then pos 0 else negsuc 1, synth_port);
}

abbrev options : Options
options = record {
  input = true;
  output = false;
  type = 0;
  include_system = false;
  include_midi_through = true;
  include_no_export = false;
  only_connectable = true;
  sorting = Sorting.default;
}

snapshot-IsServed : IsServed sequencer snapshot
snapshot-IsServed = ground arith

selects-eq-wanted_example :
    selects options (from_alsa synth_port) ≡ wanted options (from_alsa synth_port)
selects-eq-wanted_example = selects-eq-wanted options (from_alsa synth_port)

list_ports-listing_example :
    list_ports sequencer true options ≡ some (ok (sorted_by options (listing options snapshot)))
list_ports-listing_example = list_ports-listing sequencer options snapshot snapshot-IsServed

list_ports-default_example :
    (ports : List PortInfo) × (list_ports sequencer true options ≡ some (ok ports))
    × Perm ports (listing options snapshot)
    × IsSorted (port_less options) ports
list_ports-default_example = list_ports-default sequencer options snapshot snapshot-IsServed refl

-- The lowest eight bits of an id.
abbrev pub low_byte : ℤ → ℤ
low_byte v = if fits u8 v then v else pos ((pos_part v + 255 * neg_part v) % 256)

abbrev rewritten_port : AlsaPortInfo
rewritten_port = record synth_port { port_specified = pos 1 }

-- An encoder that takes one byte at a time.
abbrev pub encoder : Library (Alsa platform)
encoder = record {
  Parser = Unit;
  new_parser = tt;
  encode = λ parser bs a. record {
    processed = elim bs [ [] ↦ pos 0 | _ ∷ _ ↦ pos 1 ];
    parser = tt;
    event = a;
  };
  decode = λ parser room a. record { count = pos 0; bytes = []; parser = tt };
  answer = λ calls. pos 0;
  event = λ calls. fresh platform;
  zeros = fresh platform;
}

encoder-Progresses : Progresses platform encoder
encoder-Progresses parser [] a = (0, refl, omega arith, omega arith)
encoder-Progresses parser (b ∷ bs) a = (1, refl, omega arith, omega arith)

abbrev bytes_event : Event
bytes_event = record {
  class = midi_bytes_class;
  header = record {
    type = none;
    flags = some 0;
    tag = pos 0;
    queue_id = none;
    time = none;
    tick = none;
    source = none;
    dest = none;
    relative = none;
    raw_data = none;
  };
  payload = Payload.midi_bytes (0x90 ∷ 60 ∷ 100 ∷ []);
}

abbrev pub idle : Client platform encoder
idle = record { event_parser = some tt; calls = [] }

bytes_of_event : midi_bytes_of bytes_event.payload ≡ some (0x90 ∷ 60 ∷ 100 ∷ [])
unfolding midi_bytes_of
bytes_of_event = refl

event_output-returns_example :
    (r : Result ℤ) × (c : Client platform encoder) × (event_output platform encoder true 4
        bytes_event no_overrides idle
      ≡ some (r, c))
event_output-returns_example =
    event_output-returns platform encoder encoder-Progresses bytes_event no_overrides
      (0x90 ∷ 60 ∷ 100 ∷ []) 4 idle bytes_of_event (omega arith)

abbrev client_after : Option (Result ℤ × Client platform encoder) → Client platform encoder
client_after none = idle
client_after (some (r, c)) = c

abbrev run : Option (Result ℤ × Client platform encoder)
run = event_output platform encoder true 4 bytes_event no_overrides idle

run-ok : run ≡ some (ok (pos 0), client_after run)
unfolding event_output Codec.to_alsa ToAlsa.to_alsa ToAlsa.put_type ToAlsa.queue_of ToAlsa.put_time
    ToAlsa.put_tick ToAlsa.put_source ToAlsa.put_dest ToAlsa.put_flags ToAlsa.stamp_flags
    Codec.payload_to_alsa ToAlsa.put_raw_data
run-ok = refl

event_output-taken_example : taken (client_after run).calls ≡ [] ++ 0x90 ∷ 60 ∷ 100 ∷ []
event_output-taken_example =
    event_output-taken platform encoder encoder-Progresses bytes_event no_overrides
      (0x90 ∷ 60 ∷ 100 ∷ []) 4 idle (client_after run) (pos 0) bytes_of_event (omega arith) run-ok

abbrev key : ℤ → Key
key n = record { is_midi_through = false; preference = 0; client_id = pos 20; port_id = some n }

unordered :
    (less_key (key (pos 1)) (key (pos 0)) ≡ false) × (less_key (key (pos 2)) (key (pos 1)) ≡ false)
unfolding less_key
unordered = (refl, refl)

-- A synthesizer among the types preferred for output: the second one fits.
abbrev preferred : List ℕ
preferred = 0x40006 ∷ 0x40002 ∷ 2 ∷ []

second : 0 < preference preferred 0x40002
unfolding preference
second = omega arith

event_output_direct-Sent_example :
    (r : Result ℤ) × (c : Client platform encoder) × (event_output_direct platform encoder true 4
        bytes_event no_overrides idle
      ≡ some (r, c))
    × Sent platform encoder 0 (some (r, c))
event_output_direct-Sent_example =
    event_output_direct-Sent platform encoder encoder-Progresses 4 bytes_event no_overrides
      (0x90 ∷ 60 ∷ 100 ∷ []) idle bytes_of_event (omega arith)
