-- ===== src/Client/Admin/RemoveEvents/Setters.antt =====
-- `remove_events` of alsa_midi/client.py: the setters that fill the structure.
use python_alsa_midi.Prelude.{Option, none, some, String, ℤ, pos}
use python_alsa_midi.Exceptions.{Result, ok, ◌>>=◌}
use python_alsa_midi.Struct.{u8, u32, i32}
use python_alsa_midi.Structures.{Timestamp, AlsaRemoveEvents}
use python_alsa_midi.Address.{Address, Arg, Parsed, new}
use python_alsa_midi.EventType.{EventType, value}
use python_alsa_midi.Handle.{argument}
use python_alsa_midi.Client.Admin.RemoveEvents.{Time, real, ticks, Chosen}

abbrev pub int_or : Option ℤ → ℤ → Result ℤ
int_or none old = ok old
int_or (some v) old = argument i32 v

abbrev pub time_or : Option Time → Timestamp → Result Timestamp
time_or none old = ok old
time_or (some (real t)) old = do
  s ← argument u32 t.seconds
  n ← argument u32 t.nanoseconds
  ok (Timestamp.real s n)
time_or (some (ticks t)) old = argument u32 t >>= λ v. ok (Timestamp.tick v)

abbrev pub dest_or : (String → Parsed) → Option Arg → Address → Result Address
dest_or parse none old = ok old
dest_or parse (some d) old = do
  a ← new parse d (pos 0)
  client ← argument u8 a.client_id
  port ← argument u8 a.port_id
  ok (record { client_id = client; port_id = port })

abbrev pub type_or : Option EventType → ℤ → Result ℤ
type_or none old = ok old
type_or (some t) old = argument i32 (pos (value t))

-- The setters, on a fresh structure
unfoldable pub fill : (String → Parsed) → Chosen → AlsaRemoveEvents → Result AlsaRemoveEvents
unfolding argument value
fill parse c fresh = do
  _ ← argument u32 (pos c.bits)
  queue ← int_or c.queue_id fresh.queue
  time ← time_or c.time fresh.time
  dest ← dest_or parse c.dest fresh.dest
  channel ← int_or c.channel fresh.channel
  event_type ← type_or c.event_type fresh.event_type
  tag ← int_or c.tag fresh.tag
  ok (record {
    condition = c.bits;
    queue = queue;
    time = time;
    dest = dest;
    channel = channel;
    event_type = event_type;
    tag = tag;
  })
