-- ===== src/Client/Admin/RemoveEvents.antt =====
-- `remove_events` of alsa_midi/client.py, with `RemoveCondition` and `RemoveEvents`: the condition that it
-- makes of its arguments. Flags of `RemoveCondition` are those of alsa_midi/_ffi_defs.py.
pub mod Bits
pub mod Setters
use python_alsa_midi.Prelude.{
  ℕ, ◌≡◌, Bool, true, false, not, ◌||◌, ◌&&◌, Option, none, some, [], String, ℤ, pos, eqb_ℤ, bit_or,
  if◌then◌else◌,
}
use python_alsa_midi.Exceptions.{Result, ok, err, type_error, ◌>>=◌}
use python_alsa_midi.Struct.{u8, u32, i32}
use python_alsa_midi.Structures.{Timestamp, AlsaRemoveEvents}
use python_alsa_midi.RealTime.{RealTime}
use python_alsa_midi.Address.{Address, Arg, text, tuple, int, Parsed, new}
use python_alsa_midi.EventType.{EventType, value}
use python_alsa_midi.Port.Info.{is_some}
use python_alsa_midi.Handle.{argument}
use python_alsa_midi.Client.Admin.PortArgs.{QueueRef, by_id, by_object}

abbrev pub remove_dest : ℕ
remove_dest = 4

abbrev pub remove_dest_channel : ℕ
remove_dest_channel = 8

abbrev pub remove_time_before : ℕ
remove_time_before = 16

abbrev pub remove_time_after : ℕ
remove_time_after = 32

abbrev pub remove_time_tick : ℕ
remove_time_tick = 64

abbrev pub remove_event_type : ℕ
remove_event_type = 128

abbrev pub remove_ignore_off : ℕ
remove_ignore_off = 256

abbrev pub remove_tag_match : ℕ
remove_tag_match = 512

-- A time is a `RealTime` or ticks.
pub data Time : Type 0 where
  real : RealTime → Time
  ticks : ℤ → Time

-- `RemoveEvents`
pub record RemoveEvents : Type 0 where
  pub condition : ℕ
  pub queue_id : ℤ
  pub time : Time
  pub dest : Arg
  pub channel : ℤ
  pub event_type : EventType
  pub tag : ℤ

-- The argument `condition`
pub data Condition : Type 0 where
  bits : ℕ → Condition
  whole : RemoveEvents → Condition

-- The arguments of `remove_events`; `ignore_off` is `None` or a bool, which the code does not tell apart
-- from `False`.
pub record RemoveArgs : Type 0 where
  pub condition : Option Condition
  pub queue : Option QueueRef
  pub time : Option Time
  pub dest : Option Arg
  pub channel : Option ℤ
  pub event_type : Option EventType
  pub tag : Option ℤ
  pub before : Bool
  pub ignore_off : Bool

-- What the setters are given: the local variables after the first `if`.
pub record Chosen : Type 0 where
  pub bits : ℕ
  pub queue_id : Option ℤ
  pub time : Option Time
  pub dest : Option Arg
  pub channel : Option ℤ
  pub event_type : Option EventType
  pub tag : Option ℤ

-- `x |= flag` under a condition
abbrev pub add_if : Bool → ℕ → ℕ → ℕ
add_if true flag x = bit_or x flag
add_if false flag x = x

abbrev pub time_flag : Bool → ℕ
time_flag true = remove_time_before
time_flag false = remove_time_after

abbrev pub is_ticks : Option Time → Bool
is_ticks (some (ticks t)) = true
is_ticks _ = false

-- The bits for the arguments that are given.
unfoldable pub condition_bits : ℕ → RemoveArgs → ℕ
condition_bits start a = add_if a.ignore_off remove_ignore_off (
    add_if (is_some a.tag) remove_tag_match (
      add_if (is_some a.event_type) remove_event_type (
        add_if (is_ticks a.time) remove_time_tick (
          add_if (is_some a.time) (time_flag a.before) (
            add_if (is_some a.channel) remove_dest_channel
              (add_if (is_some a.dest) remove_dest start))))))

abbrev pub queue_of : Option QueueRef → Option ℤ
queue_of none = none
queue_of (some (by_id k)) = some k
queue_of (some (by_object k)) = k

abbrev pub truthy : Option ℤ → Bool
truthy none = false
truthy (some v) = not (eqb_ℤ v (pos 0))

abbrev pub truthy_queue : Option QueueRef → Bool
truthy_queue (some (by_id k)) = not (eqb_ℤ k (pos 0))
truthy_queue (some (by_object k)) = true
truthy_queue none = false

-- The truth of a time: that of ticks, and that of a dataclass.
abbrev pub truthy_time : Option Time → Bool
truthy_time (some (ticks t)) = not (eqb_ℤ t (pos 0))
truthy_time (some (real t)) = true
truthy_time none = false

abbrev pub truthy_type : Option EventType → Bool
truthy_type none = false
truthy_type (some t) = not (eqb_ℤ (pos (value t)) (pos 0))

-- The truth of a destination: that of a text, a tuple and a number; any other object is true.
abbrev pub truthy_text : String → Bool
truthy_text String.[] = false
truthy_text (String.◌∷◌ c t) = true

abbrev pub truthy_dest : Option Arg → Bool
truthy_dest none = false
truthy_dest (some (text t)) = truthy_text t
truthy_dest (some (tuple [])) = false
truthy_dest (some (int n)) = not (eqb_ℤ n (pos 0))
truthy_dest (some _) = true

-- `any((queue, time, dest, channel, event_type, tag))`
unfoldable pub any_given : RemoveArgs → Bool
unfolding value
any_given a =
    truthy_queue a.queue
    || truthy_time a.time
    || truthy_dest a.dest
    || truthy a.channel
    || truthy_type a.event_type
    || truthy a.tag

abbrev pub whole_of : RemoveEvents → Chosen
whole_of r = record {
  bits = r.condition;
  queue_id = some r.queue_id;
  time = some r.time;
  dest = some r.dest;
  channel = some r.channel;
  event_type = some r.event_type;
  tag = some r.tag;
}

abbrev pub parts_of : ℕ → RemoveArgs → Chosen
parts_of start a = record {
  bits = condition_bits start a;
  queue_id = queue_of a.queue;
  time = a.time;
  dest = a.dest;
  channel = a.channel;
  event_type = a.event_type;
  tag = a.tag;
}

-- The first `if` of the method.
unfoldable pub admits : RemoveArgs → Result (Unit {0})
unfolding any_given
admits a = elim a.condition [
  | some c ↦ elim c [ whole r ↦ if any_given a then err type_error else ok tt | bits n ↦ ok tt ]
  | none ↦ ok tt
]

unfoldable pub choose : RemoveArgs → Chosen
unfolding condition_bits
choose a = elim a.condition [
  | none ↦ parts_of 0 a
  | some c ↦ elim c [ bits n ↦ parts_of n a | whole r ↦ whole_of r ]
]
