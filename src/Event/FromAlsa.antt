-- ===== src/Event/FromAlsa.antt =====
-- `Event._from_alsa` (alsa_midi/event.py): the header of an event from an `snd_seq_event_t`, which
-- goes through the constructors of `RealTime` and of `Event`.
use python_alsa_midi.Prelude.{
  Option, none, some, ℕ, Bool, pos_part, ℤ, bit_and, ◌==◌, if◌then◌else◌,
}
use mathlib.Core.Option
use python_alsa_midi.Exceptions.{Result, ok, ◌>>=◌}
use python_alsa_midi.RealTime.{RealTime, Seconds, normalise}
use python_alsa_midi.EventFlags
use python_alsa_midi.EventType.{EventType, of_value}
use python_alsa_midi.Struct.{AlsaEvent}
use python_alsa_midi.Platform.{Platform}
use python_alsa_midi.Event.Header.{Header, Args, Endpoint, init}
use python_alsa_midi.Event.ToAlsa.{Alsa}

-- `(flags & mask) == bits`
abbrev pub masked_is : ℕ → ℕ → ℕ → Bool
masked_is mask bits flags = bit_and flags mask == bits

module _ {D : Type 0} where
  -- `RealTime(tv_sec, tv_nsec)` where the flags say real time
  unfoldable pub real_time_of : AlsaEvent D → Result (Option RealTime)
  real_time_of a =
      if masked_is EventFlags.time_stamp_mask EventFlags.time_stamp_real a.flags
      then normalise a.tick_or_sec a.nsec >>= (λ t. ok (some t))
      else ok none

  unfoldable pub tick_of : AlsaEvent D → Option ℤ
  tick_of a =
      if masked_is EventFlags.time_stamp_mask EventFlags.time_stamp_tick a.flags
      then some a.tick_or_sec
      else none

-- The type is passed on only by a class that has none.
unfoldable pub type_arg : Option EventType → ℤ → Option EventType
type_arg none t = some (of_value (pos_part t))
type_arg (some _) t = none

module _ (p : Platform) where
  unfoldable pub args_of : Option EventType → Alsa p → Result (Args p.numbers.Float)
  unfolding real_time_of tick_of type_arg
  args_of class_type a = do
    time ← real_time_of a
    ok (record {
      type = type_arg class_type a.type;
      flags = some a.flags;
      tag = a.tag;
      queue_id = some a.queue;
      time = Option.map Seconds.real time;
      tick = tick_of a;
      source =
          some (Endpoint.address (record { client_id = a.source_client; port_id = a.source_port }));
      dest = some (Endpoint.address (record { client_id = a.dest_client; port_id = a.dest_port }));
      relative = some (masked_is EventFlags.time_mode_mask EventFlags.time_mode_rel a.flags);
      raw_data = some (p.memory.raw a.union);
    })

  -- `Event._from_alsa`
  unfoldable pub from_alsa : Option EventType → Alsa p → Result Header
  unfolding args_of init
  from_alsa class_type a = args_of class_type a >>= init p class_type
