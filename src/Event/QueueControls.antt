-- ===== src/Event/QueueControls.antt =====
-- `QueueControlEventBase` of alsa_midi/event.py and its subclasses with data of their own.
use python_alsa_midi.Prelude.{ℤ, pos, Option, none, some}
use python_alsa_midi.Exceptions.{Result, ok, err, value_error, ◌>>=◌}
use python_alsa_midi.RealTime.{RealTime, Numbers, normalise}
use python_alsa_midi.Struct.{Field, Union, assign}
use python_alsa_midi.Event.Payload.{Payload}
use python_alsa_midi.Event.ToAlsa.{QueueArg, queue}

-- `QueueControlEventBase.__init__`: an int or `None` is kept, of a queue its id is taken, which is
-- `None` after the queue was closed.
unfoldable pub control_queue_of : Option QueueArg → Option ℤ
control_queue_of none = none
control_queue_of (some (QueueArg.id q)) = some q
control_queue_of (some (queue q)) = q

-- The tempo of `SetQueueTempoEvent.__init__`: `midi_tempo`, or `round(60000000.0 / bpm)`.
unfoldable pub tempo_of : (py : Numbers) → Option ℤ → Option py.Float → Result ℤ
tempo_of py (some t) (some b) = err value_error
tempo_of py (some t) none = ok t
tempo_of py none (some b) = py.div_float (py.of_int (pos 60_000_000)) b >>= λ q. ok (py.round q)
tempo_of py none none = err value_error

module _ (u : Union) where
  open u use {Data, get}

  unfoldable pub control_queue_to_alsa : Option ℤ → Data → Result Data
  unfolding assign
  control_queue_to_alsa none d = ok d
  control_queue_to_alsa (some q) d = assign u Field.queue_queue q d

  unfoldable pub control_queue_from_alsa : Data → Option ℤ
  control_queue_from_alsa d = some (get Field.queue_queue d)

  unfoldable pub position_tick_from_alsa : Data → Result Payload
  unfolding control_queue_from_alsa
  position_tick_from_alsa d =
      ok (Payload.position_tick (control_queue_from_alsa d) (get Field.queue_tick d))

  unfoldable pub position_tick_to_alsa : Option ℤ → ℤ → Data → Result Data
  unfolding control_queue_to_alsa assign
  position_tick_to_alsa q position d =
      control_queue_to_alsa q d >>= assign u Field.queue_tick position

  -- `RealTime(tv_sec, tv_nsec)`, and `RealTime` of it again in the constructor of the event
  unfoldable pub position_time_from_alsa : Data → Result Payload
  unfolding control_queue_from_alsa
  position_time_from_alsa d = do
    t ← normalise (get Field.queue_tv_sec d) (get Field.queue_tv_nsec d)
    t' ← normalise t.seconds t.nanoseconds
    ok (Payload.position_time (control_queue_from_alsa d) t')

  unfoldable pub position_time_to_alsa : Option ℤ → RealTime → Data → Result Data
  unfolding control_queue_to_alsa assign
  position_time_to_alsa q position d = do
    d₁ ← control_queue_to_alsa q d
    d₂ ← assign u Field.queue_tv_sec position.seconds d₁
    assign u Field.queue_tv_nsec position.nanoseconds d₂

  unfoldable pub tempo_from_alsa : Data → Result Payload
  unfolding control_queue_from_alsa
  tempo_from_alsa d = ok (Payload.tempo (control_queue_from_alsa d) (get Field.queue_value d))

  unfoldable pub tempo_to_alsa : Option ℤ → ℤ → Data → Result Data
  unfolding control_queue_to_alsa assign
  tempo_to_alsa q midi_tempo d = control_queue_to_alsa q d >>= assign u Field.queue_value midi_tempo

  unfoldable pub skew_from_alsa : Data → Result Payload
  unfolding control_queue_from_alsa
  skew_from_alsa d =
      ok (Payload.skew (control_queue_from_alsa d) (get Field.skew_value d) (get Field.skew_base d))

  unfoldable pub skew_to_alsa : Option ℤ → ℤ → ℤ → Data → Result Data
  unfolding control_queue_to_alsa assign
  skew_to_alsa q value base d = do
    d₁ ← control_queue_to_alsa q d
    d₂ ← assign u Field.skew_value value d₁
    assign u Field.skew_base base d₂

  unfoldable pub sync_position_from_alsa : Data → Result Payload
  unfolding control_queue_from_alsa
  sync_position_from_alsa d =
      ok (Payload.sync_position (control_queue_from_alsa d) (get Field.queue_position d))

  unfoldable pub sync_position_to_alsa : Option ℤ → ℤ → Data → Result Data
  unfolding control_queue_to_alsa assign
  sync_position_to_alsa q position d =
      control_queue_to_alsa q d >>= assign u Field.queue_position position
