-- ===== src/Queue/Tempo.antt =====
-- The argument `tempo` of `Queue.set_tempo` (alsa_midi/queue.py).
use python_alsa_midi.Prelude.{
  ℕ, suc, ◌*◌, ◌/◌, ◌≤◌, ◌<◌, ◌≡◌, refl, ◌↔◌, Bool, true, false, Option, none, some, pos, arith,
}
use python_alsa_midi.Exceptions.{ok, err, value_error}
use python_alsa_midi.Handle.{QueueTempo, Library, State}
use python_alsa_midi.Queue.{Queue, set_tempo}
use python_alsa_midi.Queue.Arguments.{
  usec, queue_tempo, TempoArgs, or_else, tempo_of_bpm, resolve, prepare,
}

-- The arguments with the fields of a `QueueTempo` for those that are not given.
abbrev pub spread : QueueTempo → TempoArgs → TempoArgs
spread t a = record a {
  tempo = some (usec t.tempo);
  ppq = or_else a.ppq (some t.ppq);
  skew = or_else a.skew t.skew;
  skew_base = or_else a.skew_base t.skew_base;
}

-- A `QueueTempo` stands for its fields: an argument that is given beside it wins over its field.
pub set_tempo-queue_tempo :
    (l : Library) (t : QueueTempo) (a : TempoArgs) (s : State Queue)
    → a.tempo ≡ some (queue_tempo t)
    → set_tempo l a s ≡ set_tempo l (spread t a) s
unfolding set_tempo prepare resolve
set_tempo-queue_tempo l t a s h = ground arith

abbrev pub given {ℓ} : {A : Type ℓ} → Option A → Bool
given none = false
given (some _) = true

-- `set_tempo` rejects its arguments with `ValueError` exactly if `tempo` and `bpm` are both given or
-- both left out.
pub resolve-value_error_iff :
    (a : TempoArgs) → (resolve a ≡ err value_error) ↔ (given a.tempo ≡ given a.bpm)
unfolding resolve tempo_of_bpm
resolve-value_error_iff a = ground arith

-- A positive `bpm` becomes the longest tempo in whole microseconds with which the beats of a minute
-- are not longer than the minute.
pub tempo_of_bpm-bounds :
    (n : ℕ)
    → (t : ℕ) × (tempo_of_bpm (pos (suc n)) ≡ ok (pos t))
      × (t * suc n ≤ 60000000)
      × (60000000 < suc t * suc n)
unfolding tempo_of_bpm
tempo_of_bpm-bounds n = (60000000 / suc n, refl, omega arith, omega arith)
