-- ===== src/Queue/Arguments.antt =====
-- The arguments of `Queue.set_tempo` (alsa_midi/queue.py), and the structure that it makes of them.
use python_alsa_midi.Prelude.{
  ℕ, zero, suc, ◌+◌, ◌/◌, Bool, false, not, Option, none, some, ℤ, pos, negsuc, eqb_ℤ,
  if◌then◌else◌,
}
use python_alsa_midi.Exceptions.{Result, ok, err, value_error, zero_division_error, ◌>>=◌}
use python_alsa_midi.Struct.{i32, u32}
use python_alsa_midi.Handle.{QueueTempo, argument}

-- `-60000000 // -…` rounds down: `negsuc` of one less than the quotient rounded up.
abbrev neg : ℕ → ℤ
neg zero = pos 0
neg (suc n) = negsuc n

-- `60000000 // bpm`
unfoldable pub tempo_of_bpm : ℤ → Result ℤ
tempo_of_bpm (pos zero) = err zero_division_error
tempo_of_bpm (pos (suc n)) = ok (pos (60000000 / suc n))
tempo_of_bpm (negsuc n) = ok (neg ((60000000 + n) / suc n))

-- The argument `tempo` of `set_tempo`.
pub data TempoArg : Type 0 where
  usec : ℤ → TempoArg
  queue_tempo : QueueTempo → TempoArg

-- The arguments of `set_tempo`, and what its `if`s make of them.
pub record TempoArgs : Type 0 where
  pub tempo : Option TempoArg
  pub ppq : Option ℤ
  pub skew : Option ℤ
  pub skew_base : Option ℤ
  pub bpm : Option ℤ

abbrev pub tempo_record : ℤ → ℤ → Option ℤ → Option ℤ → QueueTempo
tempo_record t p s b = record { tempo = t; ppq = p; skew = s; skew_base = b }

-- The truth value of `None` or an int.
abbrev pub truthy : Option ℤ → Bool
truthy none = false
truthy (some v) = not (eqb_ℤ v (pos 0))

abbrev pub or_else : Option ℤ → Option ℤ → Option ℤ
or_else none v = v
or_else (some u) v = some u

abbrev pub default_to : ℤ → Option ℤ → ℤ
default_to d none = d
default_to d (some v) = v

abbrev pub by_tempo : Option TempoArg → TempoArgs → Result QueueTempo
by_tempo none a = err value_error
by_tempo (some (usec t)) a = ok (tempo_record t (default_to (pos 96) a.ppq) a.skew a.skew_base)
by_tempo (some (queue_tempo q)) a = ok (
    tempo_record q.tempo (default_to (pos 96) (or_else a.ppq (some q.ppq))) (or_else a.skew q.skew)
      (or_else a.skew_base q.skew_base))

abbrev pub by_bpm : Option ℤ → Option TempoArg → TempoArgs → Result QueueTempo
by_bpm none tempo a = by_tempo tempo a
by_bpm (some bpm) (some _) a = err value_error
by_bpm (some bpm) none a = elim (tempo_of_bpm bpm) [
  | err e ↦ err e
  | ok t ↦ ok (tempo_record t (default_to (pos 96) a.ppq) a.skew a.skew_base)
]

unfoldable pub resolve : TempoArgs → Result QueueTempo
unfolding tempo_of_bpm
resolve a = by_bpm a.bpm a.tempo a

-- `if value: set(value)`: a field of the fresh structure.
abbrev pub set_if_truthy : Option ℤ → Option ℤ → Result (Option ℤ)
set_if_truthy none old = ok old
set_if_truthy (some v) old =
    if eqb_ℤ v (pos 0) then ok old else (argument u32 v >>= λ v. ok (some v))

abbrev pub base_for : Option ℤ → Option ℤ → Option ℤ
base_for skew base =
    if truthy skew then (if truthy base then base else some (pos 0x10000)) else base

-- The `snd_seq_queue_tempo_set_…` calls of `set_tempo` on the fresh structure.
unfoldable pub fill : QueueTempo → QueueTempo → Result QueueTempo
unfolding argument
fill t fresh = do
  tempo ← argument u32 t.tempo
  ppq ← argument i32 t.ppq
  skew ← set_if_truthy t.skew fresh.skew
  base ← set_if_truthy (base_for t.skew t.skew_base) fresh.skew_base
  ok (tempo_record tempo ppq skew base)

-- The structure that `set_tempo` passes to ALSA.
unfoldable pub prepare : TempoArgs → QueueTempo → Result QueueTempo
unfolding resolve fill
prepare a fresh = do t ← resolve a; fill t fresh
