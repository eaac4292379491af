-- ===== src/Client/Waiting/Shared/Stranded.antt =====
-- A coroutine of alsa_midi/client.py whose callback was replaced by that of another one.
use python_alsa_midi.Prelude.{
  ℕ, ◌<◌, ◌≡◌, ◌≢◌, refl, ◌∙◌, Bool-cases, ◌⊎◌, inl, inr, false, Option, none, some, ◌∷◌, [],
  length, get_elem?, get_elem?-set_self, get_elem?-set_ne, get_elem?-append_left, get_elem?-lt,
  ◌==◌, ==_iff, arith,
}
use python_alsa_midi.Exceptions.{Result, ok, err}
use python_alsa_midi.Stateful.{Act}
use python_alsa_midi.Client.Waiting.{is_none, is_final, Tried}
use python_alsa_midi.Client.Waiting.Callback.{Future, cancelled, resolved, failed, is_done}
use python_alsa_midi.Client.Waiting.Shared.{
  Task, Shared, begin, begun, waiting_task, write_task, settled, run_task, run_callback, Step,
  begins, ready, timeout, Reach, here, next,
}

-- A future without an outcome of an attempt
abbrev pub IsOpen : {T : Type 0} → Future T → Type 0
IsOpen f = (f ≡ Future.pending) ⊎ (f ≡ Future.cancelled)

-- The coroutine `i` has no outcome, and another callback or none is registered.
record Left {C K R V : Type 0} (i : ℕ) (s : Shared C K R V) : Type 0 where
  task : Task K R V
  found : get_elem? s.tasks i ≡ some task
  is_open : IsOpen task.future
  elsewhere : s.reader ≢ some i

module _ {C K R V : Type 0} where
  other-Left :
      (i j : ℕ) (w : Task K R V) (c : C) (r : Option ℕ) (s : Shared C K R V)
      → j ≢ i
      → r ≢ some i
      → Left i s
      → Left i (write_task j w c r s)
  other-Left i j w c r s ne away g = record {
    task = g.task;
    found = get_elem?-set_ne s.tasks w ne ∙ g.found;
    is_open = g.is_open;
    elsewhere = away;
  }

  cancelled-Left :
      (i j : ℕ) (w : Task K R V) (s : Shared C K R V)
      → Left i s
      → Left i (write_task j (record w { future = cancelled }) s.client s.reader s)
  cancelled-Left i j w s g = elim (Bool-cases (j == i)) [
    | inl same ↦ record {
      task = record w { future = cancelled };
      found = rw ((==_iff j i).0 same) (
          get_elem?-set_self s.tasks i (record w { future = cancelled })
            (get_elem?-lt s.tasks i g.found));
      is_open = inr refl;
      elsewhere = g.elsewhere;
    }
    | inr other ↦
        other-Left i j (record w { future = cancelled }) s.client s.reader s
          (λ e. absurd (ground (arith, e, other))) g.elsewhere g
  ]

module _ {C K R V : Type 0} (attempt : K → Option R → Act C (Tried R V)) where
  begun-Left :
      (i : ℕ) (k : K) (s : Shared C K R V) (m : Result (Tried R V) × C)
      → Left i s
      → Left i (begun attempt k s m)
  begun-Left i k s (err e, c) g = record {
    task = g.task;
    found = g.found;
    is_open = g.is_open;
    elsewhere = g.elsewhere;
  }
  begun-Left i k s (ok t, c) g = elim (Bool-cases (is_final t.code t.remainder)) [
    | inl f ↦
        rw f
          (record { task = g.task; found = g.found; is_open = g.is_open; elsewhere = g.elsewhere })
    | inr n ↦
        let lt : i < length s.tasks = get_elem?-lt s.tasks i g.found in
        rw n (record {
          task = g.task;
          found = get_elem?-append_left s.tasks (waiting_task k t ∷ []) i lt ∙ g.found;
          is_open = g.is_open;
          elsewhere = λ e. let same : length s.tasks ≡ i = cc in absurd (omega arith);
        })
  ]

  settled-Left :
      (i j : ℕ) (w : Task K R V) (s : Shared C K R V) (m : Result (Tried R V) × C)
      → j ≢ i
      → Left i s
      → Left i (settled attempt j w s m)
  settled-Left i j w s (err e, c) ne g = elim (Bool-cases (is_none w.remainder)) [
    | inl gone ↦ rw gone (other-Left i j (record w { future = failed e }) c none s ne (λ x. cc) g)
    | inr more ↦
        rw more (other-Left i j (record w { future = failed e }) c s.reader s ne g.elsewhere g)
  ]
  settled-Left i j w s (ok t, c) ne g = elim (Bool-cases (is_final t.code t.remainder)) [
    | inl f ↦ rw f (
        other-Left i j (record w { remainder = t.remainder; future = resolved t }) c none s ne
          (λ x. cc) g)
    | inr n ↦
        rw n (other-Left i j (record w { remainder = t.remainder }) c s.reader s ne g.elsewhere g)
  ]

  run_task-Left :
      (i j : ℕ) (o : Option (Task K R V)) (s : Shared C K R V)
      → j ≢ i
      → Left i s
      → Left i (run_task attempt j o s)
  run_task-Left i j none s ne g = g
  run_task-Left i j (some w) s ne g = elim (Bool-cases (is_done w.future)) [
    | inl d ↦ rw d g
    | inr n ↦ rw n (settled-Left i j w s (attempt w.request w.remainder s.client) ne g)
  ]

  Step-Left : (i : ℕ) {s u : Shared C K R V} → Step attempt s u → Left i s → Left i u
  unfolding begin run_callback
  Step-Left i {s = s} (begins k) g = begun-Left i k s (attempt k none s.client) g
  Step-Left i {s = s} (ready j r) g =
      run_task-Left i j (get_elem? s.tasks j) s (λ e. g.elsewhere (rw (← e) r)) g
  Step-Left i {s = s} (timeout j w got p) g = cancelled-Left i j w s g

  Reach-Left : (i : ℕ) {s u : Shared C K R V} → Reach attempt s u → Left i s → Left i u
  Reach-Left i here g = g
  Reach-Left i (next r st) g = Step-Left i st (Reach-Left i r g)

  begin-Left :
      (k : K) (s : Shared C K R V) (i : ℕ) (w : Task K R V) (t : Tried R V) (c : C)
      → get_elem? s.tasks i ≡ some w
      → IsOpen w.future
      → attempt k none s.client ≡ (ok t, c)
      → is_final t.code t.remainder ≡ false
      → Left i (begin attempt k s)
  unfolding begin
  begin-Left k s i w t c got o a n =
      let lt : i < length s.tasks = get_elem?-lt s.tasks i got in
      rw (a, n)
        (record {
          task = w;
          found = get_elem?-append_left s.tasks (waiting_task k t ∷ []) i lt ∙ got;
          is_open = o;
          elsewhere = λ e. let same : length s.tasks ≡ i = cc in absurd (omega arith);
        })

  -- A coroutine that waits is stranded as soon as another one of the same client, for input or output,
  -- begins to wait: whatever happens afterwards, its future is never resolved, neither with a result nor
  -- with an exception, but stays pending or is cancelled by its timeout.
  pub begin-strands :
      (k : K) (s : Shared C K R V) {u : Shared C K R V} (i : ℕ) (w : Task K R V) (t : Tried R V)
      (c : C)
      → get_elem? s.tasks i ≡ some w
      → w.future ≡ Future.pending
      → attempt k none s.client ≡ (ok t, c)
      → is_final t.code t.remainder ≡ false
      → Reach attempt (begin attempt k s) u
      → (x : Task K R V) × (get_elem? u.tasks i ≡ some x) × IsOpen x.future
  begin-strands k s i w t c got p a n r =
      let g = Reach-Left i r (begin-Left k s i w t c got (inl p) a n) in
      (g.task, g.found, g.is_open)
