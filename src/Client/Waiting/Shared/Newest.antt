-- ===== src/Client/Waiting/Shared/Newest.antt =====
-- Which of the coroutines of alsa_midi/client.py that wait on one client is called back.
use python_alsa_midi.Prelude.{
  ℕ, suc, ◌<◌, ◌==◌, ==_iff, ◌≡◌, ◌≢◌, ◌↔◌, ap, sym, ◌∙◌, Bool-cases, inl, inr, Option, none, some,
  ◌∷◌, [], length, length-append, length-set, get_elem?, get_elem?-set_self, get_elem?-set_ne, set,
  arith,
}
use python_alsa_midi.Exceptions.{Result, ok, err}
use python_alsa_midi.Stateful.{Act}
use python_alsa_midi.Client.Waiting.{is_none, is_final, Tried}
use python_alsa_midi.Client.Waiting.Callback.{Future, cancelled, resolved, failed, is_done}
use python_alsa_midi.Client.Waiting.Shared.{
  Task, Shared, idle, begin, begun, waiting_task, write_task, settled, run_task, run_callback, Step,
  begins, ready, timeout, Reach, here, next,
}

-- Only the newest coroutine can be registered, and it is as long as it waits.
pub record Good {C K R V : Type 0} (s : Shared C K R V) : Type 0 where
  pub newest : (i : ℕ) → s.reader ≡ some i → suc i ≡ length s.tasks
  pub served :
      (i : ℕ) (w : Task K R V)
      → suc i ≡ length s.tasks
      → get_elem? s.tasks i ≡ some w
      → w.future ≡ Future.pending
      → s.reader ≡ some i

module _ {C K R V : Type 0} where
  idle-Good : (c : C) → Good (idle {K = K} {R = R} {V = V} c)
  idle-Good c = record { newest = λ i h. cc; served = λ i w n h p. cc }

  -- A write to the registered coroutine, whose callback stays.
  kept-Good :
      (j : ℕ) (w : Task K R V) (c : C) (s : Shared C K R V)
      → s.reader ≡ some j
      → Good s
      → Good (write_task j w c s.reader s)
  kept-Good j w c s r g = record {
    newest = λ i h. g.newest i h ∙ sym (length-set s.tasks j w);
    served = λ i x n h p.
        let same : i ≡ j = omega (arith, g.newest j r, n, length-set s.tasks j w) in
        r ∙ ap some (sym same);
  }

  -- A write that ends its waiting, and removes the callback.
  cleared-Good :
      (j : ℕ) (w : Task K R V) (c : C) (s : Shared C K R V)
      → s.reader ≡ some j
      → w.future ≢ Future.pending
      → Good s
      → Good (write_task j w c none s)
  cleared-Good j w c s r done g = record {
    newest = λ i h. cc;
    served = λ i x n h p.
        let same : i ≡ j = omega (arith, g.newest j r, n, length-set s.tasks j w) in
        let own : get_elem? (set s.tasks j w) i ≡ some w =
          rw same (get_elem?-set_self s.tasks j w (omega (arith, g.newest j r))) in
        let got : w ≡ x = cc in absurd (done (ap (λ (t : Task K R V). t.future) got ∙ p));
  }

  begun-Good :
      (attempt : K → Option R → Act C (Tried R V)) (k : K) (s : Shared C K R V)
      (m : Result (Tried R V) × C)
      → Good s
      → Good (begun attempt k s m)
  begun-Good attempt k s (err e, c) g = record { newest = g.newest; served = g.served }
  begun-Good attempt k s (ok t, c) g = elim (Bool-cases (is_final t.code t.remainder)) [
    | inl f ↦ rw f (record { newest = g.newest; served = g.served })
    | inr n ↦ rw n (record {
      newest = λ i h.
          let same : length s.tasks ≡ i = cc in
          omega (arith, length-append s.tasks (waiting_task k t ∷ []), same);
      served = λ i w e h p. ap some (omega (arith, length-append s.tasks (waiting_task k t ∷ [])));
    })
  ]

  begin-Good :
      (attempt : K → Option R → Act C (Tried R V)) (k : K) (s : Shared C K R V)
      → Good s
      → Good (begin attempt k s)
  unfolding begin
  begin-Good attempt k s g = begun-Good attempt k s (attempt k none s.client) g

  settled-Good :
      (attempt : K → Option R → Act C (Tried R V)) (j : ℕ) (w : Task K R V) (s : Shared C K R V)
      (m : Result (Tried R V) × C)
      → s.reader ≡ some j
      → Good s
      → Good (settled attempt j w s m)
  settled-Good attempt j w s (err e, c) r g = elim (Bool-cases (is_none w.remainder)) [
    | inl none_left ↦
        rw none_left (cleared-Good j (record w { future = failed e }) c s r (λ p. cc) g)
    | inr more ↦ rw more (kept-Good j (record w { future = failed e }) c s r g)
  ]
  settled-Good attempt j w s (ok t, c) r g = elim (Bool-cases (is_final t.code t.remainder)) [
    | inl f ↦ rw f (
        cleared-Good j (record w { remainder = t.remainder; future = resolved t }) c s r (λ p. cc)
          g)
    | inr n ↦ rw n (kept-Good j (record w { remainder = t.remainder }) c s r g)
  ]

  run_task-Good :
      (attempt : K → Option R → Act C (Tried R V)) (j : ℕ) (o : Option (Task K R V))
      (s : Shared C K R V)
      → s.reader ≡ some j
      → Good s
      → Good (run_task attempt j o s)
  run_task-Good attempt j none s r g = g
  run_task-Good attempt j (some w) s r g = elim (Bool-cases (is_done w.future)) [
    | inl d ↦ rw d g
    | inr n ↦ rw n (settled-Good attempt j w s (attempt w.request w.remainder s.client) r g)
  ]

  timeout-Good :
      (j : ℕ) (w : Task K R V) (s : Shared C K R V)
      → get_elem? s.tasks j ≡ some w
      → Good s
      → Good (write_task j (record w { future = cancelled }) s.client s.reader s)
  timeout-Good j w s got g = record {
    newest = λ i h. g.newest i h ∙ sym (length-set s.tasks j gone);
    served = λ i x n h p. elim (Bool-cases (j == i)) [
      | inl same ↦
          let lt : j < length s.tasks =
            omega (arith, (==_iff j i).0 same, n, length-set s.tasks j gone) in
          let own : get_elem? (set s.tasks j gone) i ≡ some gone =
            rw (← (==_iff j i).0 same) (get_elem?-set_self s.tasks j gone lt) in
          let got' : gone ≡ x = cc in
          let bad : gone.future ≡ Future.pending = ap (λ (t : Task K R V). t.future) got' ∙ p in
          absurd (cc)
      | inr other ↦
          g.served i x (n ∙ length-set s.tasks j gone)
            (sym (get_elem?-set_ne s.tasks gone (λ e. absurd (ground (arith, e, other)))) ∙ h) p
    ];
  }
    where
      gone : Task K R V
      gone = record w { future = cancelled }

module _ {C K R V : Type 0} (attempt : K → Option R → Act C (Tried R V)) where
  Step-Good : {s u : Shared C K R V} → Step attempt s u → Good s → Good u
  unfolding run_callback
  Step-Good {s = s} (begins k) g = begin-Good attempt k s g
  Step-Good {s = s} (ready j r) g = run_task-Good attempt j (get_elem? s.tasks j) s r g
  Step-Good {s = s} (timeout j w got p) g = timeout-Good j w s got g

  Reach-Good : {s u : Shared C K R V} → Reach attempt s u → Good s → Good u
  Reach-Good here g = g
  Reach-Good (next r st) g = Step-Good st (Reach-Good r g)

  -- Among the coroutines that wait on one client, exactly the newest is called back when the descriptor is
  -- ready: in every state that can come from one where nothing waits, the callback of a coroutine whose
  -- future is pending is registered if and only if no other coroutine began to wait after it.
  pub registered-newest_iff :
      (c : C) {u : Shared C K R V} (i : ℕ) (w : Task K R V)
      → Reach attempt (idle c) u
      → get_elem? u.tasks i ≡ some w
      → w.future ≡ Future.pending
      → (u.reader ≡ some i) ↔ (suc i ≡ length u.tasks)
  registered-newest_iff c i w r got p =
      let g = Reach-Good r (idle-Good c) in (g.newest i, λ n. g.served i w n got p)
