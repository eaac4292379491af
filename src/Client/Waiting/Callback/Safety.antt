-- ===== src/Client/Waiting/Callback/Safety.antt =====
-- What holds in every state that the event loop can reach in alsa_midi/client.py, with one coroutine that
-- waits on the client.
use python_alsa_midi.Prelude.{
  ℕ, ap, subst, sym, ◌≡◌, refl, true, false, Bool-cases, inl, inr, Option, none, arith,
}
use python_alsa_midi.Exceptions.{Result, ok, err}
use python_alsa_midi.Stateful.{Act}
use python_alsa_midi.Client.Waiting.{is_final, Tried}
use python_alsa_midi.Client.Waiting.Callback.{
  is_done, Future, pending, cancelled, resolved, failed, Waiter, callback, Started, start,
  after_first, after_attempt, Step, ready, timeout, Reach, here, next,
}

-- While the future is pending or cancelled the callback is registered; once it is resolved, by a final
-- attempt, it is not.
abbrev pub Sound : {C R V : Type 0} → Waiter C R V → Type 0
Sound w = elim w.future [
  | pending ↦ w.is_registered ≡ true
  | cancelled ↦ w.is_registered ≡ true
  | resolved t ↦ (w.is_registered ≡ false) × (is_final t.code t.remainder ≡ true)
  | failed e ↦ Unit
]

module _ {C R V : Type 0} (attempt : Option R → Act C (Tried R V)) where
  start-Sound : (c : C) (w : Waiter C R V) → start attempt c ≡ Started.waiting w → Sound w
  unfolding start
  start-Sound c w h = ground arith

  callback-Sound : (w : Waiter C R V) → Sound w → Sound (callback attempt w)
  unfolding callback
  callback-Sound w s = ground arith

  Step-Sound : {w u : Waiter C R V} → Step attempt w u → Sound w → Sound u
  Step-Sound {w = w} (ready r) s = callback-Sound w s
  Step-Sound {w = w} (timeout p) s = ground (arith, p, s)

  Reach-Sound : {w u : Waiter C R V} → Sound w → Reach attempt w u → Sound u
  Reach-Sound s here = s
  Reach-Sound s (next r st) = Step-Sound st (Reach-Sound s r)

  -- A coroutine that is alone on its client loses no wake-up: in every state that the event loop can reach
  -- without another coroutine that waits on the client, its callback is registered as long as its future is
  -- pending.
  pub pending-registered :
      (c : C) (w u : Waiter C R V)
      → start attempt c ≡ Started.waiting w
      → Reach attempt w u
      → u.future ≡ pending
      → u.is_registered ≡ true
  pending-registered c w u h r e =
      let s : Sound u = Reach-Sound (start-Sound c w h) r in ground (arith, s, e)

  -- A result is set once: when the future is resolved no step is possible any more, neither of the
  -- callback, which is not registered, nor of the timeout.
  pub resolved-final :
      (c : C) (w u v : Waiter C R V) (t : Tried R V)
      → start attempt c ≡ Started.waiting w
      → Reach attempt w u
      → u.future ≡ resolved t
      → ¬ Step attempt u v
  resolved-final c w u v t h r e (ready reg) =
      let s : Sound u = Reach-Sound (start-Sound c w h) r in ground (arith, s, e, reg)
  resolved-final c w u v t h r e (timeout p) = ground (arith, e, p)

  -- While the coroutine waits, a call of the callback whose attempt is final resolves the future with
  -- it, and one whose attempt is not final keeps it waiting.
  pub callback-progress :
      (w : Waiter C R V) (t : Tried R V) (c : C)
      → w.future ≡ pending
      → attempt w.remainder w.client ≡ (ok t, c)
      → (callback attempt w).future
        ≡ (elim (is_final t.code t.remainder) [ true ↦ resolved t | false ↦ pending ])
  unfolding callback
  callback-progress w t c p e = ground (arith, p, e)

-- A number that an attempt which is not final leaves as it is, such as the events that were taken.
module _ {C R V : Type 0} (attempt : Option R → Act C (Tried R V)) (count : C → ℕ)
    (same : (rem : Option R) (c c' : C) (t : Tried R V)
      → attempt rem c ≡ (ok t, c')
      → is_final t.code t.remainder ≡ false
      → count c' ≡ count c) where
  -- As long as the future has no outcome of an attempt, the number is that of the start.
  abbrev Kept : ℕ → Waiter C R V → Type 0
  Kept n w = elim w.future [
    | pending ↦ count w.client ≡ n
    | cancelled ↦ count w.client ≡ n
    | _ ↦ Unit
  ]

  after_first-Kept :
      (c : C) (w : Waiter C R V) (m : Result (Tried R V) × C)
      → attempt none c ≡ m
      → after_first attempt m ≡ Started.waiting w
      → Kept (count c) w
  after_first-Kept c w (err e, d) a h = ground arith
  after_first-Kept c w (ok t, d) a h = elim (Bool-cases (is_final t.code t.remainder)) [
    | inl f ↦ ground (arith, h, f)
    | inr n ↦ let k : count d ≡ count c = same none c d t a n in ground (arith, h, n, k)
  ]

  start-Kept : (c : C) (w : Waiter C R V) → start attempt c ≡ Started.waiting w → Kept (count c) w
  unfolding start
  start-Kept c w h = after_first-Kept c w (attempt none c) refl h

  after_attempt-Kept :
      (n : ℕ) (w : Waiter C R V) (m : Result (Tried R V) × C)
      → count w.client ≡ n
      → attempt w.remainder w.client ≡ m
      → Kept n (after_attempt attempt w m)
  after_attempt-Kept n w (err e, d) k a = tt
  after_attempt-Kept n w (ok t, d) k a = elim (Bool-cases (is_final t.code t.remainder)) [
    | inl f ↦ ground (arith, f)
    | inr x ↦
        let s : count d ≡ count w.client = same w.remainder w.client d t a x in
        ground (arith, k, x, s)
  ]

  callback-pending :
      (w : Waiter C R V)
      → w.future ≡ pending
      → callback attempt w ≡ after_attempt attempt w (attempt w.remainder w.client)
  unfolding callback
  callback-pending w e = ground (arith, e)

  callback-done : (w : Waiter C R V) → is_done w.future ≡ true → callback attempt w ≡ w
  unfolding callback
  callback-done w e = ground (arith, e)

  callback-Kept-at :
      (n : ℕ) (w : Waiter C R V) (f : Future (Tried R V))
      → w.future ≡ f
      → Kept n w
      → Kept n (callback attempt w)
  callback-Kept-at n w Future.pending e k =
      let kept : count w.client ≡ n = ground (arith, k, e) in
      subst (Kept n) (sym (callback-pending w e))
        (after_attempt-Kept n w (attempt w.remainder w.client) kept refl)
  callback-Kept-at n w Future.cancelled e k =
      subst (Kept n) (sym (callback-done w (ap is_done e))) k
  callback-Kept-at n w (resolved t) e k = subst (Kept n) (sym (callback-done w (ap is_done e))) k
  callback-Kept-at n w (failed x) e k = subst (Kept n) (sym (callback-done w (ap is_done e))) k

  callback-Kept : (n : ℕ) (w : Waiter C R V) → Kept n w → Kept n (callback attempt w)
  callback-Kept n w k = callback-Kept-at n w w.future refl k

  Step-Kept : (n : ℕ) {w u : Waiter C R V} → Step attempt w u → Kept n w → Kept n u
  Step-Kept n {w = w} (ready r) k = callback-Kept n w k
  Step-Kept n {w = w} (timeout p) k = ground (arith, p, k)

  Reach-Kept : (n : ℕ) {w u : Waiter C R V} → Reach attempt w u → Kept n w → Kept n u
  Reach-Kept n here k = k
  Reach-Kept n (next r st) k = Step-Kept n st (Reach-Kept n r k)

  -- A timeout loses nothing: if the future was cancelled, no attempt so far has taken anything.
  pub cancelled-count :
      (c : C) (w u : Waiter C R V)
      → start attempt c ≡ Started.waiting w
      → Reach attempt w u
      → u.future ≡ cancelled
      → count u.client ≡ count c
  cancelled-count c w u h r e =
      let k : Kept (count c) u = Reach-Kept (count c) r (start-Kept c w h) in ground (arith, k, e)
