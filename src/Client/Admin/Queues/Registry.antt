-- ===== src/Client/Admin/Queues/Registry.antt =====
-- The map `_queues` of alsa_midi/client.py: one object for a queue that the client made.
use python_alsa_midi.Prelude.{
  ℕ, ◌≡◌, ◌∙◌, refl, sym, subst, ap, true, inl, inr, ◌⊎◌, Option, none, some, List, [], ◌∷◌, ◌++◌,
  String, ℤ, length, get_elem?, arith,
}
use python_alsa_midi.Exceptions.{Error, Result, ok, err, assertion_error, check_alsa_error}
use python_alsa_midi.Stateful.{bind_to, bind_to-eq-ok, lift, ◌>>=◌}
use python_alsa_midi.Handle.{Call, Library, State, Py, checked_call}
use python_alsa_midi.Queue.{Queue}
use python_alsa_midi.Queue
use python_alsa_midi.Queue.Info.{QueueInfo, to_alsa}
use python_alsa_midi.Client.Admin.{Session, Memory, check_handle, handle, malloc}
use python_alsa_midi.Structures.{Structure}
use python_alsa_midi.Client.Admin.Queues.{
  lookup, new_queue, register, create_queue, get_queue, method_on, close_queue,
}

get_elem?-last :
    {A : Type 0} (xs : List A) (x : A) → get_elem? (xs ++ (x ∷ [])) (length xs) ≡ some x
get_elem?-last [] x = refl
get_elem?-last (y ∷ xs) x = get_elem?-last xs x

lookup-head : (k : ℤ) (r : ℕ) (es : List (ℤ × ℕ)) → lookup k ((k, r) ∷ es) ≡ some r
unfolding lookup
lookup-head k r es = ground arith

Option-cases : {A : Type 0} (o : Option A) → (o ≡ none) ⊎ ((a : A) × (o ≡ some a))
Option-cases none = inl refl
Option-cases (some a) = inr (a, refl)

returned :
    {A S : Type 0} {a b : A} {s t : S}
    → ◌≡◌ {A = Result A × S} (ok a, s) (ok b, t)
    → (a ≡ b) × (s ≡ t)
returned e = (cc, cc)

raised :
    {A S : Type 0} {x : Error} {b : A} {s t : S} → ◌≡◌ {A = Result A × S} (err x, s) (ok b, t) → ⊥
raised e = cc

check_handle-state : (s : State Session) → (check_handle s).1 ≡ s
unfolding check_handle
check_handle-state s = ground arith

check_handle-open :
    (s t : State Session) → check_handle s ≡ (ok tt, t) → (h : ℕ) × (s.0.handle ≡ some h) × (t ≡ s)
unfolding check_handle
check_handle-open s t e = elim (Option-cases s.0.handle) [
  | inl n ↦ absurd (raised (rw n at e))
  | inr (h, q) ↦
      (h, q, ap (λ (r : Result (Unit {0}) × State Session). r.1) (sym e) ∙ check_handle-state s)
]

module _ (l : Library) (m : Memory) where
  register-ok :
      (k : ℤ) (s t : State Session) (r : ℕ)
      → register l m k s ≡ (ok r, t)
      → (lookup k t.0.queues ≡ some r)
        × (get_elem? t.0.objects r
            ≡ some (Queue.init (record { handle = s.0.handle }) k (some true)))
        × (t.0.handle ≡ s.0.handle)
        × (lookup k s.0.queues ≡ none)
  unfolding register
  register-ok k s t r e = elim (Option-cases (lookup k s.0.queues)) [
    | inr (o, q) ↦ absurd (raised (rw (q, register) at e))
    | inl n ↦
        let (qr, qt) = returned (rw (n, register) at e) in
        (
          ap (λ (t : State Session). lookup k t.0.queues) (sym qt)
              ∙ lookup-head k (length s.0.objects) s.0.queues
              ∙ ap some qr,
          subst
              (λ r.
                get_elem? t.0.objects r
                ≡ some (Queue.init (record { handle = s.0.handle }) k (some true)))
              qr
              (ap (λ (t : State Session). get_elem? t.0.objects (length s.0.objects)) (sym qt)
                ∙ get_elem?-last s.0.objects
                    (Queue.init (record { handle = s.0.handle }) k (some true))),
          ap (λ (t : State Session). t.0.handle) (sym qt),
          n,
        )
  ]

  bind_to-state :
      {A B : Type 0} (x : Result A × State Session) (f : A → Py Session B) (c : Session)
      → x.1.0 ≡ c
      → ((a : A) (s : State Session) → s.0 ≡ c → (f a s).1.0 ≡ c)
      → (bind_to x f).1.0 ≡ c
  bind_to-state (ok a, s) f c h k = k a s h
  bind_to-state (err e, s) f c h k = h

  checked_call-state : (c : Call) (s : State Session) → (checked_call l c s).1.0 ≡ s.0
  unfolding check_alsa_error
  checked_call-state c s = ground arith

  malloc-state : (c : Structure) (s : State Session) → (malloc l c s).1.0 ≡ s.0
  unfolding check_alsa_error
  malloc-state c s = ground arith

  handle-state : (s : State Session) → (handle s).1.0 ≡ s.0
  unfolding handle
  handle-state s = ground arith

  -- Making a queue changes no attribute of the client.
  new_queue-state :
      (name : Option String) (info : Option QueueInfo) (s : State Session)
      → (new_queue l m name info s).1.0 ≡ s.0
  unfolding new_queue handle
  new_queue-state (some n) (some i) s = refl
  new_queue-state none (some i) s =
      bind_to-state (malloc l Structure.queue_info s) _ s.0 (malloc-state Structure.queue_info s)
        (λ _ u h.
          bind_to-state (lift (to_alsa s.0.client_id i m.fresh_queue_info) u) _ s.0 h (λ a v h'.
            bind_to-state (handle v) _ s.0 (handle-state v ∙ h')
              (λ n w h''. checked_call-state (Call.create_queue n a) w ∙ h'')))
  new_queue-state (some n) none s = ground arith
  new_queue-state none none s = ground arith

  get_queue-found :
      (k : ℤ) (r h : ℕ) (s : State Session)
      → s.0.handle ≡ some h
      → lookup k s.0.queues ≡ some r
      → get_queue l m k s ≡ (ok r, s)
  unfolding get_queue check_handle
  get_queue-found k r h s e q = ground (arith, e, q)

  -- A queue has one object: `get_queue` with the id of a queue that `create_queue` has made returns the
  -- object that `create_queue` returned, which owns the queue, and calls nothing.
  pub get_queue-create_queue :
      (name : Option String) (info : Option QueueInfo) (s t : State Session) (r : ℕ)
      → create_queue l m name info s ≡ (ok r, t)
      → (k : ℤ) × (get_elem? t.0.objects r
          ≡ some (Queue.init (record { handle = t.0.handle }) k (some true)))
        × (get_queue l m k t ≡ (ok r, t))
  unfolding create_queue
  get_queue-create_queue name info s t r e =
      let (a, s₁, e₁, f₁) = bind_to-eq-ok (check_handle s) _ e in
      let (h, q, qs) = check_handle-open s s₁ e₁ in
      let (k, s₂, e₂, f₂) = bind_to-eq-ok (new_queue l m name info s₁) (register l m) f₁ in
      let (found, object, same, _) = register-ok k s₂ t r f₂ in
      let kept : s₂.0 ≡ s₁.0 =
        ap (λ (r : Result ℤ × State Session). r.1.0) (sym e₂) ∙ new_queue-state name info s₁ in
      let has_handle : t.0.handle ≡ some h =
        same
        ∙ ap (λ (c : Session). c.handle) kept
        ∙ ap (λ (c : State Session). c.0.handle) qs
        ∙ q in
      (
        k,
        object ∙ ap (λ o. some (Queue.init (record { handle = o }) k (some true))) (sym same),
        get_queue-found k r h t has_handle found,
      )

  -- Closing a queue object leaves the map and the handle of the client.
  method_on-keeps :
      {A : Type 0} (a : A) (method : Py Queue A) (q : Option Queue) (r : ℕ) (s : State Session)
      → ((method_on l m a method q r s).1.0.queues ≡ s.0.queues)
        × ((method_on l m a method q r s).1.0.handle ≡ s.0.handle)
  method_on-keeps a method none r s = (refl, refl)
  method_on-keeps a method (some q) r s = (refl, refl)

  close_queue-keeps :
      (r : ℕ) (s : State Session)
      → ((close_queue l m r s).1.0.queues ≡ s.0.queues)
        × ((close_queue l m r s).1.0.handle ≡ s.0.handle)
  unfolding close_queue
  close_queue-keeps r s = method_on-keeps tt (Queue.close l) (get_elem? s.0.objects r) r s

  register-taken :
      (k : ℤ) (r : ℕ) (s : State Session)
      → lookup k s.0.queues ≡ some r
      → register l m k s ≡ (err assertion_error, s)
  unfolding register
  register-taken k r s e = ground (arith, e)

  check_handle-passes :
      (h : ℕ) (s : State Session) → s.0.handle ≡ some h → check_handle s ≡ (ok tt, s)
  unfolding check_handle
  check_handle-passes h s e = ground (arith, e)

  create_queue-taken :
      (name : Option String) (info : Option QueueInfo) (h r : ℕ) (k : ℤ) (u v : State Session)
      → u.0.handle ≡ some h
      → lookup k u.0.queues ≡ some r
      → new_queue l m name info u ≡ (ok k, v)
      → (create_queue l m name info u ≡ (err assertion_error, v)) × (get_queue l m k v ≡ (ok r, v))
  unfolding create_queue
  create_queue-taken name info h r k u v e q n =
      let kept : v.0 ≡ u.0 =
        ap (λ (r : Result ℤ × State Session). r.1.0) (sym n) ∙ new_queue-state name info u in
      let found : lookup k v.0.queues ≡ some r = ap (λ (c : Session). lookup k c.queues) kept ∙ q in
      (
        ap (λ x. bind_to x (λ _. new_queue l m name info >>= register l m))
              (check_handle-passes h u e)
            ∙ ap (λ x. bind_to x (register l m)) n
            ∙ register-taken k r v found,
        get_queue-found k r h v (ap (λ (c : Session). c.handle) kept ∙ e) found,
      )

  -- A queue object that is closed while it is referenced keeps its id: when ALSA gives the id of a queue
  -- that `create_queue` made and whose object was closed to the next queue that is made, however both are
  -- made, the second `create_queue` raises `AssertionError`, after ALSA has made the queue, and `get_queue`
  -- with the id still returns the closed object.
  pub create_queue-closed :
      (name name' : Option String) (info info' : Option QueueInfo) (s s' t v : State Session)
      (r : ℕ) (k : ℤ)
      → new_queue l m name info s ≡ (ok k, s')
      → create_queue l m name info s ≡ (ok r, t)
      → new_queue l m name' info' (close_queue l m r t).1 ≡ (ok k, v)
      → (create_queue l m name' info' (close_queue l m r t).1 ≡ (err assertion_error, v))
        × (get_queue l m k v ≡ (ok r, v))
  unfolding create_queue
  create_queue-closed name name' info info' s s' t v r k n e n' =
      let (a, s₁, e₁, f₁) = bind_to-eq-ok (check_handle s) _ e in
      let (h, q, qs) = check_handle-open s s₁ e₁ in
      let (k', s₂, e₂, f₂) = bind_to-eq-ok (new_queue l m name info s₁) (register l m) f₁ in
      let (found, _, same, _) = register-ok k' s₂ t r f₂ in
      let made : new_queue l m name info s₁ ≡ (ok k, s') = ap (new_queue l m name info) qs ∙ n in
      let (k_eq, _) = returned (sym e₂ ∙ made) in
      let kept : s₂.0 ≡ s₁.0 =
        ap (λ (r : Result ℤ × State Session). r.1.0) (sym e₂) ∙ new_queue-state name info s₁ in
      let has_handle : t.0.handle ≡ some h =
        same
        ∙ ap (λ (c : Session). c.handle) kept
        ∙ ap (λ (c : State Session). c.0.handle) qs
        ∙ q in
      let (queues, handle) = close_queue-keeps r t in
      create_queue-taken name' info' h r k (close_queue l m r t).1 v (handle ∙ has_handle)
        (ap (lookup k) queues ∙ ap (λ k. lookup k t.0.queues) (sym k_eq) ∙ found) n'
