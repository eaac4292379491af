-- ===== src/Queue/Frees.antt =====
-- That a queue (alsa_midi/queue.py) is freed at most once, whatever the ALSA library answers and whatever
-- is called.
use python_alsa_midi.Prelude.{
  inl, inr, ℕ, suc, ◌∙◌, ◌+◌, ◌≤◌, ◌≡◌, refl, Bool, true, Option, none, some, List, [], ◌∷◌, ℤ, pos,
  arith,
}
use python_alsa_midi.Stateful.{bind_to}
use python_alsa_midi.Exceptions.{Result-cases, Result, ok, err}
use python_alsa_midi.EventType.{EventType}
use python_alsa_midi.Handle.{QueueTempo, get_client_handle, Client, Call, Library, State, Py}
use python_alsa_midi.Queue.Arguments.{TempoArgs}
use python_alsa_midi.Queue.{
  Queue, init, new_tempo, send_tempo, close, del, control, start, stop, continue, get_usage,
  set_usage, set_tempo, get_tempo,
}
use python_alsa_midi.Prelude.{String}
use python_alsa_midi.Address.{Parsed}
use python_alsa_midi.Structures.{AlsaQueueTimer}
use python_alsa_midi.Queue.Info.{QueueInfo}
use python_alsa_midi.Queue.Timer.{QueueTimer}
use python_alsa_midi.Queue.Timer.Methods.{get_timer, new_timer, send_timer, set_timer}
use python_alsa_midi.Client.Admin.{Session, Memory}
use python_alsa_midi.Client.Admin.Objects.{queue_info, change_queue_info, queue_status}
use python_alsa_midi.Stateful.{◌>>=◌, return}
use python_alsa_midi.Client.Admin.{check_handle, handle}
use python_alsa_midi.Client.Admin.Objects.{with_queue}
use python_alsa_midi.Client.Admin.Queues.{get_queue_info, set_queue_info, get_queue_status}
use python_alsa_midi.Exceptions.{check_alsa_error}
use python_alsa_midi.Handle.{argument}
use python_alsa_midi.Queue.Invoke.{handle_of, Method, drop_value, delegate, invoke, invoke_all}

abbrev pub frees : List Call → ℕ
frees [] = 0
frees (Call.free_queue h q ∷ cs) = suc (frees cs)
frees (_ ∷ cs) = frees cs

-- Whether closing would free the queue.
unfoldable pub owed : Queue → ℕ
owed q = elim q.client [ none ↦ 0 | some c ↦ elim q.own [ some true ↦ 1 | _ ↦ 0 ] ]

unfoldable pub measure : State Queue → ℕ
unfolding owed
measure s = frees s.1 + owed s.0

-- A computation after which no more frees are made or owed than before.
abbrev Spares : {A : Type 0} → Py Queue A → Type 0
Spares m = (s : State Queue) → measure (m s).1 ≤ measure s

drop_value-measure :
    {A : Type 0} (r : Result A × State Queue) (n : ℕ)
    → measure r.1 ≤ n
    → measure (drop_value r).1 ≤ n
drop_value-measure (ok a, s) n h = h
drop_value-measure (err e, s) n h = h

bind_to-measure :
    {A B : Type 0} (r : Result A × State Queue) (f : A → Py Queue B) (n : ℕ)
    → measure r.1 ≤ n
    → ((a : A) → Spares (f a))
    → measure (bind_to r f).1 ≤ n
bind_to-measure (ok a, s) f n h k = omega (arith, k a s)
bind_to-measure (err e, s) f n h k = h

-- A method of the client that frees no queue.
abbrev Keeps : {A : Type 0} → Py Session A → Type 0
Keeps m = (s : State Session) → frees (m s).1.1 ≡ frees s.1

bind_to-Keeps :
    {A B : Type 0} (x : Result A × State Session) (f : A → Py Session B) (n : ℕ)
    → frees x.1.1 ≡ n
    → ((a : A) → Keeps (f a))
    → frees (bind_to x f).1.1 ≡ n
bind_to-Keeps (ok a, s) f n h k = k a s ∙ h
bind_to-Keeps (err e, s) f n h k = h

delegate-Spares :
    {A : Type 0} (c : Session) (method : Queue → Py Session A)
    → ((q : Queue) → Keeps (method q))
    → Spares (delegate c method)
unfolding measure
delegate-Spares c method k s =
    omega (arith, k s.0 (record c { handle = handle_of s.0.client }, s.1))

with_queue-at :
    {A : Type 0} (o : Option Client) (i : Option ℤ) (own : Option Bool) (method : ℤ → Py Session A)
    → ((k : ℤ) → Keeps (method k))
    → Keeps (with_queue (record { client = o; queue_id = i; own = own }) method)
with_queue-at none i own method k s = refl
with_queue-at (some c) none own method k s = refl
with_queue-at (some c) (some i) own method k s = k i s

with_queue-Keeps :
    {A : Type 0} (q : Queue) (method : ℤ → Py Session A)
    → ((k : ℤ) → Keeps (method k))
    → Keeps (with_queue q method)
with_queue-Keeps q method k s = with_queue-at q.client q.queue_id q.own method k s

module _ (l : Library) (m : Memory) where
  get_queue_info-Keeps : (k : ℤ) → Keeps (get_queue_info l m k)
  unfolding get_queue_info check_handle handle argument check_alsa_error
  get_queue_info-Keeps k s = ground arith

  get_queue_status-Keeps : (k : ℤ) → Keeps (get_queue_status l m k)
  unfolding get_queue_status check_handle handle argument check_alsa_error
  get_queue_status-Keeps k s = ground arith

  set_queue_info-Keeps : (k : ℤ) (i : QueueInfo) → Keeps (set_queue_info l m k i)
  unfolding set_queue_info check_handle handle argument check_alsa_error
  set_queue_info-Keeps k i s = ground arith

module _ (l : Library) where
  close-Spares : Spares (close l)
  unfolding close measure owed
  close-Spares s = ground arith

  control-Spares : (t : EventType) (v : ℤ) → Spares (control l t v)
  unfolding control measure owed
  control-Spares t v s = ground arith

  get_usage-Spares : Spares (get_usage l)
  unfolding get_usage measure owed
  get_usage-Spares s = ground arith

  set_usage-Spares : (u : Bool) → Spares (set_usage l u)
  unfolding set_usage measure owed
  set_usage-Spares u s = ground arith

  get_tempo-Spares : Spares (get_tempo l)
  unfolding get_tempo measure owed
  get_tempo-Spares s = ground arith

  new_tempo-Spares : (a : TempoArgs) → Spares (new_tempo l a)
  unfolding new_tempo measure owed
  new_tempo-Spares a s = ground arith

  send_tempo-Spares :
      (handle : ℕ) (id : Option ℤ) (t : QueueTempo) → Spares (send_tempo l handle id t)
  unfolding send_tempo measure owed
  send_tempo-Spares handle id t s = ground arith

  set_tempo-Spares : (a : TempoArgs) → Spares (set_tempo l a)
  unfolding set_tempo
  set_tempo-Spares a s = elim (Result-cases (get_client_handle s.0.client)) [
    | inl (handle, e) ↦ rw e (
        bind_to-measure (new_tempo l a s) (send_tempo l handle s.0.queue_id) (measure s)
          (new_tempo-Spares a s) (send_tempo-Spares handle s.0.queue_id))
    | inr (x, e) ↦ rw e (omega arith)
  ]

  module _ (fresh : AlsaQueueTimer) (read : List Call → AlsaQueueTimer) where
    get_timer-Spares : Spares (get_timer l fresh read)
    unfolding get_timer measure owed
    get_timer-Spares s = ground arith

    new_timer-Spares : (t : QueueTimer) → Spares (new_timer l fresh read t)
    unfolding new_timer measure owed check_alsa_error
    new_timer-Spares t s = ground arith

    send_timer-Spares :
        (t : QueueTimer) (h : ℕ) (id : Option ℤ) (a : AlsaQueueTimer)
        → Spares (send_timer l fresh read h id a >>= λ _. return t)
    unfolding send_timer measure owed check_alsa_error
    send_timer-Spares t h id a s = ground arith

    set_timer-Spares : (t : QueueTimer) → Spares (set_timer l fresh read t)
    unfolding set_timer
    set_timer-Spares t s = elim (Result-cases (get_client_handle s.0.client)) [
      | inl (h, e) ↦ rw e (
          bind_to-measure (new_timer l fresh read t s)
            (λ a. send_timer l fresh read h s.0.queue_id a >>= λ _. return t) (measure s)
            (new_timer-Spares t s) (send_timer-Spares t h s.0.queue_id))
      | inr (x, e) ↦ rw e (omega arith)
    ]

module _ (parse : String → Parsed) (l : Library) (m : Memory) (c : Session) (fresh : AlsaQueueTimer)
    (read : List Call → AlsaQueueTimer) where
  queue_info-Keeps : (q : Queue) → Keeps (queue_info parse l m q)
  unfolding queue_info
  queue_info-Keeps q = with_queue-Keeps q (get_queue_info l m) (get_queue_info-Keeps l m)

  change_queue_info-Keeps : (i : QueueInfo) (q : Queue) → Keeps (change_queue_info parse l m q i)
  unfolding change_queue_info
  change_queue_info-Keeps i q =
      with_queue-Keeps q (λ k. set_queue_info l m k i) (λ k. set_queue_info-Keeps l m k i)

  queue_status-Keeps : (q : Queue) → Keeps (queue_status parse l m q)
  unfolding queue_status
  queue_status-Keeps q = with_queue-Keeps q (get_queue_status l m) (get_queue_status-Keeps l m)

  invoke-Spares : (x : Method) → Spares (invoke parse l m c fresh read x)
  unfolding invoke del start stop continue
  invoke-Spares Method.close_it s = close-Spares l s
  invoke-Spares Method.del_it s = close-Spares l s
  invoke-Spares Method.start_it s = control-Spares l EventType.start (pos 0) s
  invoke-Spares Method.stop_it s = control-Spares l EventType.stop (pos 0) s
  invoke-Spares Method.continue_it s = control-Spares l EventType.continue (pos 0) s
  invoke-Spares Method.get_usage_of s = drop_value-measure (get_usage l s) _ (get_usage-Spares l s)
  invoke-Spares Method.get_tempo_of s = drop_value-measure (get_tempo l s) _ (get_tempo-Spares l s)
  invoke-Spares (Method.control_it t v) s = control-Spares l t v s
  invoke-Spares (Method.set_usage_of u) s = set_usage-Spares l u s
  invoke-Spares (Method.set_tempo_of a) s = set_tempo-Spares l a s
  invoke-Spares Method.get_info_of s =
      drop_value-measure (delegate c (queue_info parse l m) s) _
        (delegate-Spares c (queue_info parse l m) queue_info-Keeps s)
  invoke-Spares (Method.set_info_of i) s =
      delegate-Spares c (λ q. change_queue_info parse l m q i) (change_queue_info-Keeps i) s
  invoke-Spares Method.get_status_of s =
      drop_value-measure (delegate c (queue_status parse l m) s) _
        (delegate-Spares c (queue_status parse l m) queue_status-Keeps s)
  invoke-Spares Method.get_timer_of s =
      drop_value-measure (get_timer l fresh read s) _ (get_timer-Spares l fresh read s)
  invoke-Spares (Method.set_timer_of t) s =
      drop_value-measure (set_timer l fresh read t s) _ (set_timer-Spares l fresh read t s)

  invoke_all-Spares :
      (ms : List Method) (s : State Queue)
      → measure (invoke_all parse l m c fresh read ms s) ≤ measure s
  unfolding invoke_all
  invoke_all-Spares [] s = omega arith
  invoke_all-Spares (x ∷ xs) s =
      omega (arith, invoke_all-Spares xs (invoke parse l m c fresh read x s).1, invoke-Spares x s)

  -- A queue that the client made is freed at most once, whatever methods are called on it in whatever
  -- order and whatever the library answers; one that it did not make is never freed.
  pub invoke_all-frees :
      (client : Client) (id : ℤ) (own : Option Bool) (ms : List Method)
      → frees (invoke_all parse l m c fresh read ms (init client id own, [])).1
        ≤ owed (init client id own)
  unfolding measure
  invoke_all-frees client id own ms = omega (arith, invoke_all-Spares ms (init client id own, []))
