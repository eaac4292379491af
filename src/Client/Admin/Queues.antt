-- ===== src/Client/Admin/Queues.antt =====
-- The queues of a client in alsa_midi/client.py: `create_queue`, `get_queue` and `get_named_queue` with the
-- map `_queues`, and the calls on a queue's information. A queue object is named by its place among all
-- that were made; a weak map drops an object when the garbage collector does (`collect`).
pub mod Registry
use python_alsa_midi.Prelude.{
  ℕ, ◌==◌, Bool, true, false, not, Option, none, some, List, [], ◌∷◌, ◌++◌, String, ℤ, pos, eqb_ℤ,
  length, get_elem?, set, if◌then◌else◌,
}
use mathlib.Core.Option
use python_alsa_midi.Exceptions.{Result, ok, err, value_error, assertion_error, check_alsa_error}
use python_alsa_midi.Stateful.{lift, return, ◌>>=◌, ◌>>◌}
use python_alsa_midi.Struct.{i32}
use python_alsa_midi.Structures.{Structure, AlsaQueueInfo}
use python_alsa_midi.Handle.{
  Client, Call, Library, State, Py, self, set_self, checked_call, argument,
}
use python_alsa_midi.Queue.{Queue}
use python_alsa_midi.Queue
use python_alsa_midi.Queue.Info.{QueueInfo, QueueStatus, to_alsa, from_alsa, status_from_alsa}
use python_alsa_midi.Client.Admin.{Session, Memory, check_handle, handle, log, malloc, run}

-- `self._queues.get(queue_id)`
unfoldable pub lookup : ℤ → List (ℤ × ℕ) → Option ℕ
lookup k [] = none
lookup k (e ∷ es) = if eqb_ℤ e.0 k then some e.1 else lookup k es

-- The entries but those of an object.
unfoldable pub without : ℕ → List (ℤ × ℕ) → List (ℤ × ℕ)
without r [] = []
without r (e ∷ es) = if e.1 == r then without r es else (e ∷ without r es)

-- `Queue(self, queue_id, _own=own)`: the new object and its name
abbrev pub new_object : Session → ℤ → Bool → Session × ℕ
new_object s k own = (
  record s { objects = s.objects ++ (Queue.init (record { handle = s.handle }) k (some own) ∷ []) },
  length s.objects,
)

module _ (l : Library) (m : Memory) where
  -- The three ways to make a queue.
  unfoldable pub new_queue : Option String → Option QueueInfo → Py Session ℤ
  unfolding handle to_alsa check_alsa_error
  new_queue (some name) (some info) = lift (err value_error)
  new_queue none (some info) = do
    s ← self
    malloc l Structure.queue_info
    a_info ← lift (to_alsa s.client_id info m.fresh_queue_info)
    h ← handle
    checked_call l (Call.create_queue h a_info)
  new_queue (some name) none = do h ← handle; checked_call l (Call.alloc_named_queue h name)
  new_queue none none = do h ← handle; checked_call l (Call.alloc_queue h)

  -- The end of `create_queue`: an assertion, and the entry of the new object.
  unfoldable pub register : ℤ → Py Session ℕ
  unfolding lookup
  register k s = elim (lookup k s.0.queues) [
    | some r ↦ (err assertion_error, s)
    | none ↦
        let (t, r) = new_object s.0 k true in (ok r, (record t { queues = (k, r) ∷ t.queues }, s.1))
  ]

  unfoldable pub create_queue : Option String → Option QueueInfo → Py Session ℕ
  unfolding check_handle new_queue register
  create_queue name info = check_handle >> (new_queue name info >>= register)

  -- The object of `get_queue`, if it is not registered: it is used, but not owned.
  abbrev pub use_queue : ℤ → Py Session ℕ
  use_queue k = do
    h ← handle
    id ← lift (argument i32 k)
    run l (Call.set_queue_usage h id (pos 1))
    s ← self
    set_self (new_object s k false).0
    return (new_object s k false).1

  abbrev pub get_or_use : Option ℕ → ℤ → Py Session ℕ
  get_or_use (some r) k = return r
  get_or_use none k = use_queue k

  unfoldable pub get_queue : ℤ → Py Session ℕ
  unfolding check_handle handle argument lookup check_alsa_error
  get_queue k = do check_handle; s ← self; get_or_use (lookup k s.queues) k

  unfoldable pub query_named_queue : String → Py Session ℤ
  unfolding check_handle handle check_alsa_error
  query_named_queue name = do
    check_handle
    h ← handle
    checked_call l (Call.query_named_queue h name)

  unfoldable pub get_named_queue : String → Py Session ℕ
  unfolding query_named_queue get_queue
  get_named_queue name = query_named_queue name >>= get_queue

  unfoldable pub get_queue_info : ℤ → Py Session QueueInfo
  unfolding check_handle handle argument from_alsa check_alsa_error
  get_queue_info k = do
    check_handle
    malloc l Structure.queue_info
    h ← handle
    id ← lift (argument i32 k)
    run l (Call.get_queue_info h id)
    calls ← log
    return (from_alsa (m.queue_info calls))

  unfoldable pub set_queue_info : ℤ → QueueInfo → Py Session Unit
  unfolding check_handle handle argument to_alsa check_alsa_error
  set_queue_info k info = do
    check_handle
    s ← self
    malloc l Structure.queue_info
    a_info ← lift (to_alsa s.client_id info m.fresh_queue_info)
    h ← handle
    id ← lift (argument i32 k)
    run l (Call.set_queue_info h id a_info)

  unfoldable pub get_queue_status : ℤ → Py Session QueueStatus
  unfolding check_handle handle argument status_from_alsa check_alsa_error
  get_queue_status k = do
    check_handle
    malloc l Structure.queue_status
    h ← handle
    id ← lift (argument i32 k)
    run l (Call.get_queue_status h id)
    calls ← log
    lift (status_from_alsa (m.queue_status calls))

  -- A method of a queue object, whose client is this one.
  abbrev pub method_on : {A : Type 0} → A → Py Queue A → Option Queue → ℕ → Py Session A
  method_on a method none r s = (ok a, s)
  method_on a method (some q) r s =
      let out =
        method
          (record q { client = Option.map (λ _. record { handle = s.0.handle }) q.client }, s.1) in
      (out.0, (record s.0 { objects = set s.0.objects r out.1.0 }, out.1.1))

  -- `close` of a queue object
  unfoldable pub close_queue : ℕ → Py Session Unit
  unfolding Queue.close
  close_queue r s = method_on tt (Queue.close l) (get_elem? s.0.objects r) r s

  -- The garbage collector drops the last reference to a queue object: `__del__`, and the entry goes.
  unfoldable pub collect : ℕ → Py Session Unit
  unfolding Queue.del without
  collect r s =
      let out = method_on tt (Queue.del l) (get_elem? s.0.objects r) r s in
      (out.0, (record out.1.0 { queues = without r out.1.0.queues }, out.1.1))
