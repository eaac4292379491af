-- ===== src/Queue.antt =====
-- `Queue` of alsa_midi/queue.py: the methods of a queue object that reach ALSA through its client's
-- handle. The handle may be gone at any call (`Client.handle`), and any call may fail.
pub mod Arguments
pub mod Info
pub mod Lifecycle
pub mod Invoke
pub mod Frees
pub mod Tempo
pub mod Timer
use python_alsa_midi.Prelude.{
  ℕ, zero, suc, ◌+◌, ◌/◌, ◌==◌, Bool, true, false, not, Option, none, some, ℤ, pos, negsuc, eqb_ℤ,
  if◌then◌else◌,
}
use python_alsa_midi.Exceptions.{Error, Result, ok, err, value_error, zero_division_error}
use python_alsa_midi.Struct.{i32, u32}
use python_alsa_midi.EventType.{EventType}
use python_alsa_midi.Stateful.{lift, return, ◌>>=◌, ◌>>◌}
use python_alsa_midi.Handle.{
  Client, QueueTempo, Call, Library, Py, self, set_self, call, checked_call, get_client_handle,
  argument, id_argument,
}
use python_alsa_midi.Queue.Arguments.{TempoArgs, prepare}

-- `own` is `_own`: `some true` for a queue that the client made, `some false` for one that it uses,
-- `none` for no management.
pub record Queue : Type 0 where
  pub client : Option Client
  pub queue_id : Option ℤ
  pub own : Option Bool

unfoldable pub init : Client → ℤ → Option Bool → Queue
init c i o = record { client = some c; queue_id = some i; own = o }

-- What `close` leaves of the object.
abbrev pub closed : Queue
closed = record { client = none; queue_id = none; own = some false }

module _ (l : Library) where
  -- The end of `close`, after the attributes are reset.
  abbrev pub release : Option ℕ → ℤ → Option Bool → Py Queue Unit
  release none queue own = return tt
  release (some handle) queue none = return tt
  release (some handle) queue (some true) =
      checked_call l (Call.free_queue handle queue) >>= λ _. return tt
  release (some handle) queue (some false) =
      call l (Call.set_queue_usage handle queue (pos 0)) >>= λ _. return tt

  abbrev pub close_from : Option ℤ → Option Client → Option Bool → Py Queue Unit
  close_from none client own = return tt
  close_from (some queue) none own = return tt
  close_from (some queue) (some c) own = do set_self closed; release c.handle queue own

  unfoldable pub close : Py Queue Unit
  close = self >>= λ q. close_from q.queue_id q.client q.own

  -- `__del__`: every error of the library is dropped.
  unfoldable pub del : Py Queue Unit
  unfolding close
  del s = (ok tt, (close s).1)

  unfoldable pub control : EventType → ℤ → Py Queue Unit
  unfolding get_client_handle id_argument argument
  control event_type value = do
    q ← self
    handle ← lift (get_client_handle q.client)
    id ← lift (id_argument q.queue_id)
    v ← lift (argument i32 value)
    _ ← checked_call l (Call.control_queue handle id event_type v)
    return tt

  unfoldable pub start : Py Queue Unit
  unfolding control
  start = control EventType.start (pos 0)

  unfoldable pub stop : Py Queue Unit
  unfolding control
  stop = control EventType.stop (pos 0)

  -- `continue_`
  unfoldable pub continue : Py Queue Unit
  unfolding control
  continue = control EventType.continue (pos 0)

  unfoldable pub get_usage : Py Queue Bool
  unfolding get_client_handle id_argument
  get_usage = do
    q ← self
    handle ← lift (get_client_handle q.client)
    id ← lift (id_argument q.queue_id)
    result ← checked_call l (Call.get_queue_usage handle id)
    return (not (eqb_ℤ result (pos 0)))

  unfoldable pub set_usage : Bool → Py Queue Unit
  unfolding get_client_handle id_argument
  set_usage usage = do
    q ← self
    handle ← lift (get_client_handle q.client)
    id ← lift (id_argument q.queue_id)
    _ ← checked_call l (Call.set_queue_usage handle id (if usage then pos 1 else pos 0))
    return tt

  -- The first half of `set_tempo`: a fresh structure is allocated and filled.
  unfoldable pub new_tempo : TempoArgs → Py Queue QueueTempo
  unfolding prepare
  new_tempo a = checked_call l Call.queue_tempo_malloc >>= λ _. lift (prepare a l.fresh_tempo)

  -- The second half: it is passed to ALSA.
  unfoldable pub send_tempo : ℕ → Option ℤ → QueueTempo → Py Queue Unit
  unfolding id_argument
  send_tempo handle queue_id q_tempo = do
    id ← lift (id_argument queue_id)
    _ ← checked_call l (Call.set_queue_tempo handle id q_tempo)
    return tt

  unfoldable pub set_tempo : TempoArgs → Py Queue Unit
  unfolding get_client_handle new_tempo send_tempo
  set_tempo a = do
    q ← self
    handle ← lift (get_client_handle q.client)
    q_tempo ← new_tempo a
    send_tempo handle q.queue_id q_tempo

  unfoldable pub get_tempo : Py Queue QueueTempo
  unfolding get_client_handle id_argument
  get_tempo = do
    q ← self
    handle ← lift (get_client_handle q.client)
    _ ← checked_call l Call.queue_tempo_malloc
    id ← lift (id_argument q.queue_id)
    _ ← checked_call l (Call.get_queue_tempo handle id l.fresh_tempo)
    s ← (λ s. (ok s.1, s))
    return (l.read_tempo s)
