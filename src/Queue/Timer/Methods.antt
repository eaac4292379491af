-- ===== src/Queue/Timer/Methods.antt =====
-- The methods `get_timer` and `set_timer` of `Queue` (alsa_midi/queue.py).
use python_alsa_midi.Prelude.{ℕ, Option, List, ℤ}
use python_alsa_midi.Exceptions.{ok, check_alsa_error}
use python_alsa_midi.Stateful.{lift, return, ◌>>=◌, ◌>>◌}
use python_alsa_midi.Structures.{Structure, AlsaQueueTimer}
use python_alsa_midi.Handle.{Call, Library, Py, self, checked_call, get_client_handle, id_argument}
use python_alsa_midi.Queue.{Queue}
use python_alsa_midi.Queue.Timer.{QueueTimer, from_alsa, to_alsa}

-- `read` is what `snd_seq_get_queue_timer` leaves in the structure.
module _ (l : Library) (fresh : AlsaQueueTimer) (read : List Call → AlsaQueueTimer) where
  unfoldable pub get_timer : Py Queue QueueTimer
  unfolding get_client_handle id_argument from_alsa
  get_timer = do
    q ← self
    handle ← lift (get_client_handle q.client)
    _ ← checked_call l (Call.malloc Structure.queue_timer)
    id ← lift (id_argument q.queue_id)
    _ ← checked_call l (Call.get_queue_timer handle id)
    s ← (λ s. (ok s.1, s))
    return (from_alsa (read s))

  -- The two structures are allocated before the fields are converted.
  unfoldable pub new_timer : QueueTimer → Py Queue AlsaQueueTimer
  unfolding to_alsa check_alsa_error
  new_timer timer = do
    _ ← checked_call l (Call.malloc Structure.queue_timer)
    _ ← checked_call l (Call.malloc Structure.timer_id)
    lift (to_alsa timer fresh)

  unfoldable pub send_timer : ℕ → Option ℤ → AlsaQueueTimer → Py Queue Unit
  unfolding id_argument check_alsa_error
  send_timer handle queue_id a_timer = do
    id ← lift (id_argument queue_id)
    _ ← checked_call l (Call.set_queue_timer handle id a_timer)
    return tt

  unfoldable pub set_timer : QueueTimer → Py Queue QueueTimer
  unfolding get_client_handle new_timer send_timer
  set_timer timer = do
    q ← self
    handle ← lift (get_client_handle q.client)
    a_timer ← new_timer timer
    send_timer handle q.queue_id a_timer
    return timer
