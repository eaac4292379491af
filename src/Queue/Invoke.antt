-- ===== src/Queue/Invoke.antt =====
-- The methods of a queue object (alsa_midi/queue.py), called in any order.
use python_alsa_midi.Prelude.{
  ap, ℕ, ◌≡◌, refl, Bool, true, false, Option, none, some, List, [], ◌∷◌, ℤ,
}
use python_alsa_midi.Exceptions.{Result, ok, err, already_closed}
use python_alsa_midi.EventType.{EventType}
use python_alsa_midi.Handle.{get_client_handle, Client, Call, Library, State, Py}
use python_alsa_midi.Queue.Arguments.{TempoArgs}
use python_alsa_midi.Queue.{
  Queue, close, del, control, start, stop, continue, get_usage, set_usage, set_tempo, get_tempo,
}
use python_alsa_midi.Prelude.{String}
use python_alsa_midi.Address.{Parsed}
use python_alsa_midi.Structures.{AlsaQueueTimer}
use python_alsa_midi.Queue.Info.{QueueInfo}
use python_alsa_midi.Queue.Timer.{QueueTimer}
use python_alsa_midi.Queue.Timer.Methods.{get_timer, set_timer}
use python_alsa_midi.Client.Admin.{Session, Memory}
use python_alsa_midi.Client.Admin.Objects.{queue_info, change_queue_info, queue_status}
use python_alsa_midi.Queue.Lifecycle.{close-closed}

-- A method call on a queue object.
pub data Method : Type 0 where
  close_it del_it start_it stop_it continue_it get_usage_of get_tempo_of : Method
  control_it : EventType → ℤ → Method
  set_usage_of : Bool → Method
  set_tempo_of : TempoArgs → Method
  get_info_of get_status_of get_timer_of : Method
  set_info_of : QueueInfo → Method
  set_timer_of : QueueTimer → Method

abbrev pub drop_value : {A : Type 0} → Result A × State Queue → Result (Unit {0}) × State Queue
drop_value (ok _, s) = (ok tt, s)
drop_value (err e, s) = (err e, s)

abbrev pub handle_of : Option Client → Option ℕ
handle_of none = none
handle_of (some c) = c.handle

-- What the object leaves to its client, the session `c` with the object's handle.
abbrev pub delegate : {A : Type 0} → Session → (Queue → Py Session A) → Py Queue A
delegate c method s =
    let out = method s.0 (record c { handle = handle_of s.0.client }, s.1) in
    (out.0, (s.0, out.1.1))

-- `c` is what the client has beside its handle; `fresh` and `read` are the structures for timers.
module _ (parse : String → Parsed) (l : Library) (m : Memory) (c : Session) (fresh : AlsaQueueTimer)
    (read : List Call → AlsaQueueTimer) where
  unfoldable pub invoke : Method → Py Queue Unit
  unfolding close del control start stop continue get_usage set_usage set_tempo get_tempo get_timer
      set_timer queue_info change_queue_info queue_status
  invoke Method.close_it s = close l s
  invoke Method.del_it s = del l s
  invoke Method.start_it s = start l s
  invoke Method.stop_it s = stop l s
  invoke Method.continue_it s = continue l s
  invoke Method.get_usage_of s = drop_value (get_usage l s)
  invoke Method.get_tempo_of s = drop_value (get_tempo l s)
  invoke (Method.control_it t v) s = control l t v s
  invoke (Method.set_usage_of u) s = set_usage l u s
  invoke (Method.set_tempo_of a) s = set_tempo l a s
  invoke Method.get_info_of s = drop_value (delegate c (queue_info parse l m) s)
  invoke (Method.set_info_of i) s = delegate c (λ q. change_queue_info parse l m q i) s
  invoke Method.get_status_of s = drop_value (delegate c (queue_status parse l m) s)
  invoke Method.get_timer_of s = drop_value (get_timer l fresh read s)
  invoke (Method.set_timer_of t) s = drop_value (set_timer l fresh read t s)

  -- The state after a sequence of calls; an exception does not end it.
  unfoldable pub invoke_all : List Method → State Queue → State Queue
  invoke_all [] s = s
  invoke_all (m ∷ ms) s = invoke_all ms (invoke m s).1

abbrev pub closes : Method → Bool
closes Method.close_it = true
closes Method.del_it = true
closes _ = false

-- Without its client a queue object makes no call: `close` and `__del__` do nothing, and every other
-- method raises `StateError` and changes nothing.
pub invoke-closed :
    (parse : String → Parsed) (l : Library) (m : Memory) (c : Session) (fresh : AlsaQueueTimer)
    (read : List Call → AlsaQueueTimer) (x : Method) (s : State Queue)
    → s.0.client ≡ none
    → invoke parse l m c fresh read x s
      ≡ (elim (closes x) [ true ↦ ok tt | false ↦ err already_closed ], s)
unfolding invoke del start stop continue control get_usage set_usage set_tempo get_tempo get_timer
    set_timer queue_info change_queue_info queue_status get_client_handle
invoke-closed parse l m c fresh read Method.close_it s h = close-closed l s h
invoke-closed parse l m c fresh read Method.del_it s h = ap (λ r. (ok tt, r.1)) (close-closed l s h)
invoke-closed parse l m c fresh read Method.start_it s h = rw h refl
invoke-closed parse l m c fresh read Method.stop_it s h = rw h refl
invoke-closed parse l m c fresh read Method.continue_it s h = rw h refl
invoke-closed parse l m c fresh read Method.get_usage_of s h = rw h refl
invoke-closed parse l m c fresh read Method.get_tempo_of s h = rw h refl
invoke-closed parse l m c fresh read (Method.control_it t v) s h = rw h refl
invoke-closed parse l m c fresh read (Method.set_usage_of u) s h = rw h refl
invoke-closed parse l m c fresh read (Method.set_tempo_of a) s h = rw h refl
invoke-closed parse l m c fresh read Method.get_info_of s h = rw h refl
invoke-closed parse l m c fresh read (Method.set_info_of i) s h = rw h refl
invoke-closed parse l m c fresh read Method.get_status_of s h = rw h refl
invoke-closed parse l m c fresh read Method.get_timer_of s h = rw h refl
invoke-closed parse l m c fresh read (Method.set_timer_of t) s h = rw h refl
