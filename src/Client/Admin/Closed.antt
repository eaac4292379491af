-- ===== src/Client/Admin/Closed.antt =====
-- A client of alsa_midi/client.py after `close`: the methods that check the handle.
use python_alsa_midi.Prelude.{◌≡◌, ap, arith, Option, none, List, String, ℕ, ℤ}
use python_alsa_midi.Exceptions.{Result, err, already_closed}
use python_alsa_midi.Stateful.{◌>>=◌, ◌>>◌, return, bind_to}
use python_alsa_midi.Address.{Arg, Parsed}
use python_alsa_midi.EventType.{EventType}
use python_alsa_midi.Handle.{Buffer, Call, Size, Library, State, Py}
use python_alsa_midi.Queue.Info.{QueueInfo}
use python_alsa_midi.Client.Info.{ClientInfo, ClientPool}
use python_alsa_midi.Client.Admin.{
  Session, Memory, check_handle, close, buffer, get_size, set_client_info, set_client_event_filter,
  PreviousClient, query_next_client, get_client_pool, set_client_pool,
}
use python_alsa_midi.Client.Admin.Identity.{get_sequencer_name, get_sequencer_type}
use python_alsa_midi.Client.Admin.Queues.{
  create_queue, get_queue, get_named_queue, query_named_queue, get_queue_info, set_queue_info,
  get_queue_status,
}
use python_alsa_midi.Client.Admin.PortArgs.{PortArgs}
use python_alsa_midi.Client.Admin.Ports.{create_port, PreviousPort, query_next_port}
use python_alsa_midi.Client.Admin.Query.{SubscriptionQuery}
use python_alsa_midi.Client.Admin.Subscriptions.{
  SubscribeArgs, subscribe_port, unsubscribe_port, query_port_subscribers,
}

-- A call of a method for buffers, pools, information, queues, ports or subscriptions that begins with
-- `_check_handle`.
pub data Method : Type 0 where
  buffer_of : Buffer → Method
  size_of : Size → Method
  client_info_to : ClientInfo → Method
  event_filter_to : EventType → Method
  next_client : PreviousClient → Method
  pool : Method
  pool_to : ClientPool → Method
  new_queue_of : Option String → Option QueueInfo → Method
  queue_of queue_info_of queue_status_of : ℤ → Method
  named_queue_of queue_named : String → Method
  queue_info_to : ℤ → QueueInfo → Method
  new_port : String → ℕ → ℕ → PortArgs → Method
  next_port : ℤ → PreviousPort → Method
  subscribe : Arg → Arg → SubscribeArgs → Method
  unsubscribe : Arg → Arg → Method
  subscribers_of : SubscriptionQuery → Method
  name_of : (List Call → Result String) → Method
  kind : Method

abbrev drop_value : {A : Type 0} → Py Session A → Py Session Unit
drop_value m = m >>= λ _. return tt

module _ (parse : String → Parsed) (l : Library) (m : Memory) where
  -- The method, its result dropped.
  unfoldable pub invoke : Method → Py Session Unit
  unfolding buffer get_size set_client_info set_client_event_filter query_next_client
      get_client_pool set_client_pool create_queue get_queue get_queue_info get_queue_status
      get_named_queue query_named_queue set_queue_info create_port query_next_port subscribe_port
      unsubscribe_port query_port_subscribers get_sequencer_name get_sequencer_type
  invoke (buffer_of b) = buffer l b
  invoke (size_of z) = drop_value (get_size l z)
  invoke (client_info_to i) = set_client_info l m i
  invoke (event_filter_to t) = set_client_event_filter l m t
  invoke (next_client c) = drop_value (query_next_client l m c)
  invoke pool = drop_value (get_client_pool l m)
  invoke (pool_to c) = set_client_pool l m c
  invoke (new_queue_of name info) = drop_value (create_queue l m name info)
  invoke (queue_of k) = drop_value (get_queue l m k)
  invoke (queue_info_of k) = drop_value (get_queue_info l m k)
  invoke (queue_status_of k) = drop_value (get_queue_status l m k)
  invoke (named_queue_of n) = drop_value (get_named_queue l m n)
  invoke (queue_named n) = drop_value (query_named_queue l m n)
  invoke (queue_info_to k i) = set_queue_info l m k i
  invoke (new_port n c t a) = drop_value (create_port l m n c t a)
  invoke (next_port c p) = drop_value (query_next_port l m c p)
  invoke (subscribe s d a) = subscribe_port parse l m s d a
  invoke (unsubscribe s d) = unsubscribe_port parse l m s d
  invoke (subscribers_of q) = drop_value (query_port_subscribers parse l m q)
  invoke (name_of decoded) = drop_value (get_sequencer_name l decoded)
  invoke kind = drop_value (get_sequencer_type l)

  pub closed : (s : State Session) → (close l s).1.0.handle ≡ none
  unfolding close
  closed s = ground arith

  refused : (s : State Session) → s.0.handle ≡ none → check_handle s ≡ (err already_closed, s)
  unfolding check_handle
  refused s h = ground (arith, h)

  -- What begins with the check ends there.
  pub begins :
      {B : Type 0} (k : Py Session B) (s : State Session)
      → s.0.handle ≡ none
      → (check_handle >> k) s ≡ (err already_closed, s)
  begins k s h = ap (λ r. bind_to r (λ _. k)) (refused s h)

  dropped :
      {B : Type 0} (k : Py Session B) (s : State Session)
      → s.0.handle ≡ none
      → drop_value (check_handle >> k) s ≡ (err already_closed, s)
  dropped k s h = ap (λ r. bind_to r (λ _. return tt)) (begins k s h)

  pub method-closed :
      (x : Method) (s : State Session) → s.0.handle ≡ none → invoke x s ≡ (err already_closed, s)
  unfolding invoke buffer get_size set_client_info set_client_event_filter query_next_client
      get_client_pool set_client_pool create_queue get_queue get_queue_info get_queue_status
      get_named_queue query_named_queue set_queue_info create_port query_next_port subscribe_port
      unsubscribe_port query_port_subscribers get_sequencer_name get_sequencer_type
  method-closed (buffer_of b) s h = begins _ s h
  method-closed (size_of z) s h = dropped _ s h
  method-closed (client_info_to i) s h = begins _ s h
  method-closed (event_filter_to t) s h = begins _ s h
  method-closed (next_client c) s h = dropped _ s h
  method-closed pool s h = dropped _ s h
  method-closed (pool_to c) s h = begins _ s h
  method-closed (new_queue_of name info) s h = dropped _ s h
  method-closed (queue_of k) s h = dropped _ s h
  method-closed (queue_info_of k) s h = dropped _ s h
  method-closed (queue_status_of k) s h = dropped _ s h
  method-closed (named_queue_of n) s h =
      ap (λ r. bind_to (bind_to r (get_queue l m)) (λ _. return tt)) (begins _ s h)
  method-closed (queue_named n) s h = dropped _ s h
  method-closed (queue_info_to k i) s h = begins _ s h
  method-closed (new_port n c t a) s h = dropped _ s h
  method-closed (next_port c p) s h = dropped _ s h
  method-closed (subscribe a d x) s h = begins _ s h
  method-closed (unsubscribe a d) s h = begins _ s h
  method-closed (subscribers_of q) s h = dropped _ s h
  method-closed (name_of decoded) s h = dropped _ s h
  method-closed kind s h = dropped _ s h
