-- ===== src/Client/Admin.antt =====
-- `SequencerClientBase` of alsa_midi/client.py without its input and output of events: the state of the
-- client, its end, and the methods on buffers, pools and client information. The structures that ALSA
-- allocates and fills are the record `Memory`.
pub mod Queues
pub mod PortArgs
pub mod Ports
pub mod Query
pub mod RemoveEvents
pub mod Remove
pub mod Objects
pub mod Open
pub mod Identity
pub mod Closed
pub mod Subscriptions
use python_alsa_midi.Prelude.{
  ℕ, ◌≡◌, Bool, true, false, Option, none, some, List, ◌∷◌, String, ℤ, pos, negsuc, eqb_ℤ,
  if◌then◌else◌,
}
use python_alsa_midi.Exceptions.{Result, ok, err, already_closed, type_error, check_alsa_error}
use python_alsa_midi.Stateful.{lift, return, ◌>>=◌, ◌>>◌}
use python_alsa_midi.Struct.{i32}
use python_alsa_midi.Structures.{
  Structure, AlsaQueueInfo, AlsaQueueStatus, AlsaFilter, AlsaClientInfo, AlsaSystemInfo,
  AlsaClientPool, AlsaSubscription, AlsaQuery, AlsaRemoveEvents,
}
use python_alsa_midi.EventType.{EventType, value}
use python_alsa_midi.Port.Info.{AlsaPortInfo}
use python_alsa_midi.Handle.{
  Buffer, Size, Call, Library, State, Py, self, set_self, call, checked_call, argument,
  size_argument,
}
use python_alsa_midi.Queue.{Queue}
use python_alsa_midi.Client.Info.{
  ClientInfo, from_alsa, to_alsa, SystemInfo, system_from_alsa, ClientPool, pool_from_alsa,
  pool_to_alsa,
}

-- The attributes: `handle` is `None` exactly if `_handle_p` is. `_queues` maps ids to the queue objects
-- that are still referenced: their places among all queue objects made.
pub record Session : Type 0 where
  pub handle : Option ℕ
  pub client_id : ℤ
  pub objects : List Queue
  pub queues : List (ℤ × ℕ)

-- What ALSA's `malloc` calls give, what its calls leave in a structure, what it keeps of an id of a client
-- or a port, and the setters of filters.
pub record Memory : Type 0 where
  pub fresh_client_info : AlsaClientInfo
  pub fresh_client_pool : AlsaClientPool
  pub fresh_port_info : AlsaPortInfo
  pub fresh_queue_info : AlsaQueueInfo
  pub fresh_subscription : AlsaSubscription
  pub fresh_query : AlsaQuery
  pub fresh_remove_events : AlsaRemoveEvents
  pub client_info : List Call → AlsaClientInfo
  pub client_pool : List Call → AlsaClientPool
  pub system_info : List Call → AlsaSystemInfo
  pub port_info : List Call → AlsaPortInfo
  pub queue_info : List Call → AlsaQueueInfo
  pub queue_status : List Call → AlsaQueueStatus
  pub query : List Call → AlsaQuery
  pub kept_id : ℤ → ℤ
  pub filter_add : ℤ → AlsaFilter → AlsaFilter
  pub filter_clear : AlsaFilter → AlsaFilter

-- `_check_handle`
unfoldable pub check_handle : Py Session Unit
check_handle s = elim s.0.handle [ none ↦ (err already_closed, s) | some h ↦ (ok tt, s) ]

-- `self.handle` as an argument: cffi refuses `None`.
unfoldable pub handle : Py Session ℕ
handle s = elim s.0.handle [ none ↦ (err type_error, s) | some h ↦ (ok h, s) ]

-- `-errno.ENOENT`
abbrev pub enoent : ℤ
enoent = negsuc 1

abbrev pub log : Py Session (List Call)
log s = (ok s.1, s)

module _ (l : Library) where
  abbrev pub malloc : Structure → Py Session Unit
  malloc structure = checked_call l (Call.malloc structure) >>= λ _. return tt

  -- A call whose code is only checked.
  abbrev pub run : Call → Py Session Unit
  run c = checked_call l c >>= λ _. return tt

  unfoldable pub close : Py Session Unit
  close s = elim s.0.handle [
    | none ↦ (ok tt, s)
    | some h ↦ (ok tt, (record s.0 { handle = none }, Call.close_client h ∷ s.1))
  ]

  -- `drop_input`, `drop_input_buffer`, `sync_output_queue`, `drop_output` and `drop_output_buffer`
  unfoldable pub buffer : Buffer → Py Session Unit
  unfolding check_handle handle check_alsa_error
  buffer b = do check_handle; h ← handle; run (Call.buffer b h)

  -- `get_output_buffer_size` and `get_input_buffer_size`
  unfoldable pub get_size : Size → Py Session ℤ
  unfolding check_handle handle
  get_size z = do check_handle; h ← handle; call l (Call.get_size z h)

  abbrev pub set_checked : Size → ℤ → Py Session Unit
  set_checked z v = do h ← handle; size ← lift (size_argument v); run (Call.set_size z h size)

  -- `set_output_buffer_size` and `set_input_buffer_size`; `set_client_pool_output`,
  -- `set_client_pool_output_room` and `set_client_pool_input`, which do not check the handle
  unfoldable pub set_size : Size → ℤ → Py Session Unit
  unfolding check_handle handle size_argument check_alsa_error
  set_size Size.output_buffer v = check_handle >> set_checked Size.output_buffer v
  set_size Size.input_buffer v = check_handle >> set_checked Size.input_buffer v
  set_size z v = set_checked z v

-- The argument `previous` of `query_next_client`
pub data PreviousClient : Type 0 where
  first : PreviousClient
  after_id : ℤ → PreviousClient
  after_info : ClientInfo → PreviousClient

module _ (l : Library) (m : Memory) where
  unfoldable pub get_system_info : Py Session SystemInfo
  unfolding handle system_from_alsa
  get_system_info = do
    malloc l Structure.system_info
    h ← handle
    run l (Call.system_info h)
    calls ← log
    return (system_from_alsa (m.system_info calls))

  abbrev client_info_call : ℕ → Option ℤ → Py Session Unit
  client_info_call h none = run l (Call.get_client_info h)
  client_info_call h (some id) =
      lift (argument i32 id) >>= λ id. run l (Call.get_any_client_info h id)

  unfoldable pub get_client_info : Option ℤ → Py Session ClientInfo
  unfolding handle from_alsa argument check_alsa_error
  get_client_info client_id = do
    malloc l Structure.client_info
    h ← handle
    client_info_call h client_id
    calls ← log
    lift (from_alsa (m.client_info calls))

  -- `ClientInfo._to_alsa` with its allocation
  abbrev pub new_info : ClientInfo → Py Session AlsaClientInfo
  new_info info =
      malloc l Structure.client_info
      >> lift (to_alsa m.filter_add m.filter_clear info m.fresh_client_info)

  unfoldable pub set_client_info : ClientInfo → Py Session Unit
  unfolding check_handle handle to_alsa check_alsa_error
  set_client_info info = do
    check_handle
    a_info ← new_info info
    h ← handle
    run l (Call.set_client_info h a_info)

  unfoldable pub set_client_event_filter : EventType → Py Session Unit
  unfolding check_handle handle value argument check_alsa_error
  set_client_event_filter event_type = do
    check_handle
    h ← handle
    v ← lift (argument i32 (pos (value event_type)))
    run l (Call.set_client_event_filter h v)

  abbrev numbered : ℤ → Py Session AlsaClientInfo
  numbered id = do
    malloc l Structure.client_info
    client ← lift (argument i32 id)
    return (record m.fresh_client_info { client = client })

  abbrev previous_client : PreviousClient → Py Session AlsaClientInfo
  previous_client first = numbered (negsuc 0)
  previous_client (after_id id) = numbered id
  previous_client (after_info info) = new_info info

  -- The code `-ENOENT` ends a query.
  abbrev pub found : {A : Type 0} → ℤ → Py Session A → Py Session (Option A)
  found code read =
      if eqb_ℤ code enoent
      then return none
      else (lift (check_alsa_error code) >> (read >>= λ a. return (some a)))

  unfoldable pub query_next_client : PreviousClient → Py Session (Option ClientInfo)
  unfolding check_handle handle argument to_alsa from_alsa check_alsa_error
  query_next_client previous = do
    check_handle
    info ← previous_client previous
    h ← handle
    code ← call l (Call.query_next_client h info)
    found code (log >>= λ calls. lift (from_alsa (m.client_info calls)))

  unfoldable pub get_client_pool : Py Session ClientPool
  unfolding check_handle handle pool_from_alsa check_alsa_error
  get_client_pool = do
    check_handle
    malloc l Structure.client_pool
    h ← handle
    run l (Call.get_client_pool h)
    calls ← log
    return (pool_from_alsa (m.client_pool calls))

  unfoldable pub set_client_pool : ClientPool → Py Session Unit
  unfolding check_handle handle pool_to_alsa check_alsa_error
  set_client_pool pool = do
    check_handle
    malloc l Structure.client_pool
    a_pool ← lift (pool_to_alsa pool m.fresh_client_pool)
    h ← handle
    run l (Call.set_client_pool h a_pool)
