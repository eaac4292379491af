-- ===== src/Handle.antt =====
-- What `Queue` (alsa_midi/queue.py) and `Port` (alsa_midi/port.py) share: the client that they refer
-- to, the calls of the ALSA library that they make, and their methods as state passing. A method
-- passes on its object and the log of the calls made so far, newest first; the ALSA library is the
-- parameter `Library`, which may answer a call by all that was called before.
use python_alsa_midi.Prelude.{ℕ, Option, none, some, List, ◌∷◌, String, ℤ, pos, if◌then◌else◌}
use python_alsa_midi.Exceptions.{
  Result, ok, err, already_closed, sequencer_already_closed, type_error, overflow_error,
  check_alsa_error,
}
use python_alsa_midi.Stateful.{Act, lift, return, ◌>>=◌, ◌>>◌}
use python_alsa_midi.Struct.{i32, in_range}
unfoldable pub use python_alsa_midi.Struct.{argument}
use python_alsa_midi.EventType.{EventType}
use python_alsa_midi.Structures.{
  Structure, AlsaQueueInfo, AlsaQueueTimer, AlsaClientInfo, AlsaClientPool, AlsaSubscription,
  AlsaQuery, AlsaRemoveEvents,
}
use python_alsa_midi.Port.Info.{AlsaPortInfo}

-- The attribute `handle` of a `SequencerClientBase`: `None` when it is closed. ALSA's handles are not
-- null, so `if handle` asks for this only.
pub record Client : Type 0 where
  pub handle : Option ℕ

-- `QueueTempo`
pub record QueueTempo : Type 0 where
  pub tempo : ℤ
  pub ppq : ℤ
  pub skew : Option ℤ
  pub skew_base : Option ℤ

-- The calls on the buffers that have the handle only.
pub data Buffer : Type 0 where
  drop_input drop_input_buffer sync_output_queue drop_output drop_output_buffer : Buffer

-- The sizes of buffers and pools.
pub data Size : Type 0 where
  output_buffer input_buffer pool_output pool_output_room pool_input : Size

-- The calls with the handle first; the `malloc` calls of the structures have none.
pub data Call : Type 0 where
  free_queue : ℕ → ℤ → Call
  set_queue_usage : ℕ → ℤ → ℤ → Call
  get_queue_usage : ℕ → ℤ → Call
  control_queue : ℕ → ℤ → EventType → ℤ → Call
  queue_tempo_malloc : Call
  set_queue_tempo get_queue_tempo : ℕ → ℤ → QueueTempo → Call
  delete_simple_port : ℕ → ℤ → Call
  connect_to disconnect_to connect_from disconnect_from : ℕ → ℤ → ℤ → ℤ → Call
  malloc : Structure → Call
  get_queue_timer : ℕ → ℤ → Call
  set_queue_timer : ℕ → ℤ → AlsaQueueTimer → Call
  get_queue_info get_queue_status : ℕ → ℤ → Call
  set_queue_info : ℕ → ℤ → AlsaQueueInfo → Call
  create_queue : ℕ → AlsaQueueInfo → Call
  alloc_named_queue query_named_queue : ℕ → String → Call
  alloc_queue : ℕ → Call
  -- the sequencer's name, the streams and the mode
  open_client : String → ℤ → ℤ → Call
  set_client_name : ℕ → String → Call
  client_id poll_descriptors_count poll_descriptors : ℕ → Call
  sequencer_name sequencer_type : ℕ → Call
  close_client : ℕ → Call
  buffer : Buffer → ℕ → Call
  get_size : Size → ℕ → Call
  set_size : Size → ℕ → ℤ → Call
  create_simple_port : ℕ → String → ℤ → ℤ → Call
  create_port : ℕ → AlsaPortInfo → Call
  get_port_info : ℕ → ℤ → Call
  get_any_port_info : ℕ → ℤ → ℤ → Call
  set_port_info : ℕ → ℤ → AlsaPortInfo → Call
  query_next_port : ℕ → AlsaPortInfo → Call
  system_info get_client_info get_client_pool : ℕ → Call
  get_any_client_info set_client_event_filter : ℕ → ℤ → Call
  set_client_info query_next_client : ℕ → AlsaClientInfo → Call
  set_client_pool : ℕ → AlsaClientPool → Call
  subscribe_port unsubscribe_port : ℕ → AlsaSubscription → Call
  query_port_subscribers : ℕ → AlsaQuery → Call
  remove_events : ℕ → AlsaRemoveEvents → Call

pub record Library : Type 0 where
  -- the code that a call returns, after the calls of the log
  pub answer : List Call → Call → ℤ
  -- what a fresh `snd_seq_queue_tempo_t` holds
  pub fresh_tempo : QueueTempo
  -- what `snd_seq_get_queue_tempo` leaves in the structure
  pub read_tempo : List Call → QueueTempo

abbrev pub State : Type 0 → Type 0
State Q = Q × List Call

abbrev pub Py : Type 0 → Type 0 → Type 0
Py Q A = Act (State Q) A

module _ {Q : Type 0} where
  abbrev pub self : Py Q Q
  self s = (ok s.0, s)

  abbrev pub set_self : Q → Py Q Unit
  set_self q s = (ok tt, (q, s.1))

  -- A call, and `_check_alsa_error` of its code.
  abbrev pub call : Library → Call → Py Q ℤ
  call l c s = (ok (l.answer s.1 c), (s.0, c ∷ s.1))

  abbrev pub checked_call : Library → Call → Py Q ℤ
  checked_call l c = do code ← call l c; lift (check_alsa_error code); return code

-- `_get_client_handle`, by the attribute `client`.
unfoldable pub get_client_handle : Option Client → Result ℕ
get_client_handle none = err already_closed
get_client_handle (some c) = elim c.handle [
  | none ↦ err sequencer_already_closed
  | some handle ↦ ok handle
]

unfoldable pub id_argument : Option ℤ → Result ℤ
unfolding argument
id_argument none = err type_error
id_argument (some v) = argument i32 v

-- An argument of type `size_t`
unfoldable pub size_argument : ℤ → Result ℤ
size_argument v =
    if in_range (pos 0) (pos 0xffff_ffff_ffff_ffff) v then ok v else err overflow_error
