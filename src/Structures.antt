-- ===== src/Structures.antt =====
-- The structures of the ALSA library that alsa_midi/client.py and alsa_midi/queue.py reach by getters and
-- setters only: each is the record of what they hold. Numbers that C returns as unsigned are ℕ.
use python_alsa_midi.Prelude.{ℕ, Bool, String, ℤ}
use python_alsa_midi.Address.{Address}

-- `snd_seq_queue_info_t`
pub record AlsaQueueInfo : Type 0 where
  pub queue : ℤ
  pub name : String
  pub owner : ℤ
  pub locked : ℤ
  pub flags : ℤ

-- `snd_seq_queue_status_t`
pub record AlsaQueueStatus : Type 0 where
  pub queue : ℤ
  pub events : ℤ
  pub tick_time : ℤ
  pub tv_sec : ℕ
  pub tv_nsec : ℕ
  pub status : ℕ

-- `snd_timer_id_t`
pub record AlsaTimerId : Type 0 where
  pub dev_class : ℤ
  pub dev_sclass : ℤ
  pub card : ℤ
  pub device : ℤ
  pub subdevice : ℤ

-- `snd_seq_queue_timer_t`
pub record AlsaQueueTimer : Type 0 where
  pub id : AlsaTimerId
  pub queue : ℤ
  pub type : ℤ
  pub resolution : ℤ

-- The event filter of a client: whether there is one, and the event types that pass it.
pub record AlsaFilter : Type 0 where
  pub is_set : Bool
  pub passes : ℤ → Bool

-- `snd_seq_client_info_t`
pub record AlsaClientInfo : Type 0 where
  pub client : ℤ
  pub type : ℤ
  pub name : String
  pub broadcast_filter : ℤ
  pub error_bounce : ℤ
  pub card : ℤ
  pub pid : ℤ
  pub filter : AlsaFilter
  pub num_ports : ℤ
  pub event_lost : ℤ

-- `snd_seq_system_info_t`
pub record AlsaSystemInfo : Type 0 where
  pub queues : ℤ
  pub clients : ℤ
  pub ports : ℤ
  pub channels : ℤ
  pub cur_clients : ℤ
  pub cur_queues : ℤ

-- `snd_seq_client_pool_t`
pub record AlsaClientPool : Type 0 where
  pub client : ℤ
  pub output_pool : ℤ
  pub input_pool : ℤ
  pub output_room : ℤ
  pub output_free : ℤ
  pub input_free : ℤ

-- `snd_seq_port_subscribe_t`
pub record AlsaSubscription : Type 0 where
  pub sender : Address
  pub dest : Address
  pub queue : ℤ
  pub exclusive : ℤ
  pub time_update : ℤ
  pub time_real : ℤ

-- `snd_seq_query_subscribe_t`
pub record AlsaQuery : Type 0 where
  pub root : Address
  pub type : ℤ
  pub index : ℤ
  pub num_subs : ℤ
  pub addr : Address
  pub queue : ℤ
  pub exclusive : ℤ
  pub time_update : ℤ
  pub time_real : ℤ

-- `snd_seq_timestamp_t`, a union: what was written last.
pub data Timestamp : Type 0 where
  real : ℤ → ℤ → Timestamp
  tick : ℤ → Timestamp

-- `snd_seq_remove_events_t`
pub record AlsaRemoveEvents : Type 0 where
  pub condition : ℕ
  pub queue : ℤ
  pub time : Timestamp
  pub dest : Address
  pub channel : ℤ
  pub event_type : ℤ
  pub tag : ℤ

-- The structures that `malloc` calls make.
pub data Structure : Type 0 where
  queue_info queue_status queue_timer timer_id client_info system_info client_pool port_info
        port_subscribe query_subscribe remove_events :
      Structure
