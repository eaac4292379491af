-- ===== src/Tests/AdminSetup.antt =====
-- A library, a session and structures for the tests of the management of a client (alsa_midi/client.py).
use python_alsa_midi.Prelude.{
  true, false, ◌&&◌, ◌||◌, none, some, [], ℤ, pos, negsuc, eqb_ℤ, if◌then◌else◌,
}
use python_alsa_midi.Structures.{
  Timestamp, AlsaFilter, AlsaClientInfo, AlsaClientPool, AlsaQueueInfo, AlsaQuery,
}
use python_alsa_midi.Handle.{Call, Library, State}
use python_alsa_midi.Client.Admin.{Session, Memory}
use python_alsa_midi.Tests.Setup.{synth}
use python_alsa_midi.Tests.Clients.{synth_port, low_byte}

abbrev pub no_filter : AlsaFilter
no_filter = record { is_set = false; passes = λ n. false }

abbrev pub add : ℤ → AlsaFilter → AlsaFilter
add e f = record { is_set = true; passes = λ n. eqb_ℤ e n || f.passes n }

abbrev pub clear : AlsaFilter → AlsaFilter
clear f = no_filter

abbrev pub client_info : AlsaClientInfo
client_info = record {
  client = pos 0;
  type = pos 1;
  name = "";
  broadcast_filter = pos 0;
  error_bounce = pos 0;
  card = negsuc 0;
  pid = pos 77;
  filter = no_filter;
  num_ports = pos 0;
  event_lost = pos 0;
}

abbrev pub client_pool : AlsaClientPool
client_pool = record {
  client = pos 0;
  output_pool = pos 500;
  input_pool = pos 200;
  output_room = pos 1;
  output_free = pos 500;
  input_free = pos 200;
}

abbrev pub queue_info : AlsaQueueInfo
queue_info = record { queue = pos 0; name = ""; owner = pos 0; locked = pos 0; flags = pos 0 }

abbrev pub query : AlsaQuery
query = record {
  root = synth;
  type = pos 0;
  index = pos 0;
  num_subs = pos 1;
  addr = record { client_id = pos 128; port_id = pos 0 };
  queue = pos 0;
  exclusive = pos 0;
  time_update = pos 0;
  time_real = pos 0;
}

-- The reader that the library knows.
abbrev pub reader : AlsaQuery
reader = record query { time_real = pos 1 }

abbrev pub memory : Memory
memory = record {
  fresh_client_info = client_info;
  fresh_client_pool = client_pool;
  fresh_port_info = synth_port;
  kept_id = low_byte;
  fresh_queue_info = queue_info;
  fresh_subscription = record {
    sender = synth;
    dest = synth;
    queue = pos 0;
    exclusive = pos 0;
    time_update = pos 0;
    time_real = pos 0;
  };
  fresh_query = query;
  fresh_remove_events = record {
    condition = 0;
    queue = pos 0;
    time = Timestamp.tick (pos 0);
    dest = synth;
    channel = pos 0;
    event_type = pos 0;
    tag = pos 0;
  };
  client_info = λ calls. client_info;
  client_pool = λ calls. client_pool;
  system_info = λ calls. record {
    queues = pos 32;
    clients = pos 192;
    ports = pos 254;
    channels = pos 256;
    cur_clients = pos 3;
    cur_queues = pos 0;
  };
  port_info = λ calls. synth_port;
  queue_info = λ calls. queue_info;
  queue_status = λ calls. record {
    queue = pos 0;
    events = pos 0;
    tick_time = pos 0;
    tv_sec = 0;
    tv_nsec = 0;
    status = 1;
  };
  query = λ calls. reader;
  filter_add = add;
  filter_clear = clear;
}

-- A library that knows one reader of any port, and makes the queue 5.
abbrev pub answer_to : Call → ℤ
answer_to (Call.query_port_subscribers h q) =
    if eqb_ℤ q.type (pos 0) && eqb_ℤ q.index (pos 0) then pos 0 else negsuc 1
answer_to (Call.alloc_queue h) = pos 5
answer_to _ = pos 0

abbrev pub alsa : Library
alsa = record {
  answer = λ calls c. answer_to c;
  fresh_tempo = record { tempo = pos 0; ppq = pos 0; skew = none; skew_base = none };
  read_tempo = λ calls. record { tempo = pos 0; ppq = pos 0; skew = none; skew_base = none };
}

abbrev pub session : Session
session = record { handle = some 1; client_id = pos 128; objects = []; queues = [] }

abbrev pub open_session : State Session
open_session = (session, [])
