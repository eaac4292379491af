-- ===== src/Client/Info.antt =====
-- `ClientInfo`, `SystemInfo` and `ClientPool` of alsa_midi/client.py, and their conversions. What ALSA
-- keeps of an event filter when a type is added to it is a parameter.
pub mod RoundTrip
use python_alsa_midi.Prelude.{
  ℕ, ◌≡◌, ◌≢◌, ◌∙◌, refl, ap, Bool, true, false, not, ◌&&◌, ◌||◌, ◌==◌, Bool-cases, inl, inr,
  Option, none, some, List, [], ◌∷◌, String, ℤ, pos, ltb_ℤ, eqb_ℤ, arith, if◌then◌else◌,
}
use python_alsa_midi.Exceptions.{Result, ok, err, value_error, ◌>>=◌}
use python_alsa_midi.Struct.{i32}
use python_alsa_midi.Structures.{AlsaFilter, AlsaClientInfo, AlsaSystemInfo, AlsaClientPool}
use python_alsa_midi.EventType.{EventType, value, members}
use python_alsa_midi.Port.Info.{of_bool}
use python_alsa_midi.Handle.{argument, size_argument}

-- The attributes; `event_filter` is a set of event types, or `None`.
pub record ClientInfo : Type 0 where
  pub client_id : ℤ
  pub name : String
  pub broadcast_filter : Bool
  pub error_bounce : Bool
  pub type : Option ℤ
  pub card_id : Option ℤ
  pub pid : Option ℤ
  pub num_ports : ℤ
  pub event_lost : ℤ
  pub event_filter : Option (List EventType)

-- `ClientType(n)`
unfoldable pub client_type : ℤ → Result ℤ
client_type n =
    if eqb_ℤ n (pos 0) || eqb_ℤ n (pos 1) || eqb_ℤ n (pos 2) then ok n else err value_error

-- A negative number is `None`.
unfoldable pub not_negative : ℤ → Option ℤ
not_negative n = if ltb_ℤ n (pos 0) then none else some n

-- The types that the loop over the members of `EventType` adds, `NONE` left out.
unfoldable pub passing : (ℤ → Bool) → List EventType → List EventType
unfolding value
passing passes [] = []
passing passes (t ∷ ts) =
    if not (value t == value EventType.no_event) && passes (pos (value t))
    then t ∷ passing passes ts
    else passing passes ts

unfoldable pub filter_from_alsa : AlsaFilter → Option (List EventType)
unfolding passing members
filter_from_alsa f = if f.is_set then some (passing f.passes members) else none

-- `ClientInfo._from_alsa`
unfoldable pub from_alsa : AlsaClientInfo → Result ClientInfo
unfolding client_type not_negative filter_from_alsa
from_alsa a = do
  type ← client_type a.type
  ok (record {
    client_id = a.client;
    name = a.name;
    broadcast_filter = eqb_ℤ a.broadcast_filter (pos 1);
    error_bounce = eqb_ℤ a.broadcast_filter (pos 1);
    type = some type;
    card_id = not_negative a.card;
    pid = not_negative a.pid;
    num_ports = a.num_ports;
    event_lost = a.event_lost;
    event_filter = filter_from_alsa a.filter;
  })

-- `snd_seq_client_info_event_filter_add` and `snd_seq_client_info_event_filter_clear`
module _ (add : ℤ → AlsaFilter → AlsaFilter) (clear : AlsaFilter → AlsaFilter) where
  unfoldable pub add_all : List EventType → AlsaFilter → Result AlsaFilter
  unfolding argument
  add_all [] f = ok f
  add_all (t ∷ ts) f = argument i32 (pos (value t)) >>= λ v. add_all ts (add v f)

  -- An empty set is treated as `None`.
  unfoldable pub filter_to_alsa : Option (List EventType) → AlsaFilter → Result AlsaFilter
  unfolding add_all
  filter_to_alsa none f = ok (clear f)
  filter_to_alsa (some []) f = ok (clear f)
  filter_to_alsa (some (t ∷ ts)) f = add_all (t ∷ ts) f

  -- `ClientInfo._to_alsa`, on a fresh structure
  unfoldable pub to_alsa : ClientInfo → AlsaClientInfo → Result AlsaClientInfo
  unfolding argument of_bool filter_to_alsa
  to_alsa i fresh = do
    client ← argument i32 i.client_id
    filter ← filter_to_alsa i.event_filter fresh.filter
    ok (record fresh {
      client = client;
      name = i.name;
      broadcast_filter = of_bool i.broadcast_filter;
      error_bounce = of_bool i.error_bounce;
      filter = filter;
    })

-- `SystemInfo`
pub record SystemInfo : Type 0 where
  pub queues : ℤ
  pub clients : ℤ
  pub ports : ℤ
  pub channels : ℤ
  pub cur_clients : ℤ
  pub cur_queues : ℤ

unfoldable pub system_from_alsa : AlsaSystemInfo → SystemInfo
system_from_alsa a = record {
  queues = a.queues;
  clients = a.clients;
  ports = a.ports;
  channels = a.channels;
  cur_clients = a.cur_clients;
  cur_queues = a.cur_queues;
}

-- `ClientPool`
pub record ClientPool : Type 0 where
  pub client_id : ℤ
  pub output_pool : ℤ
  pub input_pool : ℤ
  pub output_room : ℤ
  pub output_free : ℤ
  pub input_free : ℤ

unfoldable pub pool_from_alsa : AlsaClientPool → ClientPool
pool_from_alsa a = record {
  client_id = a.client;
  output_pool = a.output_pool;
  input_pool = a.input_pool;
  output_room = a.output_room;
  output_free = a.output_free;
  input_free = a.input_free;
}

-- The three sizes that have a setter.
unfoldable pub pool_to_alsa : ClientPool → AlsaClientPool → Result AlsaClientPool
unfolding size_argument
pool_to_alsa i fresh = do
  output_pool ← size_argument i.output_pool
  input_pool ← size_argument i.input_pool
  output_room ← size_argument i.output_room
  ok (record fresh {
    output_pool = output_pool;
    input_pool = input_pool;
    output_room = output_room;
  })
