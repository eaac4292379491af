-- ===== src/Client/Admin/Subscriptions.antt =====
-- The subscriptions in alsa_midi/client.py: `subscribe_port`, `unsubscribe_port`,
-- `query_port_subscribers` and `list_port_subscribers`.
pub mod Listing
use python_alsa_midi.Prelude.{
  ℕ, zero, suc, ◌≡◌, Bool, true, false, Option, none, some, List, [], ◌∷◌, ◌++◌, String, ℤ, pos,
  ltb_ℤ, if◌then◌else◌,
}
use python_alsa_midi.Exceptions.{Result, ok, err, check_alsa_error}
use python_alsa_midi.Stateful.{lift, return, ◌>>=◌, ◌>>◌}
use python_alsa_midi.Struct.{i32, u8}
use python_alsa_midi.Structures.{Structure, AlsaSubscription, AlsaQuery}
use python_alsa_midi.Address.{Address, Arg, Parsed, new}
use python_alsa_midi.Port.Info.{of_bool}
use python_alsa_midi.Handle.{Call, Library, State, Py, call, argument, id_argument}
use python_alsa_midi.Client.Admin.{Session, Memory, check_handle, handle, log, malloc, run}
use python_alsa_midi.Client.Admin.PortArgs.{QueueRef, by_id, by_object}
use python_alsa_midi.Client.Admin.Query.{
  QueryType, SubscriptionQuery, from_alsa, to_alsa, set_root, set_index,
}

-- The keyword arguments of `subscribe_port`
pub record SubscribeArgs : Type 0 where
  pub queue : Option QueueRef
  pub exclusive : Bool
  pub time_update : Bool
  pub time_real : Bool

abbrev pub no_args : SubscribeArgs
no_args = record { queue = none; exclusive = false; time_update = false; time_real = false }

-- `queue_id`; a closed queue object has none, as if no queue were given.
unfoldable pub queue_id_of : Option QueueRef → Option ℤ
queue_id_of none = none
queue_id_of (some (by_id k)) = some k
queue_id_of (some (by_object k)) = k

module _ (parse : String → Parsed) (l : Library) (m : Memory) where
  -- A `snd_seq_addr_t` has two bytes.
  unfoldable pub c_address : Address → Py Session Address
  unfolding argument
  c_address a = do
    client ← lift (argument u8 a.client_id)
    port ← lift (argument u8 a.port_id)
    return (record { client_id = client; port_id = port })

  abbrev queue_or : Option ℤ → ℤ → Py Session ℤ
  queue_or none old = return old
  queue_or (some k) old = lift (argument i32 k)

  abbrev new_subscription : Address → Address → SubscribeArgs → Py Session AlsaSubscription
  new_subscription sender dest a = do
    malloc l Structure.port_subscribe
    s ← c_address sender
    d ← c_address dest
    queue ← queue_or (queue_id_of a.queue) m.fresh_subscription.queue
    return (record {
      sender = s;
      dest = d;
      queue = queue;
      exclusive = of_bool a.exclusive;
      time_update = of_bool a.time_update;
      time_real = of_bool a.time_real;
    })

  -- `_subunsub_port`; `func` makes the call.
  unfoldable pub subunsub_port :
      (ℕ → AlsaSubscription → Call) → Arg → Arg → SubscribeArgs → Py Session Unit
  unfolding handle c_address queue_id_of of_bool argument check_alsa_error
  subunsub_port func sender dest a = do
    s ← lift (new parse sender (pos 0))
    d ← lift (new parse dest (pos 0))
    sub ← new_subscription s d a
    h ← handle
    run l (func h sub)

  unfoldable pub subscribe_port : Arg → Arg → SubscribeArgs → Py Session Unit
  unfolding check_handle subunsub_port
  subscribe_port sender dest a = check_handle >> subunsub_port Call.subscribe_port sender dest a

  unfoldable pub unsubscribe_port : Arg → Arg → Py Session Unit
  unfolding check_handle subunsub_port
  unsubscribe_port sender dest =
      check_handle >> subunsub_port Call.unsubscribe_port sender dest no_args

  unfoldable pub query_port_subscribers : SubscriptionQuery → Py Session SubscriptionQuery
  unfolding check_handle handle to_alsa from_alsa check_alsa_error
  query_port_subscribers query = do
    check_handle
    malloc l Structure.query_subscribe
    a_query ← lift (to_alsa query m.fresh_query)
    h ← handle
    run l (Call.query_port_subscribers h a_query)
    calls ← log
    lift (from_alsa (m.query calls))

  -- A round of the query loop: the structure that ALSA leaves, and the code.
  unfoldable pub query_at : AlsaQuery → ℕ → Py Session (ℤ × AlsaQuery)
  unfolding set_index handle
  query_at q i = do
    a ← lift (set_index (pos i) q)
    h ← handle
    code ← call l (Call.query_port_subscribers h a)
    calls ← log
    return (code, m.query calls)

  abbrev pub Outcome : Type 0
  Outcome = Option (Result (List SubscriptionQuery × AlsaQuery) × State Session)

  abbrev pub after_found :
      Result SubscriptionQuery
      → AlsaQuery
      → List SubscriptionQuery
      → State Session
      → (List SubscriptionQuery → Outcome)
      → Outcome
  after_found (err e) q result s again = some (err e, s)
  after_found (ok found) q result s again = again (result ++ (found ∷ []))

  abbrev pub after_query :
      Result (ℤ × AlsaQuery) × State Session
      → List SubscriptionQuery
      → (AlsaQuery → List SubscriptionQuery → State Session → Outcome)
      → Outcome
  after_query (err e, s) result again = some (err e, s)
  after_query (ok r, s) result again =
      if ltb_ℤ r.0 (pos 0)
      then some (ok (result, r.1), s)
      else after_found (from_alsa r.1) r.1 result s (λ result'. again r.1 result' s)

  -- `while True` over the index, on fuel
  unfoldable pub query_loop : ℕ → ℕ → AlsaQuery → List SubscriptionQuery → State Session → Outcome
  unfolding query_at from_alsa
  query_loop zero i q result s = none
  query_loop (suc fuel) i q result s =
      after_query (query_at q i s) result (λ q' result' s'. query_loop fuel (suc i) q' result' s')

  abbrev pub after_type :
      Outcome → (AlsaQuery → List SubscriptionQuery → State Session → Outcome) → Outcome
  after_type none next = none
  after_type (some (err e, s)) next = some (err e, s)
  after_type (some (ok r, s)) next = next r.1 r.0 s

  abbrev pub start_type : Result AlsaQuery → State Session → (AlsaQuery → Outcome) → Outcome
  start_type (err e) s loop = some (err e, s)
  start_type (ok q) s loop = loop q

  -- `for type in types`: the structure is used again.
  unfoldable pub type_loop :
      ℕ → Address → List QueryType → AlsaQuery → List SubscriptionQuery → State Session → Outcome
  unfolding set_root query_loop
  type_loop fuel root [] q result s = some (ok (result, q), s)
  type_loop fuel root (t ∷ ts) q result s = start_type (set_root root t q) s (λ q'.
      after_type (query_loop fuel 0 q' result s)
        (λ q'' result' s'. type_loop fuel root ts q'' result' s'))

  unfoldable pub types_of : Option QueryType → List QueryType
  types_of none = QueryType.read ∷ QueryType.write ∷ []
  types_of (some t) = t ∷ []

  abbrev pub listed : Outcome → Option (Result (List SubscriptionQuery) × State Session)
  listed none = none
  listed (some (err e, s)) = some (err e, s)
  listed (some (ok r, s)) = some (ok r.0, s)

  -- What stands before the loops: the address is converted after the structure is allocated.
  abbrev pub before_list : Arg → Py Session Address
  before_list port = do
    check_handle
    malloc l Structure.query_subscribe
    lift (new parse port (pos 0))

  abbrev pub from_address :
      Result Address × State Session → (Address → State Session → Outcome) → Outcome
  from_address (err e, s) next = some (err e, s)
  from_address (ok a, s) next = next a s

  unfoldable pub list_port_subscribers :
      ℕ
      → Arg
      → Option QueryType
      → State Session
      → Option (Result (List SubscriptionQuery) × State Session)
  unfolding check_handle types_of type_loop check_alsa_error
  list_port_subscribers fuel port type s = listed (
      from_address (before_list port s)
        (λ a s'. type_loop fuel a (types_of type) m.fresh_query [] s'))
