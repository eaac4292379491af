-- ===== src/Client/Admin/Query.antt =====
-- `SubscriptionQuery` of alsa_midi/client.py and its conversions.
use python_alsa_midi.Prelude.{
  ◌≡◌, refl, sym, ap, ◌∙◌, Bool, not, ℤ, pos, eqb_ℤ, arith, if◌then◌else◌,
}
use python_alsa_midi.Exceptions.{Result, ok, err, value_error, ◌>>=◌, >>=-eq-ok}
use python_alsa_midi.Struct.{i32}
use python_alsa_midi.Structures.{AlsaQuery}
use python_alsa_midi.Address.{Address}
use python_alsa_midi.Handle.{argument}

-- `SubscriptionQueryType`
pub data QueryType : Type 0 where
  read write : QueryType

unfoldable pub value : QueryType → ℤ
value read = pos 0
value write = pos 1

-- `SubscriptionQueryType(n)`
unfoldable pub query_type : ℤ → Result QueryType
query_type n =
    if eqb_ℤ n (pos 0) then ok read else (if eqb_ℤ n (pos 1) then ok write else err value_error)

-- `exclusive` stays the number that it is given: `__post_init__` converts the other two flags only.
pub record SubscriptionQuery : Type 0 where
  pub root : Address
  pub type : QueryType
  pub index : ℤ
  pub num_subs : ℤ
  pub addr : Address
  pub queue_id : ℤ
  pub exclusive : ℤ
  pub time_update : Bool
  pub time_real : Bool

-- The conversions of `__post_init__`
abbrev pub truth : ℤ → Bool
truth n = not (eqb_ℤ n (pos 0))

-- `SubscriptionQuery._from_alsa`
unfoldable pub from_alsa : AlsaQuery → Result SubscriptionQuery
unfolding query_type
from_alsa a = do
  type ← query_type a.type
  ok (record {
    root = a.root;
    type = type;
    index = a.index;
    num_subs = a.num_subs;
    addr = a.addr;
    queue_id = a.queue;
    exclusive = a.exclusive;
    time_update = truth a.time_update;
    time_real = truth a.time_real;
  })

-- The address and the type of a query.
unfoldable pub set_root : Address → QueryType → AlsaQuery → Result AlsaQuery
unfolding value argument
set_root root type a = do
  client ← argument i32 root.client_id
  port ← argument i32 root.port_id
  ok (record a { root = record { client_id = client; port_id = port }; type = value type })

unfoldable pub set_index : ℤ → AlsaQuery → Result AlsaQuery
unfolding argument
set_index i a = argument i32 i >>= λ v. ok (record a { index = v })

-- `SubscriptionQuery._to_alsa`, on a fresh structure
unfoldable pub to_alsa : SubscriptionQuery → AlsaQuery → Result AlsaQuery
unfolding set_root set_index
to_alsa q fresh = set_root q.root q.type fresh >>= set_index q.index

argument-ok : (v w : ℤ) → argument i32 v ≡ ok w → w ≡ v
unfolding argument
argument-ok v w h = ground (arith, h)

query_type-value : (t : QueryType) → query_type (value t) ≡ ok t
unfolding query_type value
query_type-value read = refl
query_type-value write = refl

ok-inj : {A : Type 0} {a b : A} → ok a ≡ ok b → a ≡ b
ok-inj h = cc

set_root-ok :
    (root : Address) (t : QueryType) (q a : AlsaQuery)
    → set_root root t q ≡ ok a
    → a ≡ record q { root = root; type = value t }
unfolding set_root
set_root-ok root t q a h =
    let (client, e, h₁) = >>=-eq-ok (argument i32 root.client_id) _ h in
    let (port, e', h₂) = >>=-eq-ok (argument i32 root.port_id) _ h₁ in
    sym (ok-inj h₂)
    ∙ ap (λ c. record q { root = record { client_id = c; port_id = port }; type = value t })
        (argument-ok root.client_id client e)
    ∙ ap
        (λ p. record q {
          root = record { client_id = root.client_id; port_id = p };
          type = value t;
        })
        (argument-ok root.port_id port e')

pub set_index-ok : (i : ℤ) (q a : AlsaQuery) → set_index i q ≡ ok a → a ≡ record q { index = i }
unfolding set_index
set_index-ok i q a h =
    let (v, e, h₁) = >>=-eq-ok (argument i32 i) _ h in
    sym (ok-inj h₁) ∙ ap (λ v. record q { index = v }) (argument-ok i v e)

-- A query that is written to ALSA and read back without an answer: its port, its type and its index are
-- kept, and all else is the structure's.
pub from_alsa-to_alsa :
    (q : SubscriptionQuery) (fresh a : AlsaQuery)
    → to_alsa q fresh ≡ ok a
    → from_alsa a
      ≡ ok (record q {
        num_subs = fresh.num_subs;
        addr = fresh.addr;
        queue_id = fresh.queue;
        exclusive = fresh.exclusive;
        time_update = truth fresh.time_update;
        time_real = truth fresh.time_real;
      })
unfolding to_alsa from_alsa
from_alsa-to_alsa q fresh a h =
    let (b, e, h₁) = >>=-eq-ok (set_root q.root q.type fresh) _ h in
    let same : a ≡ record fresh { root = q.root; type = value q.type; index = q.index } =
      set_index-ok q.index b a h₁
      ∙ ap (λ (b : AlsaQuery). record b { index = q.index })
          (set_root-ok q.root q.type fresh b e) in
    ap from_alsa same ∙ rw (query_type-value q.type) refl
