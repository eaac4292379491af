-- ===== src/Client/Admin/Subscriptions/Listing.antt =====
-- What `list_port_subscribers` of alsa_midi/client.py returns, if ALSA answers the queries from lists.
use python_alsa_midi.Prelude.{
  ℕ, zero, suc, ◌<◌, ◌≡◌, ◌∙◌, refl, sym, ap, true, false, none, some, List, [], ◌∷◌, ◌++◌, map,
  length, String, ℤ, pos, ltb_ℤ, arith,
}
use mathlib.Core.List.{append-nil, append_assoc}
use python_alsa_midi.Exceptions.{ok, check_alsa_error}
use python_alsa_midi.Struct.{i32, fits}
use python_alsa_midi.Structures.{Structure, AlsaQuery}
use python_alsa_midi.Address.{Address, Arg, Parsed, new}
use python_alsa_midi.Handle.{Call, Library, State, argument}
use python_alsa_midi.Client.Admin.{Session, Memory, check_handle, handle}
use python_alsa_midi.Client.Admin.Query.{
  QueryType, value, query_type, truth, SubscriptionQuery, from_alsa, set_root, set_index,
}
use python_alsa_midi.Client.Admin.Subscriptions.{
  query_at, query_loop, after_query, type_loop, types_of, list_port_subscribers, Outcome,
  before_list, from_address, listed,
}

-- A subscription that ALSA describes.
abbrev pub described : QueryType → AlsaQuery → SubscriptionQuery
described t a = record {
  root = a.root;
  type = t;
  index = a.index;
  num_subs = a.num_subs;
  addr = a.addr;
  queue_id = a.queue;
  exclusive = a.exclusive;
  time_update = truth a.time_update;
  time_real = truth a.time_real;
}

from_alsa-described :
    (t : QueryType) (a : AlsaQuery) → a.type ≡ value t → from_alsa a ≡ ok (described t a)
unfolding from_alsa value query_type
from_alsa-described QueryType.read a h = rw h refl
from_alsa-described QueryType.write a h = rw h refl

-- The query of an index: the port and the type, whatever else the structure holds.
abbrev pub Asks : Address → QueryType → ℕ → AlsaQuery → Type 0
Asks root t i q = (q.root ≡ root) × (q.type ≡ value t) × (q.index ≡ pos i)

module _ (parse : String → Parsed) (l : Library) (m : Memory) (h : ℕ) (root : Address) where
  -- ALSA answers the queries of a type from a list, the entries from an index on: it finds each, and
  -- fails after the last.
  abbrev pub Serves : QueryType → ℕ → List AlsaQuery → Type 0
  Serves t i [] =
      (fits i32 (pos i) ≡ true)
      × ((calls : List Call) (q : AlsaQuery)
          → Asks root t i q
          → ltb_ℤ (l.answer calls (Call.query_port_subscribers h q)) (pos 0) ≡ true)
  Serves t i (e ∷ es) =
      (fits i32 (pos i) ≡ true)
      × (e.root ≡ root)
      × (e.type ≡ value t)
      × ((calls : List Call) (q : AlsaQuery)
          → Asks root t i q
          → (ltb_ℤ (l.answer calls (Call.query_port_subscribers h q)) (pos 0) ≡ false)
            × (m.query (Call.query_port_subscribers h q ∷ calls) ≡ e))
      × Serves t (suc i) es

  query_at-ok :
      (q : AlsaQuery) (i : ℕ) (s : State Session)
      → s.0.handle ≡ some h
      → fits i32 (pos i) ≡ true
      → query_at parse l m q i s ≡ (
        ok (
          l.answer s.1 (Call.query_port_subscribers h (record q { index = pos i })),
          m.query (Call.query_port_subscribers h (record q { index = pos i }) ∷ s.1),
        ),
        (s.0, Call.query_port_subscribers h (record q { index = pos i }) ∷ s.1),
      )
  unfolding query_at set_index argument handle
  query_at-ok q i s e f = rw (f, e) refl

  -- The rounds of the loop, by what ALSA answers.
  module _ (t : QueryType) (code : ℤ) (q : AlsaQuery) (result : List SubscriptionQuery)
      (s : State Session)
      (again : AlsaQuery → List SubscriptionQuery → State Session → Outcome parse l m) where
    after_query-end :
        ltb_ℤ code (pos 0) ≡ true
        → after_query parse l m (ok (code, q), s) result again ≡ some (ok (result, q), s)
    after_query-end f = rw f refl

    after_query-found :
        ltb_ℤ code (pos 0) ≡ false
        → q.type ≡ value t
        → after_query parse l m (ok (code, q), s) result again
          ≡ again q (result ++ (described t q ∷ [])) s
    after_query-found f k = rw (f, from_alsa-described t q k) refl

  query_loop-Serves :
      (t : QueryType) (es : List AlsaQuery) (fuel i : ℕ) (q : AlsaQuery)
      (result : List SubscriptionQuery) (s : State Session)
      → s.0.handle ≡ some h
      → q.root ≡ root
      → q.type ≡ value t
      → Serves t i es
      → length es < fuel
      → (q' : AlsaQuery) × (calls : List Call) × (query_loop parse l m fuel i q result s
          ≡ some (ok (result ++ map (described t) es, q'), (s.0, calls)))
  unfolding query_loop
  query_loop-Serves t es zero i q result s e r k serves lt = absurd (omega arith)
  query_loop-Serves t [] (suc fuel) i q result s e r k (f, ends) lt =
      let a = record q { index = pos i } in
      let c = Call.query_port_subscribers h a in
      (
        m.query (c ∷ s.1),
        c ∷ s.1,
        rw (query_at-ok q i s e f) (
            after_query-end t (l.answer s.1 c) (m.query (c ∷ s.1)) result (s.0, c ∷ s.1)
              (λ q' result' s'. query_loop parse l m fuel (suc i) q' result' s')
              (ends s.1 a (r, k, refl))
            ∙ ap (λ xs. some (ok (xs, m.query (c ∷ s.1)), (s.0, c ∷ s.1)))
                (sym (append-nil result))),
      )
  query_loop-Serves t (x ∷ es) (suc fuel) i q result s e r k (f, xr, xt, finds, rest) lt =
      let a = record q { index = pos i } in
      let c = Call.query_port_subscribers h a in
      let left = m.query (c ∷ s.1) in
      let (ready, same) = finds s.1 a (r, k, refl) in
      let kept : left.type ≡ value t = ap (λ (q : AlsaQuery). q.type) same ∙ xt in
      let (q', calls, ih) =
        query_loop-Serves t es fuel (suc i) left (result ++ (described t left ∷ [])) (s.0, c ∷ s.1)
          e (ap (λ (q : AlsaQuery). q.root) same ∙ xr) kept rest (omega arith) in
      (
        q',
        calls,
        rw (query_at-ok q i s e f) (
            after_query-found t (l.answer s.1 c) left result (s.0, c ∷ s.1)
              (λ q' result' s'. query_loop parse l m fuel (suc i) q' result' s') ready kept
            ∙ ih
            ∙ ap (λ xs. some (ok (xs, q'), (s.0, calls)))
                (append_assoc result (described t left ∷ []) (map (described t) es)
                  ∙ ap (λ z. result ++ (described t z ∷ map (described t) es)) same)),
      )

  set_root-ok :
      (t : QueryType) (q : AlsaQuery)
      → fits i32 root.client_id ≡ true
      → fits i32 root.port_id ≡ true
      → set_root root t q ≡ ok (record q { root = root; type = value t })
  unfolding set_root argument
  set_root-ok t q f g = rw (f, g) refl

  type_loop-step :
      (t : QueryType) (ts : List QueryType) (es : List AlsaQuery) (fuel : ℕ) (q : AlsaQuery)
      (result : List SubscriptionQuery) (s : State Session)
      → fits i32 root.client_id ≡ true
      → fits i32 root.port_id ≡ true
      → s.0.handle ≡ some h
      → Serves t 0 es
      → length es < fuel
      → (q' : AlsaQuery) × (calls : List Call) × (type_loop parse l m fuel root (t ∷ ts) q result s
          ≡ type_loop parse l m fuel root ts q' (result ++ map (described t) es) (s.0, calls))
  unfolding type_loop
  type_loop-step t ts es fuel q result s f g e serves lt =
      let asked = record q { root = root; type = value t } in
      let (q', calls, ih) = query_loop-Serves t es fuel 0 asked result s e refl refl serves lt in
      (q', calls, rw (set_root-ok t q f g) (rw ih refl))

  before_list-ok :
      (port : Arg) (s : State Session)
      → s.0.handle ≡ some h
      → ltb_ℤ (l.answer s.1 (Call.malloc Structure.query_subscribe)) (pos 0) ≡ false
      → new parse port (pos 0) ≡ ok root
      → before_list parse l m port s ≡ (ok root, (s.0, Call.malloc Structure.query_subscribe ∷ s.1))
  unfolding check_handle check_alsa_error
  before_list-ok port s e a p = ground (arith, e, a, p)

  -- `list_port_subscribers` returns all subscriptions of a port, the readers' before the writers', each
  -- in ALSA's order and as ALSA describes it, if there are fewer of either type than the fuel.
  pub list_port_subscribers-lists :
      (port : Arg) (readers writers : List AlsaQuery) (fuel : ℕ) (s : State Session)
      → s.0.handle ≡ some h
      → ltb_ℤ (l.answer s.1 (Call.malloc Structure.query_subscribe)) (pos 0) ≡ false
      → new parse port (pos 0) ≡ ok root
      → fits i32 root.client_id ≡ true
      → fits i32 root.port_id ≡ true
      → Serves QueryType.read 0 readers
      → Serves QueryType.write 0 writers
      → length readers < fuel
      → length writers < fuel
      → (calls : List Call) × (list_port_subscribers parse l m fuel port none s
          ≡ some (
            ok (map (described QueryType.read) readers ++ map (described QueryType.write) writers),
            (s.0, calls),
          ))
  unfolding list_port_subscribers types_of type_loop
  list_port_subscribers-lists port readers writers fuel s e a p f g sr sw lr lw =
      let start = Call.malloc Structure.query_subscribe ∷ s.1 in
      let (q₁, c₁, h₁) =
        type_loop-step QueryType.read (QueryType.write ∷ []) readers fuel m.fresh_query []
          (s.0, start) f g e sr lr in
      let (q₂, c₂, h₂) =
        type_loop-step QueryType.write [] writers fuel q₁ (map (described QueryType.read) readers)
          (s.0, c₁) f g e sw lw in
      (
        c₂,
        ap
              (λ x. listed parse l m (
                from_address parse l m x (λ a s'.
                  type_loop parse l m fuel a (QueryType.read ∷ QueryType.write ∷ []) m.fresh_query
                    [] s')))
              (before_list-ok port s e a p)
            ∙ ap (listed parse l m) (h₁ ∙ h₂),
      )
