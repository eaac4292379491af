-- ===== src/Client/Info/RoundTrip.antt =====
-- What survives when a `ClientInfo` of alsa_midi/client.py is written to ALSA and read back.
use python_alsa_midi.Prelude.{
  ℕ, ◌≡◌, ◌∙◌, refl, ap, sym, Bool, true, false, not, ◌&&◌, ◌||◌, ◌==◌, Bool-cases, inl, inr, some,
  List, [], ◌∷◌, ℤ, pos, eqb_ℤ, arith,
}
use python_alsa_midi.Exceptions.{ok, >>=-eq-ok}
use python_alsa_midi.Struct.{i32}
use python_alsa_midi.Structures.{AlsaFilter, AlsaClientInfo}
use python_alsa_midi.EventType.{EventType, value, members, has_value}
use python_alsa_midi.Port.Info.{of_bool}
use python_alsa_midi.Handle.{argument}
use python_alsa_midi.Client.Info.{
  ClientInfo, passing, filter_from_alsa, from_alsa, client_type, add_all, filter_to_alsa, to_alsa,
}

has_value-passing :
    (p : ℤ → Bool) (ts : List EventType) (n : ℕ)
    → has_value (passing p ts) n
      ≡ (has_value ts n && (not (n == value EventType.no_event) && p (pos n)))
unfolding has_value passing
has_value-passing p [] n = refl
has_value-passing p (t ∷ ts) n = elim (Bool-cases (value t == n)) [
  | inl e ↦
      let q : value t ≡ n = ground (arith, e) in
      ground (arith, e, q, ap (λ k. p (pos k)) q, has_value-passing p ts n)
  | inr e ↦ ground (arith, e, has_value-passing p ts n)
]

ok-inj : {A : Type 0} {a b : A} → ok a ≡ ok b → a ≡ b
ok-inj h = cc

of_bool-eqb : (b : Bool) → eqb_ℤ (of_bool b) (pos 1) ≡ b
unfolding of_bool
of_bool-eqb b = ground arith

argument-ok : (v w : ℤ) → argument i32 v ≡ ok w → w ≡ v
unfolding argument
argument-ok v w h = ground (arith, h)

module _ (add : ℤ → AlsaFilter → AlsaFilter) (clear : AlsaFilter → AlsaFilter)
    (add_sets : (e : ℤ) (f : AlsaFilter) → (add e f).is_set ≡ true)
    (add_passes : (e : ℤ) (f : AlsaFilter) (n : ℤ)
      → (add e f).passes n ≡ (eqb_ℤ e n || f.passes n)) where
  add_all-passes :
      (ts : List EventType) (f g : AlsaFilter)
      → add_all add clear ts f ≡ ok g
      → (n : ℕ) → g.passes (pos n) ≡ (has_value ts n || f.passes (pos n))
  unfolding add_all has_value
  add_all-passes [] f g h n = cc
  add_all-passes (t ∷ ts) f g h n =
      let (v, e, rest) =
        >>=-eq-ok (argument i32 (pos (value t))) (λ v. add_all add clear ts (add v f)) h in
      let q : v ≡ pos (value t) = argument-ok (pos (value t)) v e in
      ground (arith, add_all-passes ts (add v f) g rest n, add_passes v f (pos n), q)

  add_all-is_set :
      (ts : List EventType) (f g : AlsaFilter)
      → add_all add clear ts f ≡ ok g
      → f.is_set ≡ true
      → g.is_set ≡ true
  unfolding add_all
  add_all-is_set [] f g h s = cc
  add_all-is_set (t ∷ ts) f g h s =
      let (v, e, rest) =
        >>=-eq-ok (argument i32 (pos (value t))) (λ v. add_all add clear ts (add v f)) h in
      add_all-is_set ts (add v f) g rest (add_sets v f)

  -- An event filter that is not empty survives, as a set of numbers, up to `NONE` and to numbers that
  -- `EventType` does not name.
  pub filter_round_trip :
      (t : EventType) (ts : List EventType) (fresh f : AlsaFilter)
      → ((n : ℕ) → fresh.passes (pos n) ≡ false)
      → filter_to_alsa add clear (some (t ∷ ts)) fresh ≡ ok f
      → (es : List EventType) × (filter_from_alsa f ≡ some es)
        × ((n : ℕ)
            → has_value es n ≡ (
                has_value members n
                && (not (n == value EventType.no_event) && has_value (t ∷ ts) n)))
  unfolding filter_to_alsa filter_from_alsa add_all
  filter_round_trip t ts fresh f empty h =
      let (v, e, rest) =
        >>=-eq-ok (argument i32 (pos (value t))) (λ v. add_all add clear ts (add v fresh)) h in
      let on : f.is_set ≡ true = add_all-is_set ts (add v fresh) f rest (add_sets v fresh) in
      (
        passing f.passes members,
        ground (arith, on),
        λ n.
            has_value-passing f.passes members n
            ∙ ap (λ b. has_value members n && (not (n == value EventType.no_event) && b))
                (add_all-passes (t ∷ ts) fresh f h n ∙ ground (arith, empty n)),
      )

module _ (add : ℤ → AlsaFilter → AlsaFilter) (clear : AlsaFilter → AlsaFilter) where
  -- The attributes of a client that is written to ALSA and read back: the id, the name and the broadcast
  -- filter are those written; `error_bounce` is read from the broadcast filter, so that its own value is
  -- lost.
  pub client_info_round_trip :
      (i c : ClientInfo) (fresh a : AlsaClientInfo)
      → to_alsa add clear i fresh ≡ ok a
      → from_alsa a ≡ ok c
      → (c.client_id ≡ i.client_id)
        × (c.name ≡ i.name)
        × (c.broadcast_filter ≡ i.broadcast_filter)
        × (c.error_bounce ≡ i.broadcast_filter)
  unfolding to_alsa from_alsa of_bool
  client_info_round_trip i c fresh a h k =
      let (client, e, rest) = >>=-eq-ok (argument i32 i.client_id) _ h in
      let (filter, e', rest') =
        >>=-eq-ok (filter_to_alsa add clear i.event_filter fresh.filter) _ rest in
      let (type, e'', rest'') = >>=-eq-ok (client_type a.type) _ k in
      let q : client ≡ i.client_id = argument-ok i.client_id client e in
      let wrote = ok-inj rest' in
      let read = ok-inj rest'' in
      let bit : eqb_ℤ a.broadcast_filter (pos 1) ≡ i.broadcast_filter =
        ap (λ (a : AlsaClientInfo). eqb_ℤ a.broadcast_filter (pos 1)) (sym wrote)
        ∙ of_bool-eqb i.broadcast_filter in
      (
        ap (λ (c : ClientInfo). c.client_id) (sym read)
            ∙ ap (λ (a : AlsaClientInfo). a.client) (sym wrote)
            ∙ q,
        ap (λ (c : ClientInfo). c.name) (sym read)
            ∙ ap (λ (a : AlsaClientInfo). a.name) (sym wrote),
        ap (λ (c : ClientInfo). c.broadcast_filter) (sym read) ∙ bit,
        ap (λ (c : ClientInfo). c.error_bounce) (sym read) ∙ bit,
      )
