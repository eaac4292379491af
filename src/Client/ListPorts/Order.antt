-- ===== src/Client/ListPorts/Order.antt =====
-- The order of the ports that `list_ports` (alsa_midi/client.py) returns.
use python_alsa_midi.Prelude.{
  ◌≡◌, refl, Bool, true, Bool-cases, inl, inr, some, List, [], ◌∷◌, ◌++◌, ℤ,
}
use mathlib.Core.List.{Perm}
use python_alsa_midi.Prelude.Sort.{All, IsSorted, sort, sort-perm, sort-IsSorted}
use python_alsa_midi.Exceptions.{ok}
use python_alsa_midi.Port.Info.{PortInfo, AlsaPortInfo, from_alsa}
use python_alsa_midi.Port.SortKey.{sort_key, less_key}
use python_alsa_midi.Port.SortKey.Order.{less_key_asym, less_key_trans}
use python_alsa_midi.Client.Enumerate.{collect}
use python_alsa_midi.Client.ListPorts.{
  Options, Sorting, ClientEntry, Sequencer, visits, preferred_types, sorted_by, list_ports,
}
use python_alsa_midi.Client.ListPorts.Select.{wanted}
use python_alsa_midi.Client.ListPorts.Listing.{
  Snapshot, IsServed, listed_port, listed_client, listing, list_ports-listing,
}

All-append {ℓ} :
    {A : Type ℓ} (P : A → Type 0) (xs ys : List A) → All P xs → All P ys → All P (xs ++ ys)
All-append P [] ys h k = k
All-append P (x ∷ xs) ys h k = (h.0, All-append P xs ys h.1 k)

All-collect {ℓ} :
    {X : Type ℓ} {B : Type 0} (P : B → Type 0) (f : X → List B) (xs : List X)
    → ((x : X) → All P (f x))
    → All P (collect f xs)
unfolding collect
All-collect P f [] h = tt
All-collect P f (x ∷ xs) h = All-append P (f x) (collect f xs) (h x) (All-collect P f xs h)

abbrev pub HasPortId : PortInfo → Type 0
HasPortId i = (n : ℤ) × (i.port_id ≡ some n)

module _ (o : Options) where
  listed_port-HasPortId : (c : ClientEntry) (a : AlsaPortInfo) → All HasPortId (listed_port o c a)
  unfolding from_alsa
  listed_port-HasPortId c a = elim (Bool-cases (wanted o (from_alsa a))) [
    | inl w ↦ rw w ((a.port, refl), tt)
    | inr n ↦ rw n tt
  ]

  listed_client-HasPortId :
      (e : ClientEntry × List AlsaPortInfo) → All HasPortId (listed_client o e)
  listed_client-HasPortId e = elim (Bool-cases (visits o e.0)) [
    | inl v ↦ rw v (All-collect HasPortId (listed_port o e.0) e.1 (listed_port-HasPortId e.0))
    | inr n ↦ rw n tt
  ]

  listing-HasPortId : (snap : Snapshot) → All HasPortId (listing o snap)
  listing-HasPortId snap = All-collect HasPortId (listed_client o) snap listed_client-HasPortId

-- The default order of two ports.
abbrev pub port_less : Options → PortInfo → PortInfo → Bool
port_less o a b =
    let types = preferred_types o.input o.output in less_key (sort_key types a) (sort_key types b)

sort-port_less :
    (o : Options) (ports : List PortInfo)
    → All HasPortId ports
    → IsSorted (port_less o) (sort (port_less o) ports)
unfolding sort_key
sort-port_less o ports h =
    sort-IsSorted (port_less o) HasPortId (λ a b. less_key_asym _ _)
      (λ a b c pa pb pc. less_key_trans _ _ _ pa pb pc) ports h

-- With the default sorting, `list_ports` of an open client, when the sequencer answers with a snapshot
-- whose ids rise and are bytes, returns the wanted ports of the snapshot, each as often as it is there,
-- and none after one that comes later in the order of the keys.
pub list_ports-default :
    (s : Sequencer) (o : Options) (snap : Snapshot)
    → IsServed s snap
    → o.sorting ≡ Sorting.default
    → (ports : List PortInfo) × (list_ports s true o ≡ some (ok ports))
      × Perm ports (listing o snap)
      × IsSorted (port_less o) ports
unfolding sorted_by visits
list_ports-default s o snap h d = (
  sort (port_less o) (listing o snap),
  rw (list_ports-listing s o snap h, d) refl,
  sort-perm (port_less o) (listing o snap),
  sort-port_less o (listing o snap) (listing-HasPortId o snap),
)
