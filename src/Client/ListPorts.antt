-- ===== src/Client/ListPorts.antt =====
-- `SequencerClientBase.list_ports` of alsa_midi/client.py: two nested query loops, the selection, and
-- the sort. The answers of the sequencer are a parameter, the same during one call.
pub mod Select
pub mod Listing
pub mod Order
use text.Mathlib.Text.{◌==◌ as str_eq}
use python_alsa_midi.Prelude.{
  ℕ, Bool, true, false, not, ◌&&◌, ◌||◌, Option, none, some, List, [], ◌∷◌, String, ℤ, pos, negsuc,
  eqb_ℤ, has_any, has_all, ◌==◌, if◌then◌else◌,
}
use python_alsa_midi.Prelude.Sort.{sort}
use python_alsa_midi.Exceptions.{Result, ok, err, already_closed}
use python_alsa_midi.Port.Flags.{
  cap_read, cap_write, cap_subs_read, cap_subs_write, cap_no_export, read_port_preferred_types,
  write_port_preferred_types, rw_port_preferred_types,
}
use python_alsa_midi.Port.Info.{PortInfo, AlsaPortInfo, from_alsa}
use python_alsa_midi.Port.SortKey.{sort_key, less_key}
use python_alsa_midi.Client.Enumerate.{Run, scan}

-- `sort`: the default order, none, or an order given by the caller.
pub data Sorting : Type 0 where
  default unsorted : Sorting
  by : (PortInfo → PortInfo → Bool) → Sorting

-- The arguments; `None` for `input` or `output` counts as `False`.
pub record Options : Type 0 where
  pub input : Bool
  pub output : Bool
  pub type : ℕ
  pub include_system : Bool
  pub include_midi_through : Bool
  pub include_no_export : Bool
  pub only_connectable : Bool
  pub sorting : Sorting

-- What the queries fill in: a client with its name, and a port.
pub record ClientEntry : Type 0 where
  pub client : ℤ
  pub name : String

pub record Sequencer : Type 0 where
  pub next_client : ℤ → ℤ × ClientEntry
  -- of a client, after a port
  pub next_port : ℤ → ℤ → ℤ × AlsaPortInfo

-- The tests of the client loop: does it go on to the ports?
unfoldable pub visits : Options → ClientEntry → Bool
visits o c =
    if eqb_ℤ c.client (pos 0) && not o.include_system
    then false
    else if str_eq c.name "Midi Through" && not o.include_midi_through
    then false
    else true

-- The tests of the port loop, up to the first `continue`.
unfoldable pub selects : Options → PortInfo → Bool
selects o i =
    let can_write = has_any i.capability cap_write in
    let can_sub_write = has_any i.capability cap_subs_write in
    let can_read = has_any i.capability cap_read in
    let can_sub_read = has_any i.capability cap_subs_read in
    if not (o.type == 0) && not (has_all i.type o.type)
    then false
    else if has_any i.capability cap_no_export && not o.include_no_export
    then false
    else if o.output && not can_write
    then false
    else if o.output && o.only_connectable && not can_sub_write
    then false
    else if o.input && not can_read
    then false
    else if o.input && o.only_connectable && not can_sub_read
    then false
    else if not o.input && not o.output
    then (if o.only_connectable
        then (if can_read && can_sub_read
            then true
            else if can_write && can_sub_write
            then true
            else false)
        else if not can_read && not can_write
        then false
        else true)
    else true

-- The body of the port loop.
unfoldable pub port_found : Options → String → AlsaPortInfo → List PortInfo
unfolding selects
port_found o client_name a =
    let info = from_alsa a in
    if selects o info then record info { client_name = some client_name } ∷ [] else []

-- The preferred types, after both tests: the second one overwrites what the first one chose.
unfoldable pub preferred_types : Bool → Bool → List ℕ
preferred_types input output =
    if output && not input then write_port_preferred_types else rw_port_preferred_types

unfoldable pub sorted_by : Options → List PortInfo → List PortInfo
unfolding preferred_types
sorted_by o ports = elim o.sorting [
  | by less ↦ sort less ports
  | default ↦
      let types = preferred_types o.input o.output in
      sort (λ a b. less_key (sort_key types a) (sort_key types b)) ports
  | unsorted ↦ ports
]

-- Client and port ids are bytes.
abbrev pub rounds : ℕ
rounds = 257

module _ (s : Sequencer) where
  -- The body of the client loop.
  unfoldable pub client_found : Options → ClientEntry → Run (List PortInfo)
  unfolding scan visits port_found
  client_found o c =
      let ports =
        scan (s.next_port c.client) (λ a. a.port) (λ a. some (ok (port_found o c.name a))) rounds
          (negsuc 0) in
      if visits o c then ports else some (ok [])

  -- `is_open` tells whether the client has its handle.
  unfoldable pub list_ports : Bool → Options → Run (List PortInfo)
  unfolding scan client_found
  list_ports is_open o =
      let found = scan s.next_client (λ c. c.client) (client_found o) rounds (negsuc 0) in
      if is_open
      then (elim found [
        | none ↦ none
        | some (err e) ↦ some (err e)
        | some (ok ports) ↦ some (ok (sorted_by o ports))
      ])
      else some (err already_closed)
