-- ===== src/Port/SortKey.antt =====
-- `get_port_info_sort_key` of alsa_midi/port.py.
pub mod Order
use text.Mathlib.Text.{◌==◌ as str_eq}
use python_alsa_midi.Prelude.{
  ℕ, suc, ◌≡◌, Bool, true, false, Option, none, some, List, [], ◌∷◌, String, ℤ, has_all, ltb, ◌==◌,
  eqb_ℤ, ltb_ℤ, length, if◌then◌else◌, arith,
}
use python_alsa_midi.Port.Info.{PortInfo}

pub record Key : Type 0 where
  pub is_midi_through : Bool
  pub preference : ℕ
  pub client_id : ℤ
  pub port_id : Option ℤ

-- The loop over `enumerate(preferred_types)`, from index `i` on; `d` is the preference so far.
unfoldable pub preference_from : ℕ → ℕ → ℕ → List ℕ → ℕ
preference_from type d i [] = d
preference_from type d i (types ∷ rest) =
    if has_all type types then i else preference_from type d (suc i) rest

unfoldable pub preference : List ℕ → ℕ → ℕ
unfolding preference_from
preference preferred type = preference_from type (length preferred) 0 preferred

-- `info.client_name == "Midi Through"`
unfoldable pub is_through : Option String → Bool
is_through none = false
is_through (some name) = str_eq name "Midi Through"

unfoldable pub sort_key : List ℕ → PortInfo → Key
sort_key preferred info = record {
  is_midi_through = is_through info.client_name;
  preference = preference preferred info.type;
  client_id = info.client_id;
  port_id = info.port_id;
}

-- Port ids in a listing are ints; two ids of which one is `None` cannot be compared in Python.
unfoldable pub less_id : Option ℤ → Option ℤ → Bool
less_id (some a) (some b) = ltb_ℤ a b
less_id _ _ = false

-- `False < True`
unfoldable pub less_bool : Bool → Bool → Bool
less_bool false b = b
less_bool true b = false

unfoldable pub same_bool : Bool → Bool → Bool
same_bool true b = b
same_bool false b = if b then false else true

-- Python's comparison of two key tuples.
unfoldable pub less_key : Key → Key → Bool
unfolding less_id less_bool same_bool
less_key a b =
    if same_bool a.is_midi_through b.is_midi_through
    then (if a.preference == b.preference
        then (if eqb_ℤ a.client_id b.client_id
            then less_id a.port_id b.port_id
            else ltb_ℤ a.client_id b.client_id)
        else ltb a.preference b.preference)
    else less_bool a.is_midi_through b.is_midi_through
