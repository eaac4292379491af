-- ===== src/Mido/FindPort.antt =====
-- `_find_port` of alsa_midi/mido_backend.py, and the names of `get_devices`.
pub mod Ranks
use Prim.Native.String
use python_alsa_midi.Prelude.{
  ℕ, zero, suc, ◌<◌, ◌/◌, ◌%◌, ◌≡◌, refl, ◌∙◌, ap, Bool, true, false, Bool-cases, inl, inr, Option,
  none, some, List, [], ◌∷◌, String, ℤ, pos, negsuc, ltb, get_elem?, get_or, sym, subst, ◌⊎◌, arith,
  if◌then◌else◌, bit_and,
}
use package.text.Mathlib.Text.{◌==◌ as str_eq}
use python_alsa_midi.Exceptions.{Error, Result, ok, err, value_error, alsa_error, os_error}
use python_alsa_midi.Address.{Address, of_port, text, Parsed, new, same_address}
use python_alsa_midi.Port.Info.{PortInfo}
use python_alsa_midi.Port.Flags.{cap_read, cap_write}

infixr 60 ◌⧺◌
-- Concatenation of texts
abbrev pub ◌⧺◌ : String → String → String
s ⧺ t = String.◌++◌ s t

abbrev digits : List String
digits = "0" ∷ "1" ∷ "2" ∷ "3" ∷ "4" ∷ "5" ∷ "6" ∷ "7" ∷ "8" ∷ "9" ∷ []

abbrev digit : ℕ → String
digit n = get_or digits n ""

-- On fuel; a number has fewer digits than its value and one.
abbrev digits_of : ℕ → ℕ → String
digits_of zero n = ""
digits_of (suc fuel) n =
    let front = digits_of fuel (n / 10) in if ltb n 10 then digit n else front ⧺ digit (n % 10)

-- `str(n)`
unfoldable pub show : ℤ → String
show (pos n) = digits_of (suc n) n
show (negsuc n) = "-" ⧺ digits_of (suc (suc n)) (suc n)

abbrev pub show_id : Option ℤ → String
show_id none = "None"
show_id (some n) = show n

abbrev pub show_name : Option String → String
show_name none = "None"
show_name (some s) = s

-- The name of a port in `get_devices`
unfoldable pub device_name : PortInfo → String
unfolding show
device_name p =
    show_name p.client_name ⧺ ":" ⧺ p.name ⧺ " " ⧺ show p.client_id ⧺ ":" ⧺ show_id p.port_id

-- An entry of `get_devices`; the flags are the masked capabilities.
pub record Device : Type 0 where
  pub name : String
  pub is_input : ℕ
  pub is_output : ℕ

unfoldable pub devices : List PortInfo → List Device
unfolding device_name
devices [] = []
devices (p ∷ ps) =
    record {
      name = device_name p;
      is_input = bit_and p.capability cap_read;
      is_output = bit_and p.capability cap_write;
    }
    ∷ devices ps

unfoldable pub first_match : (PortInfo → Bool) → List PortInfo → Option PortInfo
first_match test [] = none
first_match test (p ∷ ps) = if test p then some p else first_match test ps

-- The four comparisons of a name, in the order of the loops
unfoldable pub tests : String → List (PortInfo → Bool)
unfolding device_name
tests name =
    (λ p. str_eq name (device_name p))
    ∷ (λ p. str_eq name (show_name p.client_name ⧺ ":" ⧺ p.name))
    ∷ (λ p. elim p.client_name [ none ↦ false | some c ↦ str_eq name c ])
    ∷ (λ p. str_eq name p.name)
    ∷ []

abbrev pub else_search : Option PortInfo → Option PortInfo → Option PortInfo
else_search (some p) next = some p
else_search none next = next

unfoldable pub search : List (PortInfo → Bool) → List PortInfo → Option PortInfo
unfolding first_match
search [] ports = none
search (t ∷ ts) ports = else_search (first_match t ports) (search ts ports)

abbrev pub or_unknown : Option PortInfo → Result PortInfo
or_unknown none = err os_error
or_unknown (some p) = ok p

module _ (parse : String → Parsed) where
  -- `addr == Address(port)`
  abbrev pub at_address : Address → PortInfo → Bool
  at_address a p = elim (new parse (of_port p.client_id p.port_id) (pos 0)) [
    | ok b ↦ same_address a b
    | err e ↦ false
  ]

  abbrev pub by_name : Error → List PortInfo → String → Result PortInfo
  by_name (alsa_error code) ports name = or_unknown (search (tests name) ports)
  by_name value_error ports name = or_unknown (search (tests name) ports)
  by_name e ports name = err e

  unfoldable pub find_port : List PortInfo → String → Result PortInfo
  unfolding first_match search tests new same_address
  find_port ports name = elim (new parse (text name) (pos 0)) [
    | ok a ↦ or_unknown (first_match (at_address a) ports)
    | err e ↦ by_name e ports name
  ]
