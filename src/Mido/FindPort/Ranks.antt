-- ===== src/Mido/FindPort/Ranks.antt =====
-- `_find_port` of alsa_midi/mido_backend.py on a name: which port of those that it may mean.
use python_alsa_midi.Prelude.{
  ℕ, zero, suc, ◌<◌, ◌≡◌, Bool, true, false, some, List, String, get_elem?,
}
use package.text.Mathlib.Text.{◌==◌ as str_eq}
use python_alsa_midi.Address.{text}
use python_alsa_midi.Port.Info.{PortInfo}
use python_alsa_midi.Mido.FindPort.{show, show_id, show_name, ◌⧺◌}

-- A test that fails for every port of a list
abbrev pub Fails : (PortInfo → Bool) → List PortInfo → Type 0
Fails t ports = (i : ℕ) (q : PortInfo) → get_elem? ports i ≡ some q → t q ≡ false

-- The port at a place is the first one for which the test holds.
abbrev First : (PortInfo → Bool) → List PortInfo → PortInfo → Type 0
First t ports p =
    (t p ≡ true)
    × (i : ℕ) × (get_elem? ports i ≡ some p)
    × ((j : ℕ) (q : PortInfo) → j < i → get_elem? ports j ≡ some q → t q ≡ false)

-- The test at a place of a list finds the port, and each test before it fails for every port.
abbrev Best : List (PortInfo → Bool) → List PortInfo → PortInfo → Type 0
Best ts ports p =
    (k : ℕ) × (t : PortInfo → Bool) × (get_elem? ts k ≡ some t)
    × First t ports p
    × ((j : ℕ) (u : PortInfo → Bool) → j < k → get_elem? ts j ≡ some u → Fails u ports)

-- How a name can mean a port, the strongest way first: it is the name that `get_devices` gives, with the
-- address; those of the client and the port; that of the client; that of the port.
unfoldable pub Means : ℕ → String → PortInfo → Type 0
Means zero name p =
    name ≡ show_name p.client_name ⧺ ":" ⧺ p.name ⧺ " " ⧺ show p.client_id ⧺ ":" ⧺ show_id p.port_id
Means (suc zero) name p = name ≡ show_name p.client_name ⧺ ":" ⧺ p.name
Means (suc (suc zero)) name p = p.client_name ≡ some name
Means (suc (suc (suc zero))) name p = name ≡ p.name
Means (suc (suc (suc (suc k)))) name p = ⊥

-- No port of a list is meant in this way.
abbrev pub NoneMeant : ℕ → String → List PortInfo → Type 0
NoneMeant k name ports = (i : ℕ) (q : PortInfo) → get_elem? ports i ≡ some q → ¬ (Means k name q)

-- The first port of a list that the name means in one way, while it means none in a stronger way.
abbrev pub Meant : String → List PortInfo → PortInfo → Type 0
Meant name ports p =
    (k : ℕ) × Means k name p
    × ((i : ℕ) × (get_elem? ports i ≡ some p)
        × ((j : ℕ) (q : PortInfo) → j < i → get_elem? ports j ≡ some q → ¬ (Means k name q)))
    × ((j : ℕ) → j < k → NoneMeant j name ports)
