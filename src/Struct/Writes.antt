-- ===== src/Struct/Writes.antt =====
-- Several fields of the union of an event (alsa_midi/_ffi_defs.py) written one after another.
use python_alsa_midi.Prelude.{◌≡◌, refl, ◌∙◌, true, List, [], ◌∷◌, ℤ}
use python_alsa_midi.Exceptions.{Result, ok, ◌>>=◌}
use python_alsa_midi.Struct.{Field, ctype, fits, IsDisjoint, Union, assign}

abbrev pub Writes : Type 0
Writes = List (Field × ℤ)

-- Every value fits its field.
abbrev pub AllFit : Writes → Type 0
AllFit [] = Unit
AllFit ((f, v) ∷ ws) = (fits (ctype f) v ≡ true) × AllFit ws

abbrev pub IsApart : Field → Writes → Type 0
IsApart g [] = Unit
IsApart g ((f, v) ∷ ws) = IsDisjoint f g × IsApart g ws

-- No field overlaps one that is written later.
abbrev pub AreApart : Writes → Type 0
AreApart [] = Unit
AreApart ((f, v) ∷ ws) = IsApart f ws × AreApart ws

module _ (u : Union) where
  open u use {Data, get, set, get-set, get-set_ne}

  unfoldable pub assign_all : Writes → Data → Result Data
  assign_all [] d = ok d
  assign_all ((f, v) ∷ ws) d = assign u f v d >>= assign_all ws

  -- The memory holds every value.
  abbrev pub Holds : Writes → Data → Type 0
  Holds [] d = Unit
  Holds ((f, v) ∷ ws) d = (get f d ≡ v) × Holds ws d

  pub assign-fits :
      (f : Field) (v : ℤ) (d : Data) → fits (ctype f) v ≡ true → assign u f v d ≡ ok (set f v d)
  unfolding assign
  assign-fits f v d h = rw h

  pub assign_all-Holds :
      (ws : Writes) (d : Data)
      → AllFit ws
      → AreApart ws
      → (d' : Data) × (assign_all ws d ≡ ok d')
        × Holds ws d'
        × ((g : Field) → IsApart g ws → get g d' ≡ get g d)
  unfolding assign_all
  assign_all-Holds [] d h s = (d, refl, tt, λ g _. refl)
  assign_all-Holds ((f, v) ∷ ws) d h s =
      let (d', e, held, frame) = assign_all-Holds ws (set f v d) h.1 s.1 in
      (
        d',
        rw (assign-fits f v d h.0) e,
        (frame f s.0 ∙ get-set f v d h.0, held),
        λ g a. frame g a.1 ∙ get-set_ne f g v d a.0,
      )
