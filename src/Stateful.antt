-- ===== src/Stateful.antt =====
-- Methods that change an object, as state passing: a method gives a result or raises, and leaves a
-- state either way.
use python_alsa_midi.Prelude.{◌≡◌, refl}
use python_alsa_midi.Exceptions.{Error, Result, ok, err}

abbrev pub Act : Type 0 → Type 0 → Type 0
Act S A = S → Result A × S

module _ {S : Type 0} where
  abbrev pub lift : {A : Type 0} → Result A → Act S A
  lift r s = (r, s)

  abbrev pub return : {A : Type 0} → A → Act S A
  return a = lift (ok a)

  abbrev pub this : Act S S
  this s = (ok s, s)

  abbrev pub put : S → Act S Unit
  put q s = (ok tt, q)

  abbrev pub bind_to : {A B : Type 0} → Result A × S → (A → Act S B) → Result B × S
  bind_to (ok a, s) f = f a s
  bind_to (err e, s) f = (err e, s)

  infixl 5 ◌>>=◌ ◌>>◌
  abbrev pub ◌>>=◌ : {A B : Type 0} → Act S A → (A → Act S B) → Act S B
  (m >>= f) s = bind_to (m s) f

  abbrev pub ◌>>◌ : {B : Type 0} → Act S Unit → Act S B → Act S B
  m >> k = m >>= λ _. k

module _ {S A B : Type 0} (m : Result A × S) (f : A → Act S B) where
  pub bind_to-ok : {a : A} → m.0 ≡ ok a → bind_to m f ≡ f a m.1
  bind_to-ok h = rw h refl

  pub bind_to-err : {e : Error} → m.0 ≡ err e → bind_to m f ≡ (err e, m.1)
  bind_to-err h = rw h refl

-- A result that came through two steps came through both.
pub bind_to-eq-ok :
    {S A B : Type 0} (m : Result A × S) (f : A → Act S B) {b : B} {t : S}
    → bind_to m f ≡ (ok b, t)
    → (a : A) × (s : S) × (m ≡ (ok a, s)) × (f a s ≡ (ok b, t))
bind_to-eq-ok (ok a, s) f h = (a, s, refl, h)
bind_to-eq-ok (err e, s) f h = cc
