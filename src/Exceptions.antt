-- ===== src/Exceptions.antt =====
-- The exceptions of alsa_midi/exceptions.py as values, Python's own among them, and the checks of
-- alsa_midi/util.py. The message of an `ALSAError` is a function of its code, so the code is kept.
use python_alsa_midi.Prelude.{
  ◌≡◌, refl, ◌⊎◌, inl, inr, Bool, true, false, ◌||◌, ℤ, pos, ltb_ℤ, if◌then◌else◌,
}

pub data Error : Type 0 where
  -- `StateError("Already closed")`, of an object and of its client
  already_closed sequencer_already_closed : Error
  alsa_error : ℤ → Error
  value_error type_error overflow_error zero_division_error attribute_error assertion_error
        os_error :
      Error

pub data Result {ℓ} (A : Type ℓ) : Type ℓ where
  ok : A → Result A
  err : Error → Result A

-- `raise error` under a condition
abbrev pub raise_if : Bool → Error → Result (Unit {0})
raise_if false error = ok tt
raise_if true error = err error

pub Result-cases {ℓ} :
    {A : Type ℓ} (r : Result A) → ((a : A) × (r ≡ ok a)) ⊎ ((e : Error) × (r ≡ err e))
Result-cases (err error) = inr (error, refl)
Result-cases (ok value) = inl (value, refl)

infixl 5 ◌>>=◌ ◌>>◌
abbrev pub ◌>>=◌ {ℓ κ} : {A : Type ℓ} {B : Type κ} → Result A → (A → Result B) → Result B
err error >>= next = err error
ok value >>= next = next value

-- A result that came through two steps came through both.
pub >>=-eq-ok {ℓ κ} :
    {A : Type ℓ} {B : Type κ} (first : Result A) (next : A → Result B) {b : B}
    → (first >>= next) ≡ ok b
    → (a : A) × (first ≡ ok a) × (next a ≡ ok b)
>>=-eq-ok (err error) next done = cc
>>=-eq-ok (ok value) next done = (value, refl, done)

abbrev pub ◌>>◌ {ℓ} : {B : Type ℓ} → Result (Unit {0}) → Result B → Result B
check >> rest = check >>= λ _. rest

-- `_check_alsa_error`; the code is always an int here.
unfoldable pub check_alsa_error : ℤ → Result (Unit {0})
check_alsa_error code = raise_if (ltb_ℤ code (pos 0)) (alsa_error code)

unfoldable pub ensure_4bit : ℤ → Result ℤ
ensure_4bit value =
    if ltb_ℤ value (pos 0) || ltb_ℤ (pos 0x0f) value then err value_error else ok value

unfoldable pub ensure_7bit : ℤ → Result ℤ
ensure_7bit value =
    if ltb_ℤ value (pos 0) || ltb_ℤ (pos 0x7f) value then err value_error else ok value
