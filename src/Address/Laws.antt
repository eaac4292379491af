-- ===== src/Address/Laws.antt =====
-- The constructor of `Address` (alsa_midi/address.py) on the arguments that it takes.
use python_alsa_midi.Prelude.{
  ◌≡◌, refl, ◌↔◌, true, some, [], ◌∷◌, String, ℤ, neg_part, length, arith, ◌<◌, ◌≢◌,
}
use python_alsa_midi.Exceptions.{Error, ok, err, value_error, alsa_error}
use python_alsa_midi.Address.{
  Address, Arg, text, object, tuple, int, of_address, of_port, of_client, Parsed, new, same_address,
}

module _ (parse_address : String → Parsed) where
  -- An address survives the constructor, however it is written: as an `Address` (whatever the second
  -- argument), as a pair, as two ints, as an object that has both attributes, or as a client with
  -- the port as second argument.
  pub new-forms :
      (a : Address) (arg2 : ℤ)
      → (new parse_address (of_address a) arg2 ≡ ok a)
        × (new parse_address (of_port a.client_id (some a.port_id)) arg2 ≡ ok a)
        × (new parse_address (tuple (some a.client_id ∷ some a.port_id ∷ [])) arg2 ≡ ok a)
        × (new parse_address (int a.client_id) a.port_id ≡ ok a)
        × (new parse_address (of_client a.client_id) a.port_id ≡ ok a)
  unfolding new
  new-forms a arg2 = (refl, refl, refl, refl, refl)

  -- The error that an argument deserves: a tuple has two elements, and ALSA does not refuse a text.
  unfoldable pub Refuses : Arg → Error → Type 0
  Refuses (text t) e =
      (0 < neg_part (parse_address t).code) × (e ≡ alsa_error (parse_address t).code)
  Refuses (object c p) e = ⊥
  Refuses (tuple vs) e = (length vs ≢ 2) × (e ≡ value_error)
  Refuses (int c) e = ⊥

  -- The constructor raises exactly in two cases: for a tuple of another length than two, and for a text
  -- that the ALSA library refuses with a negative code, which is raised.
  pub new-eq-err_iff :
      (arg : Arg) (arg2 : ℤ) (e : Error) → (new parse_address arg arg2 ≡ err e) ↔ Refuses arg e
  unfolding new Refuses
  new-eq-err_iff (text t) arg2 e =
      (λ h. (ground arith, ground arith), λ h. ground (arith, h.0, h.1))
  new-eq-err_iff (object c p) arg2 e = (λ h. cc, λ h. absurd h)
  new-eq-err_iff (tuple []) arg2 e = (λ h. (omega arith, ground arith), λ h. ground (arith, h.1))
  new-eq-err_iff (tuple (a ∷ [])) arg2 e =
      (λ h. (omega arith, ground arith), λ h. ground (arith, h.1))
  new-eq-err_iff (tuple (a ∷ b ∷ [])) arg2 e = (λ h. cc, λ h. absurd (h.0 refl))
  new-eq-err_iff (tuple (a ∷ b ∷ c ∷ vs)) arg2 e =
      (λ h. (omega arith, ground arith), λ h. ground (arith, h.1))
  new-eq-err_iff (int c) arg2 e = (λ h. cc, λ h. absurd h)

pub same_address_iff : (a b : Address) → (same_address a b ≡ true) ↔ (a ≡ b)
unfolding same_address
same_address_iff a b = ground arith
