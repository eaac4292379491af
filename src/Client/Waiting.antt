-- ===== src/Client/Waiting.antt =====
-- Waiting for the sequencer in alsa_midi/client.py: `SequencerClient` polls between its attempts;
-- `AsyncSequencerClient` has the event loop call it back. An attempt is `_event_input`, or an output
-- with its remainder; both loops are written once for the two, over what an attempt gives: a code, a
-- remainder (an input has none), and a value.
pub mod Attempts
pub mod Callback
pub mod Loop
pub mod Blocking
pub mod Coroutines
pub mod Shared
pub mod Refused
use python_alsa_midi.Prelude.{
  ℕ, zero, suc, Bool, true, false, not, ◌&&◌, Option, none, some, ℤ, pos, negsuc, eqb_ℤ, leb_ℤ,
  ◌+ℤ◌,
}
use python_alsa_midi.Exceptions.{Error, Result, ok, err, check_alsa_error}
use python_alsa_midi.Stateful.{Act}

-- `-errno.EAGAIN`
abbrev pub eagain : ℤ
eagain = negsuc 10

abbrev pub is_none {ℓ} : {A : Type ℓ} → Option A → Bool
is_none none = true
is_none (some _) = false

-- `result != -errno.EAGAIN and remainder is None`
abbrev pub is_final {ℓ} : {R : Type ℓ} → ℤ → Option R → Bool
is_final code rem = not (eqb_ℤ code eagain) && is_none rem

-- What an attempt gives.
pub record Tried (R V : Type 0) : Type 0 where
  pub code : ℤ
  pub remainder : Option R
  pub value : V

-- `_check_alsa_error(result)`, then the value.
abbrev pub checked_value : {R V : Type 0} → Tried R V → Result (Option V)
checked_value t = elim (check_alsa_error t.code) [ ok _ ↦ ok (some t.value) | err e ↦ err e ]
