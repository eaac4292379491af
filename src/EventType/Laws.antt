-- ===== src/EventType/Laws.antt =====
-- Members and values of `EventType` (alsa_midi/event.py).
use python_alsa_midi.Prelude.{ℕ, ◌≡◌, refl, ◌≢◌, List, [], ◌∷◌, arith}
use python_alsa_midi.EventType.{EventType, unknown, value, members, member_from, of_value}

value-member_from : (ts : List EventType) (n : ℕ) → value (member_from ts n) ≡ n
unfolding member_from
value-member_from [] n = unfold value in refl
value-member_from (t ∷ ts) n = ground (arith, value-member_from ts n)

-- Every number is the value of the member that is made of it.
pub value-of_value : (n : ℕ) → value (of_value n) ≡ n
unfolding of_value
value-of_value n = value-member_from members n

-- The value of a named member gives that member back.
pub of_value-value : (t : EventType) → ((n : ℕ) → t ≢ unknown n) → of_value (value t) ≡ t
unfolding of_value member_from members value
of_value-value EventType.system h = refl
of_value-value (unknown n) h = absurd (h n refl)
of_value-value _ h = refl
