-- ===== src/Client/Output/Direct/Returns.antt =====
-- That `event_output_direct` (alsa_midi/client.py) ends on an event with MIDI bytes.
use python_alsa_midi.Prelude.{
  ℕ, zero, suc, ◌≡◌, ◌⊎◌, refl, subst, inl, inr, true, Bool-cases, Option, none, some, List, ◌∷◌, ℤ,
  eqb_ℤ, arith, ◌<◌, drop, length, ltb, ltb→lt, tests, if◌then◌else◌,
}
use python_alsa_midi.Exceptions.{Error, Result, ok, err, check_alsa_error}
use python_alsa_midi.Stateful.{bind_to, ◌>>=◌, return}
use python_alsa_midi.Platform.{Platform}
use python_alsa_midi.Event.ToAlsa.{Overrides, Alsa}
use python_alsa_midi.Event.Codec.{Event}
use python_alsa_midi.Client.Session.{IoCall, Library, Client}
use python_alsa_midi.Client.Output.{
  Remainder, midi_bytes_of, after_check, type_none, output_or_pending, after_round,
  event_output_direct_once, output_loop, event_output_direct,
}
use python_alsa_midi.Client.Output.Pieces.{length-drop_lt, Progresses, Piece, prepare_event-Piece}
use python_alsa_midi.Client.Output.Direct.{outputs, Sent, output_loop-Sent}

module _ (p : Platform) (l : Library (Alsa p)) where
  module _ (progresses : Progresses p l) where
    -- How a round leaves the bytes `bs`: it raised, nothing remains, or fewer of them do.
    abbrev Shrinks : Result (ℤ × Remainder p l) × Client p l → List ℕ → Type 0
    Shrinks m bs =
        ((x : Error) × (c : Client p l) × (m ≡ (err x, c)))
        ⊎ (((code : ℤ) × (c : Client p l) × (m ≡ (ok (code, none), c)))
            ⊎ ((code : ℤ) × (a : Alsa p) × (n : ℕ) × (c : Client p l) × (m
                  ≡ (ok (code, some (a, drop n bs)), c))
                × (0 < n)
                × (n < length bs)))

    direct_round-Shrinks :
        (m : Result (Alsa p × Remainder p l) × Client p l) (ts bs : List ℕ)
        → Piece p l m ts bs
        → Shrinks
            (bind_to m (λ r. output_or_pending p l r.0 >>= λ result.
              return (result, (if eqb_ℤ r.0.type type_none then r.1 else none))))
            bs
    direct_round-Shrinks m ts bs (inl (x, c, h)) = inl (x, c, rw h refl)
    direct_round-Shrinks m ts bs (inr (x, a, n, c, h, bound, some_of, t)) =
        let sent = IoCall.output x ∷ c.calls in
        let asked : List (IoCall (Alsa p)) = IoCall.output_pending ∷ c.calls in
        elim (Bool-cases (eqb_ℤ x.type type_none)) [
          | inr done ↦ inr (inl (l.answer sent, record c { calls = sent }, rw (h, done) refl))
          | inl more ↦ elim (Bool-cases (ltb n (length bs))) [
            | inl small ↦ inr (
                inr (
                  l.answer asked,
                  a,
                  n,
                  record c { calls = asked },
                  rw (h, more, small) refl,
                  omega (tests, some_of, ltb→lt n _ small),
                  ltb→lt n _ small,
                ))
            | inr large ↦
                inr (inl (l.answer asked, record c { calls = asked }, rw (h, more, large) refl))
          ]
        ]

    -- The bytes that are left for the next round.
    abbrev left : List ℕ → Remainder p l → List ℕ
    left all none = all
    left all (some r) = r.1

    direct_once-Shrinks :
        (e : Event) (o : Overrides) (all : List ℕ) (rem : Remainder p l) (c : Client p l)
        → midi_bytes_of e.payload ≡ some all
        → Shrinks (event_output_direct_once p l e o rem c) (left all rem)
    unfolding event_output_direct_once
    direct_once-Shrinks e o all none c h =
        direct_round-Shrinks _ _ all (prepare_event-Piece p l progresses e o all none c h)
    direct_once-Shrinks e o all (some r) c h =
        direct_round-Shrinks _ _ r.1 (prepare_event-Piece p l progresses e o all (some r) c h)

    abbrev Returns : Option (Result ℤ × Client p l) → Type 0
    Returns out = (r : Result ℤ) × (c : Client p l) × (out ≡ some (r, c))

    after_check-Returns :
        (u : Result (Unit {0})) (code : ℤ) (rem : Remainder p l) (c : Client p l)
        (again : Alsa p × List ℕ → Client p l → Option (Result ℤ × Client p l))
        → ((r : Alsa p × List ℕ) → rem ≡ some r → Returns (again r c))
        → Returns (after_check p l u code rem c again)
    after_check-Returns (err e) code rem c again k = (err e, c, refl)
    after_check-Returns (ok _) code none c again k = (ok code, c, refl)
    after_check-Returns (ok _) code (some r) c again k = k r refl

    after_round-Returns :
        (m : Result (ℤ × Remainder p l) × Client p l) (bs : List ℕ)
        (again : Alsa p × List ℕ → Client p l → Option (Result ℤ × Client p l))
        → Shrinks m bs
        → ((r : Alsa p × List ℕ) (c : Client p l) → length r.1 < length bs → Returns (again r c))
        → Returns (after_round p l m again)
    after_round-Returns m bs again (inl (x, c, h)) k = rw h (err x, c, refl)
    after_round-Returns m bs again (inr (inl (code, c, h))) k =
        rw h (after_check-Returns (check_alsa_error code) code none c again (λ r e. absurd cc))
    after_round-Returns m bs again (inr (inr (code, a, n, c, h, some_of, small))) k = rw h (
        after_check-Returns (check_alsa_error code) code (some (a, drop n bs)) c again (λ r e.
          let same : (a, drop n bs) ≡ r = cc in
          subst (λ r. Returns (again r c)) same
            (k (a, drop n bs) c (omega (arith, length-drop_lt n bs some_of small)))))

    output_loop-Returns :
        (fuel : ℕ) (e : Event) (o : Overrides) (all : List ℕ) (rem : Remainder p l) (c : Client p l)
        → midi_bytes_of e.payload ≡ some all
        → length (left all rem) < fuel
        → Returns (output_loop p l (event_output_direct_once p l e o) fuel rem c)
    unfolding output_loop
    output_loop-Returns zero e o all rem c h lt = absurd (omega arith)
    output_loop-Returns (suc fuel) e o all rem c h lt =
        after_round-Returns (event_output_direct_once p l e o rem c) (left all rem) _
          (direct_once-Shrinks e o all rem c h)
          (λ r c' small. output_loop-Returns fuel e o all (some r) c' h (omega (arith, small)))

    -- If the encoder makes progress, `event_output_direct` of an open client ends for an event with MIDI
    -- bytes, with any fuel above their number, and it outputs at most one event, however many pieces the
    -- bytes make and whatever ALSA answers. If it returns a code, then it is that of its last call, which is
    -- its only output, of an event of any type but `NONE`, or else the call for the pending output, where no
    -- piece completed an event.
    pub event_output_direct-Sent :
        (fuel : ℕ) (e : Event) (o : Overrides) (bs : List ℕ) (c : Client p l)
        → midi_bytes_of e.payload ≡ some bs
        → length bs < fuel
        → (r : Result ℤ) × (c' : Client p l) × (event_output_direct p l true fuel e o c
            ≡ some (r, c'))
          × Sent p l (outputs c.calls) (some (r, c'))
    unfolding event_output_direct
    event_output_direct-Sent fuel e o bs c h lt =
        let (r, c', returned) = output_loop-Returns fuel e o bs none c h lt in
        (
          r,
          c',
          returned,
          subst (Sent p l (outputs c.calls)) returned
              (output_loop-Sent p l fuel e o none c (outputs c.calls) refl),
        )
