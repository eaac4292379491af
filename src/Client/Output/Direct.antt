-- ===== src/Client/Output/Direct.antt =====
-- `event_output_direct` (alsa_midi/client.py) on an event of several pieces: what it outputs.
pub mod Returns
use python_alsa_midi.Prelude.{
  ℕ, zero, suc, ◌≡◌, ◌≤◌, ◌∙◌, ◌⊎◌, refl, subst, inl, inr, true, false, Bool-cases, Option, none,
  some, List, [], ◌∷◌, ℤ, eqb_ℤ, arith, ◌<◌, drop, length, ltb, ltb→lt, tests, if◌then◌else◌,
}
use python_alsa_midi.Exceptions.{Error, Result, ok, err, check_alsa_error}
use python_alsa_midi.Stateful.{bind_to, ◌>>=◌, return}
use python_alsa_midi.Platform.{Platform}
use python_alsa_midi.Event.ToAlsa.{Overrides, Alsa}
use python_alsa_midi.Event.Codec.{Event, to_alsa}
use python_alsa_midi.Client.Session.{IoCall, Library, Client, get_event_parser}
use python_alsa_midi.Client.Output.{
  Remainder, midi_bytes_of, prepare_from, after_check, type_none, encode_piece, prepare_event,
  output_or_pending, after_round, event_output_direct_once, output_loop, event_output_direct,
}
use python_alsa_midi.Client.Output.Pieces.{length-drop_lt, Progresses, Piece, prepare_event-Piece}

-- The events that were handed to `snd_seq_event_output`.
abbrev pub outputs : {A : Type 0} → List (IoCall A) → ℕ
outputs [] = 0
outputs (IoCall.output a ∷ cs) = suc (outputs cs)
outputs (_ ∷ cs) = outputs cs

module _ (p : Platform) (l : Library (Alsa p)) where
  get_event_parser-outputs :
      (c : Client p l) → outputs (get_event_parser p l c).1.calls ≡ outputs c.calls
  unfolding get_event_parser check_alsa_error
  get_event_parser-outputs c = ground arith

  bind_to-outputs :
      {A B : Type 0} (m : Result A × Client p l) (f : A → Client p l → Result B × Client p l)
      (n : ℕ)
      → outputs m.1.calls ≡ n
      → ((a : A) → outputs (f a m.1).1.calls ≡ outputs m.1.calls)
      → outputs (bind_to m f).1.calls ≡ n
  bind_to-outputs (ok a, c) f n h k = k a ∙ h
  bind_to-outputs (err e, c) f n h k = h

  encode_piece-outputs :
      (a : Alsa p) (bs : List ℕ) (c : Client p l)
      → outputs (encode_piece p l a bs c).1.calls ≡ outputs c.calls
  unfolding encode_piece
  encode_piece-outputs a bs c =
      bind_to-outputs (get_event_parser p l c) _ (outputs c.calls) (get_event_parser-outputs c)
        (λ parser. refl)

  -- Preparing an event outputs nothing.
  prepare_from-outputs :
      (bytes : Option (List ℕ)) (e : Event) (o : Overrides) (rem : Remainder p l) (c : Client p l)
      → outputs (prepare_from p l bytes e o rem c).1.calls ≡ outputs c.calls
  prepare_from-outputs none e o rem c =
      bind_to-outputs (to_alsa p e o l.zeros, c) _ (outputs c.calls) refl (λ a. refl)
  prepare_from-outputs (some bs) e o none c =
      bind_to-outputs (to_alsa p e o l.zeros, c) _ (outputs c.calls) refl
        (λ a. encode_piece-outputs a bs c)
  prepare_from-outputs (some bs) e o (some r) c = encode_piece-outputs r.0 r.1 c

  prepare_event-outputs :
      (e : Event) (o : Overrides) (rem : Remainder p l) (c : Client p l)
      → outputs (prepare_event p l e o rem c).1.calls ≡ outputs c.calls
  unfolding prepare_event
  prepare_event-outputs e o rem c = prepare_from-outputs (midi_bytes_of e.payload) e o rem c

  -- After `n` outputs the last call gave the code: an output, which leaves no remainder, or that for the
  -- pending output.
  abbrev Ended : ℕ → ℤ → Remainder p l → Client p l → Type 0
  Ended n code rem c =
      (code ≡ l.answer c.calls)
      × (rest : List (IoCall (Alsa p))) × (outputs rest ≡ n)
      × (((a : Alsa p) × (c.calls ≡ IoCall.output a ∷ rest)
            × (eqb_ℤ a.type type_none ≡ false)
            × (rem ≡ none))
          ⊎ (c.calls ≡ IoCall.output_pending ∷ rest))

  abbrev Once : ℕ → Result (ℤ × Remainder p l) × Client p l → Type 0
  Once n (err e, c) = outputs c.calls ≡ n
  Once n (ok r, c) = Ended n r.0 r.1 c

  direct_round-Once :
      (m : Result (Alsa p × Remainder p l) × Client p l) (n : ℕ)
      → outputs m.1.calls ≡ n
      → Once n (
          bind_to m (λ r. output_or_pending p l r.0 >>= λ result.
          return (result, (if eqb_ℤ r.0.type type_none then r.1 else none))))
  direct_round-Once (err e, c) n h = h
  direct_round-Once (ok (a, rem), c) n h = elim (Bool-cases (eqb_ℤ a.type type_none)) [
    | inl t ↦ rw t (refl, c.calls, h, inr refl)
    | inr t ↦ rw t (refl, c.calls, h, inl (a, refl, t, refl))
  ]

  event_output_direct_once-Once :
      (e : Event) (o : Overrides) (rem : Remainder p l) (c : Client p l)
      → Once (outputs c.calls) (event_output_direct_once p l e o rem c)
  unfolding event_output_direct_once
  event_output_direct_once-Once e o rem c =
      direct_round-Once (prepare_event p l e o rem c) (outputs c.calls)
        (prepare_event-outputs e o rem c)

  -- What was called in the end: at most one output since there were `n`; and if a code is returned, it is
  -- that of the last call, which is the only output, of an event of any type but `NONE`, or else the call
  -- for the pending output, after none.
  abbrev pub Sent : ℕ → Option (Result ℤ × Client p l) → Type 0
  Sent n none = Unit
  Sent n (some (err e, c)) = outputs c.calls ≤ suc n
  Sent n (some (ok code, c)) =
      (code ≡ l.answer c.calls)
      × (rest : List (IoCall (Alsa p))) × (outputs rest ≡ n)
      × (((a : Alsa p) × (c.calls ≡ IoCall.output a ∷ rest) × (eqb_ℤ a.type type_none ≡ false))
          ⊎ (c.calls ≡ IoCall.output_pending ∷ rest))

  Ended-outputs :
      (n : ℕ) (code : ℤ) (rem : Remainder p l) (c : Client p l)
      → Ended n code rem c
      → outputs c.calls ≤ suc n
  Ended-outputs n code rem c (_, rest, k, inl (a, h, _, _)) = rw h (omega (arith, k))
  Ended-outputs n code rem c (_, rest, k, inr h) = rw h (omega (arith, k))

  Ended-Sent :
      (n : ℕ) (code : ℤ) (c : Client p l) → Ended n code none c → Sent n (some (ok code, c))
  Ended-Sent n code c (q, rest, k, inl (a, h, t, _)) = (q, rest, k, inl (a, h, t))
  Ended-Sent n code c (q, rest, k, inr h) = (q, rest, k, inr h)

  Ended-again :
      (n : ℕ) (code : ℤ) (r : Alsa p × List ℕ) (c : Client p l)
      → Ended n code (some r) c
      → outputs c.calls ≡ n
  Ended-again n code r c (_, rest, k, inl (a, h, _, over)) = absurd cc
  Ended-again n code r c (_, rest, k, inr h) = rw h k

  after_check-Sent :
      (u : Result (Unit {0})) (n : ℕ) (code : ℤ) (rem : Remainder p l) (c : Client p l)
      (again : Alsa p × List ℕ → Client p l → Option (Result ℤ × Client p l))
      → Ended n code rem c
      → ((r : Alsa p × List ℕ) (c : Client p l) → outputs c.calls ≡ n → Sent n (again r c))
      → Sent n (after_check p l u code rem c again)
  after_check-Sent (err e) n code rem c again h k = Ended-outputs n code rem c h
  after_check-Sent (ok _) n code none c again h k = Ended-Sent n code c h
  after_check-Sent (ok _) n code (some r) c again h k = k r c (Ended-again n code r c h)

  after_round-Sent :
      (m : Result (ℤ × Remainder p l) × Client p l) (n : ℕ)
      (again : Alsa p × List ℕ → Client p l → Option (Result ℤ × Client p l))
      → Once n m
      → ((r : Alsa p × List ℕ) (c : Client p l) → outputs c.calls ≡ n → Sent n (again r c))
      → Sent n (after_round p l m again)
  after_round-Sent (err e, c) n again h k = omega (arith, h)
  after_round-Sent (ok (code, rem), c) n again h k =
      after_check-Sent (check_alsa_error code) n code rem c again h k

  pub output_loop-Sent :
      (fuel : ℕ) (e : Event) (o : Overrides) (rem : Remainder p l) (c : Client p l) (n : ℕ)
      → outputs c.calls ≡ n
      → Sent n (output_loop p l (event_output_direct_once p l e o) fuel rem c)
  unfolding output_loop
  output_loop-Sent zero e o rem c n h = tt
  output_loop-Sent (suc fuel) e o rem c n h =
      after_round-Sent (event_output_direct_once p l e o rem c) n _
        (subst (λ n. Once n (event_output_direct_once p l e o rem c)) h
          (event_output_direct_once-Once e o rem c))
        (λ r c' h'. output_loop-Sent fuel e o (some r) c' n h')
