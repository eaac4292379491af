-- ===== src/Client/Output/Bytes.antt =====
-- The MIDI bytes of an event that `event_output` (alsa_midi/client.py) sends.
use python_alsa_midi.Prelude.{
  true, ℕ, zero, suc, ◌<◌, ◌≡◌, refl, sym, subst, ◌∙◌, Bool-cases, inl, inr, Option, none, some,
  List, ◌++◌, ℤ, ltb, tests, ltb→lt, ltb→ge, length, take, drop, arith,
}
use python_alsa_midi.Exceptions.{Result, Result-cases, ok, err, check_alsa_error}
use python_alsa_midi.Platform.{Platform}
use python_alsa_midi.Event.ToAlsa.{Overrides, Alsa}
use python_alsa_midi.Event.Codec.{Event}
use python_alsa_midi.Client.Session.{Library, Client}
use python_alsa_midi.Client.Output.{
  midi_bytes_of, Remainder, event_output_once, output_loop, after_round, event_output,
}
use python_alsa_midi.Client.Output.Pieces.{
  taken, append-take-drop, append-take_all, length-drop_lt, Progresses, Piece, prepare_event-Piece,
  output-Piece,
}

module _ (p : Platform) (l : Library (Alsa p)) where
  -- The loop returns; if it returns a code, the encoder has taken just these bytes.
  abbrev pub Takes : Option (Result ℤ × Client p l) → List ℕ → Type 0
  Takes out bs =
      (r : Result ℤ) × (c : Client p l) × (out ≡ some (r, c))
      × ((code : ℤ) → r ≡ ok code → taken c.calls ≡ bs)

  after_round-Takes :
      (m : Result (ℤ × Remainder p l) × Client p l) (ts bs : List ℕ)
      (again : Alsa p × List ℕ → Client p l → Option (Result ℤ × Client p l))
      → Piece p l m ts bs
      → ((a : Alsa p) (n : ℕ) (c : Client p l)
          → 0 < n
          → n < length bs
          → taken c.calls ≡ ts ++ take n bs
          → Takes (again (a, drop n bs) c) (ts ++ bs))
      → Takes (after_round p l m again) (ts ++ bs)
  after_round-Takes m ts bs again (inl (e, c, h)) k = rw h (err e, c, refl, λ code i. cc)
  after_round-Takes m ts bs again (inr (x, a, n, c, h, bound, some_of, t)) k =
      elim (Result-cases (check_alsa_error x)) [
        | inr (e, u) ↦ rw (h, u) (err e, c, refl, λ code i. cc)
        | inl (_, u) ↦ elim (Bool-cases (ltb n (length bs))) [
          | inl small ↦ rw (h, u, small) (k a n c (omega tests) (ltb→lt n _ small) t)
          | inr large ↦
              rw (h, u, large)
                (
                  ok x,
                  c,
                  refl,
                  λ code i. t ∙ append-take_all ts n bs (omega (tests, ltb→ge n (length bs) large)),
                )
        ]
      ]

  module _ (progresses : Progresses p l) (e : Event) (o : Overrides) (all : List ℕ)
      (h : midi_bytes_of e.payload ≡ some all) where
    output_loop-Takes :
        (fuel : ℕ) (rem : Remainder p l) (c : Client p l)
        → length (elim rem [ none ↦ all | some r ↦ r.1 ]) < fuel
        → Takes
            (output_loop p l (event_output_once p l e o) fuel rem c)
            (taken c.calls ++ (elim rem [ none ↦ all | some r ↦ r.1 ]))
    unfolding output_loop event_output_once
    output_loop-Takes zero rem c lt = absurd (omega arith)
    output_loop-Takes (suc fuel) rem c lt =
        after_round-Takes _ _ _ _
          (output-Piece p l _ _ _ (prepare_event-Piece p l progresses e o all rem c h))
          (λ a n c' pos_n small t.
            let rest = drop n (elim rem [ none ↦ all | some r ↦ r.1 ]) in
            subst
              (λ bs.
                Takes (output_loop p l (event_output_once p l e o) fuel (some (a, rest)) c') bs)
              (rw t (append-take-drop (taken c.calls) n _))
              (output_loop-Takes fuel (some (a, rest)) c'
                (omega (arith, length-drop_lt n _ pos_n small))))

  outcome-injective :
      (r : Result ℤ) (c : Client p l) (r' : Result ℤ) (c' : Client p l)
      → Path (Option (Result ℤ × Client p l)) (some (r, c)) (some (r', c'))
      → (r ≡ r') × (c ≡ c')
  outcome-injective r c r' c' h = ground arith

  event_output-Takes :
      Progresses p l
      → (e : Event) (o : Overrides) (bs : List ℕ) (fuel : ℕ) (c : Client p l)
      → midi_bytes_of e.payload ≡ some bs
      → length bs < fuel
      → Takes (event_output p l true fuel e o c) (taken c.calls ++ bs)
  unfolding event_output
  event_output-Takes progresses e o bs fuel c h lt =
      output_loop-Takes progresses e o bs h fuel none c lt

  -- If the encoder makes progress, `event_output` of an open client ends for an event with MIDI bytes,
  -- with a code or an exception, after at most one round more than there are bytes.
  pub event_output-returns :
      Progresses p l
      → (e : Event) (o : Overrides) (bs : List ℕ) (fuel : ℕ) (c : Client p l)
      → midi_bytes_of e.payload ≡ some bs
      → length bs < fuel
      → (r : Result ℤ) × (c' : Client p l) × (event_output p l true fuel e o c ≡ some (r, c'))
  event_output-returns progresses e o bs fuel c h lt =
      let (r, c', returned, _) = event_output-Takes progresses e o bs fuel c h lt in
      (r, c', returned)

  -- If the encoder makes progress and `event_output` of an open client returns a code for an event with
  -- MIDI bytes, then the encoder has taken every byte of the event once and in their order.
  pub event_output-taken :
      Progresses p l
      → (e : Event) (o : Overrides) (bs : List ℕ) (fuel : ℕ) (c c' : Client p l) (code : ℤ)
      → midi_bytes_of e.payload ≡ some bs
      → length bs < fuel
      → event_output p l true fuel e o c ≡ some (ok code, c')
      → taken c'.calls ≡ taken c.calls ++ bs
  event_output-taken progresses e o bs fuel c c' code h lt run =
      let (r, d, returned, all) = event_output-Takes progresses e o bs fuel c h lt in
      let (r_eq, d_eq) = outcome-injective r d (ok code) c' (sym returned ∙ run) in
      rw d_eq at (all code r_eq)
