-- ===== src/Client/Output/Pieces.antt =====
-- One piece of the MIDI bytes of an event, in a round of `event_output` (alsa_midi/client.py).
use python_alsa_midi.Prelude.{
  ℕ, zero, suc, ◌+◌, ◌≤◌, ◌<◌, min, ◌≡◌, refl, sym, subst, eqb_ℤ, ap, ◌∙◌, ◌⊎◌, Bool-cases, inl,
  inr, none, some, List, [], ◌∷◌, ◌++◌, pos, negsuc, ltb, if◌then◌else◌, length, take, drop, arith,
}
use python_alsa_midi.Exceptions.{Error, Result, Result-cases, ok, err, check_alsa_error}
use python_alsa_midi.Stateful.{bind_to, bind_to-ok, bind_to-err}
use python_alsa_midi.Platform.{Platform}
use python_alsa_midi.Event.ToAlsa.{Overrides, Alsa}
use python_alsa_midi.Event.Codec.{Event, to_alsa}
use python_alsa_midi.Client.Session.{Encoded, IoCall, Library, Client, get_event_parser}
use python_alsa_midi.Client.Output.{
  slice_from, midi_bytes_of, Remainder, rest_of, encode_piece, prepare_event, output_piece,
  type_none,
}

-- The bytes that the encoder took, in the order of the calls.
abbrev pub taken : {A : Type 0} → List (IoCall A) → List ℕ
taken [] = []
taken (IoCall.encode bs n ∷ cs) = taken cs ++ (elim n [ pos k ↦ take k bs | negsuc _ ↦ [] ])
taken (_ ∷ cs) = taken cs

pub append-take-drop :
    (ts : List ℕ) (n : ℕ) (bs : List ℕ) → (ts ++ take n bs) ++ drop n bs ≡ ts ++ bs
append-take-drop [] zero bs = refl
append-take-drop [] (suc n) [] = refl
append-take-drop [] (suc n) (b ∷ bs) = ap (λ xs. b ∷ xs) (append-take-drop [] n bs)
append-take-drop (t ∷ ts) n bs = ap (λ xs. t ∷ xs) (append-take-drop ts n bs)

pub append-take_all :
    (ts : List ℕ) (n : ℕ) (bs : List ℕ) → length bs ≤ n → ts ++ take n bs ≡ ts ++ bs
append-take_all [] zero [] h = refl
append-take_all [] zero (b ∷ bs) h = elim h [ ]
append-take_all [] (suc n) [] h = refl
append-take_all [] (suc n) (b ∷ bs) h = ap (λ xs. b ∷ xs) (append-take_all [] n bs (omega arith))
append-take_all (t ∷ ts) n bs h = ap (λ xs. t ∷ xs) (append-take_all ts n bs h)

pub length-drop_lt :
    (n : ℕ) (bs : List ℕ) → 0 < n → n < length bs → length (drop n bs) + n ≡ length bs
length-drop_lt zero bs h k = elim h [ ]
length-drop_lt (suc zero) [] h k = elim k [ ]
length-drop_lt (suc (suc n)) [] h k = elim k [ ]
length-drop_lt (suc zero) (b ∷ bs) h k = omega arith
length-drop_lt (suc (suc n)) (b ∷ bs) h k =
    omega (arith, length-drop_lt (suc n) bs (omega arith) (omega arith))

module _ (p : Platform) (l : Library (Alsa p)) where
  -- The encoder takes some of the bytes that it is offered, at least one if there is one, and no more
  -- than there are.
  abbrev pub Progresses : Type 0
  Progresses =
      (parser : l.Parser) (bs : List ℕ) (a : Alsa p)
      → (n : ℕ) × ((l.encode parser bs a).processed ≡ pos n)
        × (n ≤ length bs)
        × (min (length bs) 1 ≤ n)

  -- One piece of the bytes `bs` after those of `ts`: an error, or a code and the bytes that are left.
  abbrev pub Piece :
      {A : Type 0} → Result (A × Remainder p l) × Client p l → List ℕ → List ℕ → Type 0
  Piece {A = A} m ts bs =
      ((e : Error) × (c : Client p l) × (m ≡ (err e, c)))
      ⊎ ((x : A) × (a : Alsa p) × (n : ℕ) × (c : Client p l) × (m
            ≡ (ok (x, if ltb n (length bs) then some (a, drop n bs) else none), c))
          × (n ≤ length bs)
          × (min (length bs) 1 ≤ n)
          × (taken c.calls ≡ ts ++ take n bs))

  get_event_parser-taken : (c : Client p l) → taken (get_event_parser p l c).1.calls ≡ taken c.calls
  unfolding get_event_parser check_alsa_error
  get_event_parser-taken c = ground arith

  rest_of-pos :
      (r : Encoded l.Parser (Alsa p)) (bs : List ℕ) (n : ℕ)
      → r.processed ≡ pos n
      → rest_of p l r bs ≡ (if ltb n (length bs) then some (r.event, drop n bs) else none)
  unfolding slice_from
  rest_of-pos r bs n h = ground arith

  module _ (progresses : Progresses) where
    encode_piece-Piece :
        (a : Alsa p) (bs : List ℕ) (c : Client p l)
        → Piece (encode_piece p l a bs c) (taken c.calls) bs
    unfolding encode_piece slice_from
    encode_piece-Piece a bs c = elim (Result-cases (get_event_parser p l c).0) [
      | inr (e, h) ↦ inl (e, (get_event_parser p l c).1, bind_to-err (get_event_parser p l c) _ h)
      | inl (parser, h) ↦
          let (n, processed, bound, some_of) = progresses parser bs a in
          let c' = record c {
            event_parser = some (l.encode parser bs a).parser;
            calls =
                IoCall.encode bs (l.encode parser bs a).processed
                ∷ (get_event_parser p l c).1.calls;
          } in
          inr (
            (l.encode parser bs a).event,
            (l.encode parser bs a).event,
            n,
            c',
            bind_to-ok (get_event_parser p l c) _ h
                ∙ ap (λ rem. (ok ((l.encode parser bs a).event, rem), c'))
                    (rest_of-pos (l.encode parser bs a) bs n processed),
            bound,
            some_of,
            (rw (processed, get_event_parser-taken c) refl),
          )
    ]

    pub prepare_event-Piece :
        (e : Event) (o : Overrides) (all : List ℕ) (rem : Remainder p l) (c : Client p l)
        → midi_bytes_of e.payload ≡ some all
        → Piece
            (prepare_event p l e o rem c)
            (taken c.calls)
            (elim rem [ none ↦ all | some r ↦ r.1 ])
    unfolding prepare_event
    prepare_event-Piece e o all none c h = elim (Result-cases (to_alsa p e o l.zeros)) [
      | inl (a, t) ↦ rw (h, t) (encode_piece-Piece a all c)
      | inr (x, t) ↦ inl (x, c, rw (h, t) refl)
    ]
    prepare_event-Piece e o all (some r) c h = rw h (encode_piece-Piece r.0 r.1 c)

  pub output-Piece :
      (m : Result (Alsa p × Remainder p l) × Client p l) (ts bs : List ℕ)
      → Piece m ts bs
      → Piece (bind_to m (output_piece p l)) ts bs
  output-Piece m ts bs (inl (e, c, h)) = inl (e, c, rw h refl)
  output-Piece m ts bs (inr (x, a, n, c, h, bound, some_of, t)) =
      let rem : Remainder p l = if ltb n (length bs) then some (a, drop n bs) else none in
      subst (λ m. Piece (bind_to m (output_piece p l)) ts bs) (sym h)
        (elim (Bool-cases (eqb_ℤ x.type type_none))
          as (λ _. Piece (output_piece p l (x, rem) c) ts bs) [
            | inl u ↦ rw u (inr (_, a, n, _, refl, bound, some_of, t))
            | inr u ↦ rw u (inr (_, a, n, _, refl, bound, some_of, t))
          ])
