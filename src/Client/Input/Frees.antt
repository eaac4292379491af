-- ===== src/Client/Input/Frees.antt =====
-- The events that ALSA lends to `_event_input` (alsa_midi/client.py), and their return.
use python_alsa_midi.Prelude.{
  take, ◌≡◌, ◌&&◌, pos_part, ◌∙◌, ap, refl, Bool, Bool-cases, inl, inr, Option, none, some, List,
  [], ◌∷◌, ℤ, pos, ltb_ℤ, if◌then◌else◌,
}
use python_alsa_midi.Exceptions.{Result, Result-cases, ok, err, check_alsa_error}
use python_alsa_midi.Stateful.{Act, lift, return, bind_to, ◌>>=◌}
use python_alsa_midi.Platform.{Platform}
use python_alsa_midi.Event.ToAlsa.{Alsa}
use python_alsa_midi.Event.Codec.{from_alsa, midi_bytes_from_alsa}
use python_alsa_midi.EventType.{is_midi_bytes}
use python_alsa_midi.Event.Class.{class_for}
use python_alsa_midi.Client.Session.{IoCall, Library, Client, get_event_parser, parser_from}
use python_alsa_midi.Client.Input.{room, decode_bytes, decode_event, event_input_once}

-- The events given back so far, newest first.
unfoldable pub frees : {A : Type 0} → List (IoCall A) → List A
frees [] = []
frees (IoCall.free_event a ∷ calls) = a ∷ frees calls
frees (_ ∷ calls) = frees calls

module _ {S A B : Type 0} (r : Result A) (f : A → B) (s : S) where
  -- A step that only computes leaves the state.
  lift-state : ((lift r >>= λ a. return (f a)) s).1 ≡ s
  lift-state = elim (Result-cases r) [ inl (a, h) ↦ rw h refl | inr (e, h) ↦ rw h refl ]

module _ (p : Platform) (l : Library (Alsa p)) where
  -- A property of the state that both steps keep is kept by their sequence.
  bind_to-frees :
      {A B : Type 0} (m : Result A × Client p l) (f : A → Act (Client p l) B) (n : List (Alsa p))
      → frees m.1.calls ≡ n
      → ((a : A) (s : Client p l) → frees s.calls ≡ n → frees (f a s).1.calls ≡ n)
      → frees (bind_to m f).1.calls ≡ n
  bind_to-frees (ok a, s) f n h k = k a s h
  bind_to-frees (err e, s) f n h k = h

  parser_from-frees :
      (m : Option l.Parser) (c : Client p l) → frees (parser_from p l m c).1.calls ≡ frees c.calls
  unfolding frees
  parser_from-frees (some parser) c = refl
  parser_from-frees none c =
      elim (Result-cases (check_alsa_error (l.answer (IoCall.event_new ∷ c.calls)))) [
        | inl (a, h) ↦ rw h refl
        | inr (e, h) ↦ rw h refl
      ]

  decode_bytes-frees :
      (a : Alsa p) (code : ℤ) (c : Client p l)
      → frees (decode_bytes p l a code c).1.calls ≡ frees c.calls
  unfolding decode_bytes get_event_parser frees
  decode_bytes-frees a code c =
      bind_to-frees (parser_from p l c.event_parser c) _ (frees c.calls)
        (parser_from-frees c.event_parser c)
        (λ parser s h. elim (Bool-cases (ltb_ℤ (l.decode parser (room p l a) a).count (pos 0))) [
          | inl t ↦ rw t h
          | inr f ↦ rw f (
              ap (λ (s' : Client p l). frees s'.calls)
                (lift-state
                  (midi_bytes_from_alsa p
                    (take (pos_part (l.decode parser (room p l a) a).count)
                      (l.decode parser (room p l a) a).bytes)
                    a)
                  (λ e. (code, some e))
                  (record {
                    event_parser = some (l.decode parser (room p l a) a).parser;
                    calls = IoCall.decode (room p l a) ∷ s.calls;
                  }))
              ∙ h)
        ])

  decode_event-frees :
      (b : Bool) (a : Alsa p) (code : ℤ) (c : Client p l)
      → frees (decode_event p l b a code c).1.calls ≡ frees c.calls
  unfolding decode_event
  decode_event-frees b a code c = elim (Bool-cases (b && is_midi_bytes (pos_part a.type))) [
    | inl t ↦ rw t (decode_bytes-frees a code c)
    | inr f ↦ rw f (
        ap (λ (s : Client p l). frees s.calls)
          (lift-state (from_alsa p (class_for (pos_part a.type)) a) (λ e. (code, some e)) c))
  ]

  -- Every event that ALSA lends is given back exactly once, whatever its decoding does, an exception
  -- included; without an event nothing is given back.
  pub event_input_once-frees :
      (b : Bool) (c : Client p l)
      → frees (event_input_once p l b c).1.calls ≡ (
          if ltb_ℤ (l.answer (IoCall.input ∷ c.calls)) (pos 0)
          then frees c.calls
          else (l.event (IoCall.input ∷ c.calls) ∷ frees c.calls))
  unfolding event_input_once frees
  event_input_once-frees b c =
      elim (Bool-cases (ltb_ℤ (l.answer (IoCall.input ∷ c.calls)) (pos 0))) [
        | inl t ↦ rw t refl
        | inr f ↦ rw f (
            ap (λ es. l.event (IoCall.input ∷ c.calls) ∷ es)
              (decode_event-frees b (l.event (IoCall.input ∷ c.calls))
                (l.answer (IoCall.input ∷ c.calls)) (record c { calls = IoCall.input ∷ c.calls })))
      ]
