-- ===== src/Client/Input/Timeouts.antt =====
-- Timeouts of the waiting inputs of alsa_midi/client.py: what happens to events when one is over.
use python_alsa_midi.Prelude.{
  ℕ, take, ◌≡◌, ◌&&◌, pos_part, ◌∙◌, ap, sym, subst, refl, Bool, true, false, Bool-cases, inl, inr,
  Option, none, some, List, ◌∷◌, ℤ, pos, ltb_ℤ, eqb_ℤ, arith, length,
}
use python_alsa_midi.Exceptions.{Result, ok, err}
use python_alsa_midi.Stateful.{Act, lift, return, bind_to, ◌>>=◌}
use python_alsa_midi.Platform.{Platform}
use python_alsa_midi.Event.ToAlsa.{Alsa}
use python_alsa_midi.Event.Codec.{Event, from_alsa, midi_bytes_from_alsa}
use python_alsa_midi.EventType.{is_midi_bytes}
use python_alsa_midi.Event.Class.{class_for}
use python_alsa_midi.Client.Session.{IoCall, Library, Client, get_event_parser}
use python_alsa_midi.Client.Input.{room, Received, decode_bytes, decode_event, event_input_once}
use python_alsa_midi.Client.Input.Frees.{frees, event_input_once-frees}
use python_alsa_midi.Client.Waiting.{eagain, is_final, Tried}
use python_alsa_midi.Client.Waiting.Loop.{wait_for}
use python_alsa_midi.Client.Waiting.Loop.Counts.{wait_for-count}
use python_alsa_midi.Client.Waiting.Blocking.{clock, poll}
use python_alsa_midi.Client.Waiting.Attempts.{input_attempt, received}

module _ (p : Platform) (l : Library (Alsa p))
    (decodes : (parser : l.Parser) (room : ℤ) (a : Alsa p)
      → eqb_ℤ (l.decode parser room a).count eagain ≡ false) where
  -- A result that is not `-EAGAIN`
  abbrev Decided : Result (Received p l) → Type 0
  Decided (ok r) = eqb_ℤ r.0 eagain ≡ false
  Decided (err e) = Unit

  bind_to-Decided :
      {A : Type 0} (m : Result A × Client p l) (f : A → Act (Client p l) (Received p l))
      → ((a : A) (s : Client p l) → Decided (f a s).0)
      → Decided (bind_to m f).0
  bind_to-Decided (ok a, s) f k = k a s
  bind_to-Decided (err e, s) f k = tt

  lift-Decided :
      {A : Type 0} (r : Result A) (g : A → Received p l) (s : Client p l)
      → ((a : A) → eqb_ℤ (g a).0 eagain ≡ false)
      → Decided ((lift r >>= λ a. return (g a)) s).0
  lift-Decided (ok a) g s k = k a
  lift-Decided (err e) g s k = tt

  decode_bytes-Decided :
      (a : Alsa p) (code : ℤ) (c : Client p l)
      → eqb_ℤ code eagain ≡ false
      → Decided (decode_bytes p l a code c).0
  unfolding decode_bytes
  decode_bytes-Decided a code c h = bind_to-Decided (get_event_parser p l c) _ (λ parser s.
      elim (Bool-cases (ltb_ℤ (l.decode parser (room p l a) a).count (pos 0))) [
        | inl t ↦ rw t (decodes parser (room p l a) a)
        | inr f ↦ rw f (
            lift-Decided
              (midi_bytes_from_alsa p
                (take (pos_part (l.decode parser (room p l a) a).count)
                  (l.decode parser (room p l a) a).bytes)
                a)
              _ _ (λ e. h))
      ])

  decode_event-Decided :
      (b : Bool) (a : Alsa p) (code : ℤ) (c : Client p l)
      → eqb_ℤ code eagain ≡ false
      → Decided (decode_event p l b a code c).0
  unfolding decode_event
  decode_event-Decided b a code c h = elim (Bool-cases (b && is_midi_bytes (pos_part a.type))) [
    | inl t ↦ rw t (decode_bytes-Decided a code c h)
    | inr f ↦ rw f (lift-Decided (from_alsa p (class_for (pos_part a.type)) a) _ c (λ e. h))
  ]

  not_negative : (code : ℤ) → ltb_ℤ code (pos 0) ≡ false → eqb_ℤ code eagain ≡ false
  not_negative code h = ground (arith, h)

  once-Decided :
      (b : Bool) (c : Client p l)
      → ltb_ℤ (l.answer (IoCall.input ∷ c.calls)) (pos 0) ≡ false
      → Decided (event_input_once p l b c).0
  unfolding event_input_once
  once-Decided b c h = rw h (
      decode_event-Decided b (l.event (IoCall.input ∷ c.calls)) (l.answer (IoCall.input ∷ c.calls))
        (record c { calls = IoCall.input ∷ c.calls })
        (not_negative (l.answer (IoCall.input ∷ c.calls)) h))

  -- After an attempt
  after-once :
      (m : Result (Received p l) × Client p l) (t : Tried (Unit {0}) (Option Event))
      (c : Client p l)
      → bind_to m (λ r. return (received p l r)) ≡ (ok t, c)
      → is_final t.code t.remainder ≡ false
      → Decided m.0
      → ⊥
  after-once (err e, s) t c h f d = cc
  after-once (ok r, s) t c h f d =
      let q : received p l r ≡ t = cc in
      let final : is_final (received p l r).code (received p l r).remainder ≡ true =
        ground (arith, d) in
      let final' : is_final t.code t.remainder ≡ true =
        subst (λ (t' : Tried (Unit {0}) (Option Event)). is_final t'.code t'.remainder ≡ true) q
          final in
      cc

  after-state :
      (m : Result (Received p l) × Client p l) (t : Tried (Unit {0}) (Option Event))
      (c : Client p l)
      → bind_to m (λ r. return (received p l r)) ≡ (ok t, c)
      → m.1 ≡ c
  after-state (err e, s) t c h = cc
  after-state (ok r, s) t c h = cc

  attempt-frees :
      (b : Bool) (rem : Option (Unit {0})) (c c' : Client p l) (t : Tried (Unit {0}) (Option Event))
      → input_attempt p l b rem c ≡ (ok t, c')
      → is_final t.code t.remainder ≡ false
      → length (frees c'.calls) ≡ length (frees c.calls)
  unfolding input_attempt
  attempt-frees b rem c c' t h f =
      elim (Bool-cases (ltb_ℤ (l.answer (IoCall.input ∷ c.calls)) (pos 0))) [
        | inl n ↦
            let freed : frees (event_input_once p l b c).1.calls ≡ frees c.calls =
              event_input_once-frees p l b c ∙ rw n refl in
            ap (λ (s : Client p l). length (frees s.calls))
              (sym (after-state (event_input_once p l b c) t c' h))
            ∙ ap length freed
        | inr n ↦ absurd (after-once (event_input_once p l b c) t c' h f (once-Decided b c n))
      ]

  -- The same for `SequencerClient`: a wait for input that ends with its timeout has taken no event from
  -- the sequencer, with any clock and any fuel.
  pub wait_for-timeout :
      (time : List (IoCall (Alsa p)) → ℤ) (b : Bool) (limit : Option ℤ) (fuel : ℕ)
      (c c' : Client p l)
      → wait_for (input_attempt p l b) (clock p l time) (poll p l time) limit fuel c
        ≡ some (ok none, c')
      → length (frees c'.calls) ≡ length (frees c.calls)
  unfolding frees
  wait_for-timeout time b limit fuel c c' h =
      wait_for-count (input_attempt p l b) (clock p l time) (poll p l time)
        (λ (c : Client p l). length (frees c.calls)) (attempt-frees b) (λ c. refl) limit fuel c c' h
