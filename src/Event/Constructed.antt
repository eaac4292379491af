-- ===== src/Event/Constructed.antt =====
-- What the constructors of events in alsa_midi/event.py let through.
use python_alsa_midi.Prelude.{◌&&◌, subst, ◌≡◌, ◌↔◌, Option, none, some, ℤ, pos, arith}
use python_alsa_midi.Exceptions.{ok, value_error, >>=-eq-ok, raise_if}
use python_alsa_midi.RealTime.{RealTime}
use python_alsa_midi.RealTime as RT
use python_alsa_midi.RealTime.Normal.{IsNormal, init-IsNormal}
use python_alsa_midi.EventType.{EventType}
use python_alsa_midi.Platform.{Platform}
use python_alsa_midi.Event.Header.{Header, Args, init, traverse, unpack, is_some}
use python_alsa_midi.Event.Payload.{Payload}
use python_alsa_midi.Event.Notes.{note_init, full_note_init}
use python_alsa_midi.Event.RoundTrip.Fields.{Is4bit, Is7bit}
use python_alsa_midi.Event.RoundTrip.Encode.{NotBoth, Given}

-- The constructor of notes accepts exactly the notes and velocities of 7 bits and channels of 4.
pub note_init-ok_iff :
    (n c v : ℤ) → (note_init n c v ≡ ok (Payload.note n c v)) ↔ (Is7bit n × Is4bit c × Is7bit v)
unfolding note_init
note_init-ok_iff n c v = ground arith

-- The constructor of `NoteEvent` accepts exactly the notes and velocities of 7 bits and channels of 4;
-- its duration is not checked.
pub full_note_init-ok_iff :
    (n c v t o : ℤ)
    → (full_note_init n c v t o ≡ ok (Payload.full_note n c v t o))
      ↔ (Is7bit n × Is4bit c × Is7bit v × Is7bit o)
unfolding full_note_init
full_note_init-ok_iff n c v t o = ground arith

abbrev OneTime : Option RealTime → Option ℤ → Type 0
OneTime time tick = NotBoth time tick × Given IsNormal time

module _ (p : Platform) where
  traverse-OneTime :
      (t : Option (RT.Seconds p.numbers.Float)) (tick : Option ℤ) {time : Option RealTime}
      → raise_if (is_some t && is_some tick) value_error ≡ ok tt
      → traverse (λ t. RT.init p.numbers t (pos 0)) t ≡ ok time
      → OneTime time tick
  traverse-OneTime none tick {time = time} g e =
      let same : none ≡ time = ground arith in subst (λ t. OneTime t tick) same (tt, tt)
  traverse-OneTime (some t) none {time = time} g e =
      let (r, made, e₁) = >>=-eq-ok (RT.init p.numbers t (pos 0)) (λ r. ok (some r)) e in
      let same : some r ≡ time = ground arith in
      subst (λ t. OneTime t none) same (tt, init-IsNormal p.numbers t (pos 0) made)
  traverse-OneTime (some t) (some k) g e = cc

  -- An event that the constructor returns has a normal time or a tick or neither, never both.
  pub init-one_time :
      (class_type : Option EventType) (args : Args p.numbers.Float) (h : Header)
      → init p class_type args ≡ ok h
      → NotBoth h.time h.tick × Given IsNormal h.time
  unfolding init
  init-one_time class_type args h e =
      let (_, g, e₁) =
        >>=-eq-ok (raise_if (is_some args.time && is_some args.tick) value_error) _ e in
      let (time, te, e₂) = >>=-eq-ok (traverse (λ t. RT.init p.numbers t (pos 0)) args.time) _ e₁ in
      let (source, _, e₃) = >>=-eq-ok (traverse unpack args.source) _ e₂ in
      let (dest, _, e₄) = >>=-eq-ok (traverse unpack args.dest) _ e₃ in
      let times : time ≡ h.time = ground arith in
      let ticks : args.tick ≡ h.tick = ground arith in
      rw (times, ticks) at (traverse-OneTime args.time args.tick g te)
