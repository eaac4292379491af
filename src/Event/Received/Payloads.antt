-- ===== src/Event/Received/Payloads.antt =====
-- The structured data that `_from_alsa` of alsa_midi/event.py reads from any union.
use python_alsa_midi.Prelude.{◌≡◌, refl, subst, ◌<◌, ℤ, pos_part, arith}
use python_alsa_midi.Exceptions.{ok}
use python_alsa_midi.RealTime.{RealTime, normalise, billion}
use python_alsa_midi.RealTime.Normal.{IsNormal, normalise-ok}
use python_alsa_midi.Address.{new}
use python_alsa_midi.Struct.{Field, ctype, fits}
use python_alsa_midi.Platform.{Platform}
use python_alsa_midi.Event.Payload.{Payload}
use python_alsa_midi.Event.Notes.{note_init, full_note_init, note_from_alsa, full_note_from_alsa}
use python_alsa_midi.Event.Controls.{result_from_alsa, control_from_alsa, param_from_alsa}
use python_alsa_midi.Event.QueueControls.{
  control_queue_from_alsa, position_tick_from_alsa, position_time_from_alsa, tempo_from_alsa,
  skew_from_alsa, sync_position_from_alsa,
}
use python_alsa_midi.Event.Addresses.{address_from_alsa, connect_from_alsa}
use python_alsa_midi.Event.Class.{Base}
use python_alsa_midi.Event.Codec.{payload_from_alsa}
use python_alsa_midi.Event.RoundTrip.Fields.{Is4bit, Is7bit, IsByte, IsUint, IsEncodable}
use python_alsa_midi.Event.RoundTrip.Payloads.{base_of}
use python_alsa_midi.Event.Received.{IsInside}

-- What a constructor of notes let through.
note_init-checked :
    (n c v : ℤ) {x : Payload}
    → note_init n c v ≡ ok x
    → Is7bit n × Is4bit c × Is7bit v × (Payload.note n c v ≡ x)
unfolding note_init
note_init-checked n c v h = ground arith

full_note_init-checked :
    (n c v t o : ℤ) {x : Payload}
    → full_note_init n c v t o ≡ ok x
    → Is7bit n × Is4bit c × Is7bit v × Is7bit o × (Payload.full_note n c v t o ≡ x)
unfolding full_note_init
full_note_init-checked n c v t o h = ground arith

-- Two words that hold a normal time.
pub words-IsNormal :
    (s n : ℤ)
    → IsUint s
    → IsUint n
    → pos_part n < billion
    → IsNormal (record { seconds = s; nanoseconds = n })
unfolding fits
words-IsNormal s n hs hn lt = ground arith

module _ (p : Platform) where
  open p use {memory}
  open memory use {Data, get, get-fits}

  -- The data is what the class reads, and can be written again.
  abbrev IsRead : Base → Payload → Type 0
  IsRead b x = IsEncodable p x × (base_of x ≡ b)

  ok-IsRead : (b : Base) {y x : Payload} → ok y ≡ ok x → IsRead b y → IsRead b x
  ok-IsRead b h r = subst (IsRead b) (cc) r

  queue_fits : (d : Data) → IsByte (get Field.queue_queue d)
  unfolding ctype
  queue_fits d = get-fits Field.queue_queue d

  pub payload_from_alsa-IsRead :
      (b : Base) (d : Data) {x : Payload}
      → IsInside p b d
      → payload_from_alsa p b d ≡ ok x
      → IsEncodable p x × (base_of x ≡ b)
  unfolding payload_from_alsa base_of ctype result_from_alsa control_from_alsa param_from_alsa
      note_from_alsa full_note_from_alsa control_queue_from_alsa position_tick_from_alsa
      position_time_from_alsa tempo_from_alsa skew_from_alsa sync_position_from_alsa
      address_from_alsa connect_from_alsa new
  payload_from_alsa-IsRead Base.plain d i h = ok-IsRead Base.plain h (tt, refl)
  payload_from_alsa-IsRead Base.result d i h =
      ok-IsRead Base.result h
        ((get-fits Field.result_event d, get-fits Field.result_result d), refl)
  payload_from_alsa-IsRead Base.note d i h =
      let (n, c, v, e) =
        note_init-checked (get Field.note_note d) (get Field.note_channel d)
          (get Field.note_velocity d) h in
      subst (IsRead Base.note) e ((n, c, v), refl)
  payload_from_alsa-IsRead Base.full_note d i h =
      let (n, c, v, o, e) =
        full_note_init-checked (get Field.note_note d) (get Field.note_channel d)
          (get Field.note_velocity d) (get Field.note_duration d) (get Field.note_off_velocity d)
          h in
      subst (IsRead Base.full_note) e ((n, c, v, get-fits Field.note_duration d, o), refl)
  payload_from_alsa-IsRead Base.control d i h = ok-IsRead Base.control h (
    (
      get-fits Field.control_channel d,
      get-fits Field.control_param d,
      get-fits Field.control_value d,
    ),
    refl,
  )
  payload_from_alsa-IsRead Base.param d i h =
      ok-IsRead Base.param h
        ((get-fits Field.control_channel d, get-fits Field.control_value d), refl)
  payload_from_alsa-IsRead Base.queue_control d i h =
      ok-IsRead Base.queue_control h (queue_fits d, refl)
  payload_from_alsa-IsRead Base.position_tick d i h =
      ok-IsRead Base.position_tick h ((queue_fits d, get-fits Field.queue_tick d), refl)
  payload_from_alsa-IsRead Base.position_time d i h =
      let time : RealTime = record {
        seconds = get Field.queue_tv_sec d;
        nanoseconds = get Field.queue_tv_nsec d;
      } in
      let normal =
        words-IsNormal (get Field.queue_tv_sec d) (get Field.queue_tv_nsec d)
          (get-fits Field.queue_tv_sec d) (get-fits Field.queue_tv_nsec d) i in
      let made : normalise (get Field.queue_tv_sec d) (get Field.queue_tv_nsec d) ≡ ok time =
        normalise-ok time normal in
      ok-IsRead Base.position_time (rw (made, made) at h)
        ((queue_fits d, normal, get-fits Field.queue_tv_sec d), refl)
  payload_from_alsa-IsRead Base.tempo d i h =
      ok-IsRead Base.tempo h ((queue_fits d, get-fits Field.queue_value d), refl)
  payload_from_alsa-IsRead Base.skew d i h =
      ok-IsRead Base.skew h
        ((queue_fits d, get-fits Field.skew_value d, get-fits Field.skew_base d), refl)
  payload_from_alsa-IsRead Base.sync_position d i h =
      ok-IsRead Base.sync_position h ((queue_fits d, get-fits Field.queue_position d), refl)
  payload_from_alsa-IsRead Base.address d i h =
      ok-IsRead Base.address h ((get-fits Field.addr_client d, get-fits Field.addr_port d), refl)
  payload_from_alsa-IsRead Base.connect d i h = ok-IsRead Base.connect h (
    (
      (get-fits Field.sender_client d, get-fits Field.sender_port d),
      (get-fits Field.dest_client d, get-fits Field.dest_port d),
    ),
    refl,
  )
  payload_from_alsa-IsRead Base.external d i h = absurd i
  payload_from_alsa-IsRead Base.midi_bytes d i h = cc
