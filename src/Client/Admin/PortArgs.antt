-- ===== src/Client/Admin/PortArgs.antt =====
-- The arguments of `create_port` (alsa_midi/client.py), and the structure that it makes of them.
use python_alsa_midi.Prelude.{
  ℕ, ◌≡◌, ◌∙◌, sym, ap, Bool, ◌||◌, not, Option, none, some, String, ℤ, pos, arith, if◌then◌else◌,
}
use python_alsa_midi.Exceptions.{Result, ok, ◌>>=◌, >>=-eq-ok}
use python_alsa_midi.Struct.{i32, u32}
use python_alsa_midi.Port.Info.{AlsaPortInfo, of_bool, get_or, is_some}
use python_alsa_midi.Handle.{argument, id_argument}

-- `timestamp_queue`: an id, or a queue object by its `queue_id`
pub data QueueRef : Type 0 where
  by_id : ℤ → QueueRef
  by_object : Option ℤ → QueueRef

-- The keyword arguments
pub record PortArgs : Type 0 where
  pub port_id : Option ℤ
  pub midi_channels : Option ℤ
  pub midi_voices : Option ℤ
  pub synth_voices : Option ℤ
  pub timestamping : Option Bool
  pub timestamp_real : Option Bool
  pub timestamp_queue : Option QueueRef

-- `all(x is None for x in extra)`
unfoldable pub is_plain : PortArgs → Bool
is_plain a = not (
    is_some a.port_id
    || is_some a.midi_channels
    || is_some a.midi_voices
    || is_some a.synth_voices
    || is_some a.timestamping
    || is_some a.timestamp_real
    || is_some a.timestamp_queue)

-- An argument that is given, as a C int; else what the structure holds.
abbrev pub int_or : Option ℤ → ℤ → Result ℤ
int_or none old = ok old
int_or (some v) old = argument i32 v

abbrev pub bool_or : Option Bool → ℤ → ℤ
bool_or none old = old
bool_or (some b) old = of_bool b

abbrev pub queue_or : Option QueueRef → ℤ → Result ℤ
queue_or none old = ok old
queue_or (some (by_id k)) old = argument i32 k
queue_or (some (by_object k)) old = id_argument k

unfoldable pub fill : String → ℕ → ℕ → PortArgs → AlsaPortInfo → Result AlsaPortInfo
unfolding argument id_argument of_bool
fill name caps type a fresh = do
  _ ← argument u32 (pos caps)
  _ ← argument u32 (pos type)
  port ← int_or a.port_id fresh.port
  midi_channels ← int_or a.midi_channels fresh.midi_channels
  midi_voices ← int_or a.midi_voices fresh.midi_voices
  synth_voices ← int_or a.synth_voices fresh.synth_voices
  queue ← queue_or a.timestamp_queue fresh.timestamp_queue
  ok (record fresh {
    port = port;
    name = name;
    capability = caps;
    type = type;
    midi_channels = midi_channels;
    midi_voices = midi_voices;
    synth_voices = synth_voices;
    port_specified = if is_some a.port_id then pos 1 else fresh.port_specified;
    timestamping = bool_or a.timestamping fresh.timestamping;
    timestamp_real = bool_or a.timestamp_real fresh.timestamp_real;
    timestamp_queue = queue;
  })

ok-inj : {A : Type 0} {a b : A} → ok a ≡ ok b → a ≡ b
ok-inj h = cc

argument-ok : (v w : ℤ) → argument i32 v ≡ ok w → w ≡ v
unfolding argument
argument-ok v w h = ground (arith, h)

int_or-ok : (o : Option ℤ) (old v : ℤ) → int_or o old ≡ ok v → v ≡ get_or o old
int_or-ok none old v h = cc
int_or-ok (some w) old v h = argument-ok w v h

-- The structure has the arguments that are given, the port being specified if its id is, and what a
-- fresh one has for the others.
pub fill-ok :
    (name : String) (caps type : ℕ) (a : PortArgs) (fresh i : AlsaPortInfo)
    → fill name caps type a fresh ≡ ok i
    → (i.name ≡ name)
      × (i.capability ≡ caps)
      × (i.type ≡ type)
      × (i.port ≡ get_or a.port_id fresh.port)
      × (i.port_specified ≡ (if is_some a.port_id then pos 1 else fresh.port_specified))
      × (i.midi_channels ≡ get_or a.midi_channels fresh.midi_channels)
unfolding fill
fill-ok name caps type a fresh i h =
    let (_, _, h₁) = >>=-eq-ok (argument u32 (pos caps)) _ h in
    let (_, _, h₂) = >>=-eq-ok (argument u32 (pos type)) _ h₁ in
    let (port, e, h₃) = >>=-eq-ok (int_or a.port_id fresh.port) _ h₂ in
    let (channels, e', h₄) = >>=-eq-ok (int_or a.midi_channels fresh.midi_channels) _ h₃ in
    let (_, _, h₅) = >>=-eq-ok (int_or a.midi_voices fresh.midi_voices) _ h₄ in
    let (_, _, h₆) = >>=-eq-ok (int_or a.synth_voices fresh.synth_voices) _ h₅ in
    let (_, _, h₇) = >>=-eq-ok (queue_or a.timestamp_queue fresh.timestamp_queue) _ h₆ in
    let made = ok-inj h₇ in
    (
      ap (λ (i : AlsaPortInfo). i.name) (sym made),
      ap (λ (i : AlsaPortInfo). i.capability) (sym made),
      ap (λ (i : AlsaPortInfo). i.type) (sym made),
      ap (λ (i : AlsaPortInfo). i.port) (sym made) ∙ int_or-ok a.port_id fresh.port port e,
      ap (λ (i : AlsaPortInfo). i.port_specified) (sym made),
      ap (λ (i : AlsaPortInfo). i.midi_channels) (sym made)
          ∙ int_or-ok a.midi_channels fresh.midi_channels channels e',
    )
