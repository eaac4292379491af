-- ===== src/Port/Info.antt =====
-- `PortInfo` of alsa_midi/port.py and its conversions. The C object is reached by its getters and
-- setters only: it is the record of what they hold.
use python_alsa_midi.Prelude.{
  ℕ, ◌≡◌, ◌∙◌, sym, inl, inr, Bool, Bool-cases, true, false, Option, none, some, String, ℤ, pos,
  eqb_ℤ, arith,
}
use python_alsa_midi.Exceptions.{Result, ok, ◌>>=◌}
use python_alsa_midi.Struct.{CType, u8, u32, i32, fits, argument}

pub record PortInfo : Type 0 where
  pub client_id : ℤ
  pub port_id : Option ℤ
  pub name : String
  pub capability : ℕ
  pub type : ℕ
  pub midi_channels : ℤ
  pub midi_voices : ℤ
  pub synth_voices : ℤ
  pub read_use : ℤ
  pub write_use : ℤ
  pub timestamping : Bool
  pub timestamp_real : Bool
  pub timestamp_queue_id : ℤ
  pub client_name : Option String

-- `snd_seq_port_info_t`
pub record AlsaPortInfo : Type 0 where
  pub client : ℤ
  pub port : ℤ
  pub name : String
  pub capability : ℕ
  pub type : ℕ
  pub midi_channels : ℤ
  pub midi_voices : ℤ
  pub synth_voices : ℤ
  pub read_use : ℤ
  pub write_use : ℤ
  pub port_specified : ℤ
  pub timestamping : ℤ
  pub timestamp_real : ℤ
  pub timestamp_queue : ℤ

-- `__post_init__`: a port that is said not to be specified has no id.
unfoldable pub post_init : Option Bool → PortInfo → PortInfo
post_init (some false) info = record info { port_id = none }
post_init _ info = info

unfoldable pub from_alsa : AlsaPortInfo → PortInfo
unfolding post_init
from_alsa a = post_init none (record {
  client_id = a.client;
  port_id = some a.port;
  name = a.name;
  capability = a.capability;
  type = a.type;
  midi_channels = a.midi_channels;
  midi_voices = a.midi_voices;
  synth_voices = a.synth_voices;
  read_use = a.read_use;
  write_use = a.write_use;
  timestamping = eqb_ℤ a.timestamping (pos 1);
  timestamp_real = eqb_ℤ a.timestamp_real (pos 1);
  timestamp_queue_id = a.timestamp_queue;
  client_name = none;
})

-- A Python bool as a C int.
unfoldable pub of_bool : Bool → ℤ
of_bool true = pos 1
of_bool false = pos 0

abbrev pub is_some {ℓ} : {A : Type ℓ} → Option A → Bool
is_some none = false
is_some (some _) = true

abbrev pub get_or {ℓ} : {A : Type ℓ} → Option A → A → A
get_or none d = d
get_or (some a) d = a

-- The setters applied to a fresh object; `read_use` and `write_use` have none. cffi raises `OverflowError`
-- for a number that is not a C int, and `kept_id` is what ALSA keeps of the id of a client or a port.
unfoldable pub to_alsa : (ℤ → ℤ) → PortInfo → AlsaPortInfo → Result AlsaPortInfo
unfolding argument of_bool
to_alsa kept_id i fresh = do
  client ← argument i32 i.client_id
  port ← argument i32 (get_or i.port_id (pos 0))
  _ ← argument u32 (pos i.capability)
  _ ← argument u32 (pos i.type)
  midi_channels ← argument i32 i.midi_channels
  midi_voices ← argument i32 i.midi_voices
  synth_voices ← argument i32 i.synth_voices
  timestamp_queue ← argument i32 i.timestamp_queue_id
  ok (record fresh {
    client = kept_id client;
    port = kept_id port;
    name = i.name;
    capability = i.capability;
    type = i.type;
    midi_channels = midi_channels;
    midi_voices = midi_voices;
    synth_voices = synth_voices;
    port_specified = of_bool (is_some i.port_id);
    timestamping = of_bool i.timestamping;
    timestamp_real = of_bool i.timestamp_real;
    timestamp_queue = timestamp_queue;
  })

-- What came through the check of an argument goes on with it.
argument-then :
    {A : Type 0} (t : CType) (v : ℤ) (k : ℤ → Result A) {a : A}
    → (argument t v >>= k) ≡ ok a
    → k v ≡ ok a
unfolding argument
argument-then t v k h = elim (Bool-cases (fits t v)) [
  | inl e ↦ rw e at h
  | inr e ↦ absurd (let raised = rw e at h in ground (arith, raised))
]

to_alsa-ok : {a b : AlsaPortInfo} → ok a ≡ ok b → from_alsa a ≡ from_alsa b
to_alsa-ok h = cc

pub from_alsa-to_alsa :
    (kept_id : ℤ → ℤ) (i : PortInfo) (fresh a : AlsaPortInfo)
    → ((v : ℤ) → fits u8 v ≡ true → kept_id v ≡ v)
    → fits u8 i.client_id ≡ true
    → fits u8 (get_or i.port_id (pos 0)) ≡ true
    → to_alsa kept_id i fresh ≡ ok a
    → from_alsa a ≡ record i {
      port_id = some (get_or i.port_id (pos 0));
      read_use = fresh.read_use;
      write_use = fresh.write_use;
      client_name = none;
    }
unfolding from_alsa to_alsa
from_alsa-to_alsa kept_id i fresh a keeps client port h =
    let h₁ = argument-then i32 i.client_id _ h in
    let h₂ = argument-then i32 (get_or i.port_id (pos 0)) _ h₁ in
    let h₃ = argument-then u32 (pos i.capability) _ h₂ in
    let h₄ = argument-then u32 (pos i.type) _ h₃ in
    let h₅ = argument-then i32 i.midi_channels _ h₄ in
    let h₆ = argument-then i32 i.midi_voices _ h₅ in
    let h₇ = argument-then i32 i.synth_voices _ h₆ in
    let h₈ = argument-then i32 i.timestamp_queue_id _ h₇ in
    let c = keeps i.client_id client in
    let p = keeps (get_or i.port_id (pos 0)) port in sym (to_alsa-ok h₈) ∙ ground (arith, c, p)
