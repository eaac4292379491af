-- ===== src/Event/Header.antt =====
-- The attributes of `Event` (alsa_midi/event.py) and its constructor.
use python_alsa_midi.Prelude.{ℕ, Bool, true, false, ◌&&◌, Option, none, some, List, [], ◌∷◌, ℤ, pos}
use python_alsa_midi.Exceptions.{Result, ok, err, value_error, type_error, ◌>>=◌, ◌>>◌, raise_if}
use python_alsa_midi.RealTime.{RealTime, Numbers, Seconds}
use python_alsa_midi.RealTime as RT
use python_alsa_midi.Address.{Address}
use python_alsa_midi.EventType.{EventType}
use python_alsa_midi.Platform.{Platform}

-- `flags` is `none` where the attribute was never set.
pub record Header : Type 0 where
  pub type : Option EventType
  pub flags : Option ℕ
  pub tag : ℤ
  pub queue_id : Option ℤ
  pub time : Option RealTime
  pub tick : Option ℤ
  pub source : Option Address
  pub dest : Option Address
  pub relative : Option Bool
  pub raw_data : Option (List ℕ)

-- What `source` and `dest` are given as: an `Address`, a tuple, or an object that cannot be
-- unpacked, as a `Port` or a `PortInfo`.
pub data Endpoint : Type 0 where
  address : Address → Endpoint
  tuple : List (Option ℤ) → Endpoint
  object : Endpoint

-- The arguments of the constructor.
pub record Args (F : Type 0) : Type 0 where
  pub type : Option EventType
  pub flags : Option ℕ
  pub tag : ℤ
  pub queue_id : Option ℤ
  pub time : Option (Seconds F)
  pub tick : Option ℤ
  pub source : Option Endpoint
  pub dest : Option Endpoint
  pub relative : Option Bool
  pub raw_data : Option (List ℕ)

-- The defaults of the keyword arguments.
abbrev pub default_args : {F : Type 0} → Args F
default_args = record {
  type = none;
  flags = some 0;
  tag = pos 0;
  queue_id = none;
  time = none;
  tick = none;
  source = none;
  dest = none;
  relative = none;
  raw_data = none;
}

abbrev pub is_some {ℓ} : {A : Type ℓ} → Option A → Bool
is_some none = false
is_some (some _) = true

-- An optional value on its way through a fallible conversion.
abbrev pub traverse {ℓ κ} :
    {A : Type ℓ} {B : Type κ} → (A → Result B) → Option A → Result (Option B)
traverse f none = ok none
traverse f (some a) = f a >>= λ b. ok (some b)

-- `Address(*endpoint)`
unfoldable pub unpack : Endpoint → Result Address
unpack (address a) = ok a
unpack (tuple (some c ∷ [])) = ok (record { client_id = c; port_id = pos 0 })
unpack (tuple (some c ∷ some p ∷ [])) = ok (record { client_id = c; port_id = p })
unpack (tuple _) = err type_error
unpack object = err type_error

-- `type` of the class where the argument is missing.
unfoldable pub chosen_type : Option EventType → Option EventType → Option EventType
chosen_type class_type none = class_type
chosen_type class_type (some t) = some t

module _ (p : Platform) where
  -- `Event.__init__`, of a class with the given `type`
  unfoldable pub init : Option EventType → Args p.numbers.Float → Result Header
  unfolding unpack chosen_type
  init class_type args = do
    raise_if (is_some args.time && is_some args.tick) value_error
    time ← traverse (λ t. RT.init p.numbers t (pos 0)) args.time
    source ← traverse unpack args.source
    dest ← traverse unpack args.dest
    ok (record {
      type = chosen_type class_type args.type;
      flags = args.flags;
      tag = args.tag;
      queue_id = args.queue_id;
      time = time;
      tick = args.tick;
      source = source;
      dest = dest;
      relative = args.relative;
      raw_data = args.raw_data;
    })
