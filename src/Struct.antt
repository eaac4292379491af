-- ===== src/Struct.antt =====
-- `snd_seq_event_t` of alsa_midi/_ffi_defs.py: the C fields that the code reads and writes.
-- The memory of the union `data` belongs to cffi: it is the interface `Union`, whose laws say that a
-- value that fits is read back, that a write touches no field that lies elsewhere, and that what is read
-- fits. `Struct.Bytes`
-- builds it from bytes, at the offsets of the (packed) C declarations.
pub mod Bytes
pub mod Writes
use python_alsa_midi.Prelude.{
  ℕ, ◌+◌, ◌≤◌, ◌≡◌, ◌⊎◌, Bool, true, ◌&&◌, List, ℤ, pos, negsuc, leb_ℤ, length, if◌then◌else◌,
}
use python_alsa_midi.Exceptions.{Result, ok, err, overflow_error}

-- The scalar types: `unsigned char`, `unsigned int`, `signed int`, and a pointer.
pub data CType : Type 0 where
  u8 u32 i32 ptr : CType

-- The paths below `a_event.data`.
pub data Field : Type 0 where
  note_channel note_note note_velocity note_off_velocity note_duration : Field
  control_channel control_param control_value : Field
  ext_len ext_ptr : Field
  queue_queue queue_value queue_tick queue_tv_sec queue_tv_nsec queue_position : Field
  skew_value skew_base : Field
  addr_client addr_port : Field
  sender_client sender_port dest_client dest_port : Field
  result_event result_result : Field

unfoldable pub ctype : Field → CType
ctype note_duration = u32
ctype control_param = u32
ctype control_value = i32
ctype ext_len = u32
ctype ext_ptr = ptr
ctype queue_value = i32
ctype queue_tick = u32
ctype queue_tv_sec = u32
ctype queue_tv_nsec = u32
ctype queue_position = u32
ctype skew_value = u32
ctype skew_base = u32
ctype result_event = i32
ctype result_result = i32
ctype _ = u8

-- The offset in the union.
unfoldable pub offset : Field → ℕ
offset note_note = 1
offset note_velocity = 2
offset note_off_velocity = 3
offset note_duration = 4
offset control_param = 4
offset control_value = 8
offset ext_ptr = 4
offset queue_value = 4
offset queue_tick = 4
offset queue_tv_sec = 4
offset queue_tv_nsec = 8
offset queue_position = 4
offset skew_value = 4
offset skew_base = 8
offset addr_port = 1
offset sender_port = 1
offset dest_client = 2
offset dest_port = 3
offset result_result = 4
offset _ = 0

unfoldable pub size : CType → ℕ
size u8 = 1
size u32 = 4
size i32 = 4
size ptr = 8

abbrev pub IsDisjoint : Field → Field → Type 0
IsDisjoint f g = (offset f + size (ctype f) ≤ offset g) ⊎ (offset g + size (ctype g) ≤ offset f)

abbrev pub in_range : ℤ → ℤ → ℤ → Bool
in_range lo hi v = leb_ℤ lo v && leb_ℤ v hi

-- The values that cffi stores in a field; for any other it raises `OverflowError`.
unfoldable pub fits : CType → ℤ → Bool
fits u8 = in_range (pos 0) (pos 0xff)
fits u32 = in_range (pos 0) (pos 0xffff_ffff)
fits i32 = in_range (negsuc 0x7fff_ffff) (pos 0x7fff_ffff)
fits ptr = in_range (pos 0) (pos 0xffff_ffff_ffff_ffff)

-- An argument of a C function: cffi raises `OverflowError` where it does not fit its type, and
-- `TypeError` for `None`.
unfoldable pub argument : CType → ℤ → Result ℤ
argument t v = if fits t v then ok v else err overflow_error

-- The size of the union.
abbrev pub union_size : ℕ
union_size = 12

pub record Union : Type 1 where
  pub Data : Type 0
  -- fresh memory, as `ffi.new` gives it
  pub zeroed : Data
  pub get : Field → Data → ℤ
  pub set : Field → ℤ → Data → Data
  -- `bytes(ffi.buffer(…))`, and a write of bytes at the start of the buffer
  pub raw : Data → List ℕ
  pub put_raw : List ℕ → Data → Data
  pub get-set : (f : Field) (v : ℤ) (d : Data) → fits (ctype f) v ≡ true → get f (set f v d) ≡ v
  pub get-set_ne : (f g : Field) (v : ℤ) (d : Data) → IsDisjoint f g → get g (set f v d) ≡ get g d
  pub get-fits : (f : Field) (d : Data) → fits (ctype f) (get f d) ≡ true
  pub raw-put_raw : (bs : List ℕ) (d : Data) → length bs ≡ union_size → raw (put_raw bs d) ≡ bs

module _ (u : Union) where
  open u use {Data, set}

  -- `a_event.data.<field> = value`
  unfoldable pub assign : Field → ℤ → Data → Result Data
  unfolding fits ctype
  assign f v d = if fits (ctype f) v then ok (set f v d) else err overflow_error

-- The fields of the event outside the union. The union `time` holds a tick, or seconds and
-- nanoseconds, in two words; `time.tick` and `time.time.tv_sec` are the same word.
pub record AlsaEvent (D : Type 0) : Type 0 where
  pub type : ℤ
  pub flags : ℕ
  pub tag : ℤ
  pub queue : ℤ
  pub tick_or_sec : ℤ
  pub nsec : ℤ
  pub source_client : ℤ
  pub source_port : ℤ
  pub dest_client : ℤ
  pub dest_port : ℤ
  pub union : D

-- A value on its way into a field of the given type.
unfoldable pub checked : CType → ℤ → Result ℤ
unfolding fits
checked t v = if fits t v then ok v else err overflow_error
