-- ===== src/Struct/Bytes.antt =====
-- The union `data` of alsa_midi/_ffi_defs.py as little-endian bytes at the declared offsets.
use python_alsa_midi.Prelude.{
  ℕ, zero, suc, ◌+◌, ◌-◌, ◌*◌, ◌/◌, ◌%◌, ◌≤◌, ◌<◌, ◌≡◌, refl, ◌⊎◌, true, List, [], ◌∷◌, ℤ, pos,
  negsuc, ◌==◌, length, leb, arith, if◌then◌else◌,
}
use python_alsa_midi.Struct.{
  CType, u8, u32, i32, ptr, Field, ctype, offset, size, IsDisjoint, fits, union_size, Union,
}

abbrev pub Memory : Type 0
Memory = ℕ → ℕ

store : ℕ → ℕ → Memory → Memory
store o b m i = if i == o then b else m i

write : ℕ → ℕ → ℕ → Memory → Memory
write zero o v m = m
write (suc w) o v m = write w (suc o) (v / 256) (store o (v % 256) m)

read : ℕ → ℕ → Memory → ℕ
read zero o m = 0
read (suc w) o m = m o % 256 + 256 * read w (suc o) m

-- A write leaves the bytes below and above it.
write_frame : (w o v i : ℕ) (m : Memory) → (i < o) ⊎ (o + w ≤ i) → write w o v m i ≡ m i
unfolding write store
write_frame zero o v i m h = refl
write_frame (suc w) o v i m h =
    ground (arith, write_frame w (suc o) (v / 256) i (store o (v % 256) m))

read-write_ne :
    (w o v n j : ℕ) (m : Memory) → (j + n ≤ o) ⊎ (o + w ≤ j) → read n j (write w o v m) ≡ read n j m
unfolding read
read-write_ne w o v zero j m h = refl
read-write_ne w o v (suc n) j m h =
    ground (arith, write_frame w o v j m, read-write_ne w o v n (suc j) m)

-- The numbers of `w` bytes.
abbrev bound : ℕ → ℕ
bound zero = 1
bound (suc w) = 256 * bound w

read-write : (w o v : ℕ) (m : Memory) → v < bound w → read w o (write w o v m) ≡ v
unfolding read write store
read-write zero o v m h = omega arith
read-write (suc w) o v m h = ground (
  arith,
  write_frame w (suc o) (v / 256) o (store o (v % 256) m),
  read-write w (suc o) (v / 256) (store o (v % 256) m),
)

-- A value as the word that is stored, and back; a signed word is in two's complement.
encode : CType → ℤ → ℕ
encode t (pos n) = n
encode t (negsuc n) = 0xffff_ffff - n

decode : CType → ℕ → ℤ
decode i32 n = if leb 0x8000_0000 n then negsuc (0xffff_ffff - n) else pos n
decode _ n = pos n

encode-lt : (t : CType) (v : ℤ) → fits t v ≡ true → encode t v < bound (size t)
unfolding encode fits size
encode-lt u8 v h = ground arith
encode-lt u32 v h = ground arith
encode-lt i32 v h = ground arith
encode-lt ptr v h = ground arith

decode-encode : (t : CType) (v : ℤ) → fits t v ≡ true → decode t (encode t v) ≡ v
unfolding encode decode fits
decode-encode u8 v h = ground arith
decode-encode u32 v h = ground arith
decode-encode i32 v h = ground arith
decode-encode ptr v h = ground arith

pub get_field : Field → Memory → ℤ
get_field f m = decode (ctype f) (read (size (ctype f)) (offset f) m)

pub set_field : Field → ℤ → Memory → Memory
set_field f v m = write (size (ctype f)) (offset f) (encode (ctype f) v) m

pub get_field-set_field :
    (f : Field) (v : ℤ) (m : Memory) → fits (ctype f) v ≡ true → get_field f (set_field f v m) ≡ v
unfolding get_field set_field
get_field-set_field f v m h =
    let t = ctype f in
    rw (read-write (size t) (offset f) (encode t v) m (encode-lt t v h)) (decode-encode t v h)

pub get_field-set_field_ne :
    (f g : Field) (v : ℤ) (m : Memory)
    → IsDisjoint f g
    → get_field g (set_field f v m) ≡ get_field g m
unfolding get_field set_field
get_field-set_field_ne f g v m h = rw (
    read-write_ne (size (ctype f)) (offset f) (encode (ctype f) v) (size (ctype g)) (offset g) m
      (ground arith))

read-lt : (w o : ℕ) (m : Memory) → read w o m < bound w
unfolding read
read-lt zero o m = omega arith
read-lt (suc w) o m = omega (arith, read-lt w (suc o) m)

decode-fits : (t : CType) (n : ℕ) → n < bound (size t) → fits t (decode t n) ≡ true
unfolding decode fits size
decode-fits u8 n h = ground arith
decode-fits u32 n h = ground arith
decode-fits i32 n h = ground arith
decode-fits ptr n h = ground arith

pub get_field-fits : (f : Field) (m : Memory) → fits (ctype f) (get_field f m) ≡ true
unfolding get_field
get_field-fits f m =
    decode-fits (ctype f) (read (size (ctype f)) (offset f) m)
      (read-lt (size (ctype f)) (offset f) m)

pub raw_from : ℕ → ℕ → Memory → List ℕ
raw_from zero o m = []
raw_from (suc n) o m = m o ∷ raw_from n (suc o) m

pub put_from : ℕ → List ℕ → Memory → Memory
put_from o [] m = m
put_from o (b ∷ bs) m = put_from (suc o) bs (store o b m)

put_from_below : (o i : ℕ) (bs : List ℕ) (m : Memory) → i < o → put_from o bs m i ≡ m i
unfolding put_from store
put_from_below o i [] m h = refl
put_from_below o i (b ∷ bs) m h = ground (arith, put_from_below (suc o) i bs (store o b m))

-- The bytes that were put are read back, up to the length of the read.
pub raw_from-put_from :
    (n o : ℕ) (bs : List ℕ) (m : Memory) → length bs ≡ n → raw_from n o (put_from o bs m) ≡ bs
unfolding raw_from put_from store
raw_from-put_from zero o [] m h = refl
raw_from-put_from zero o (b ∷ bs) m h = absurd (omega arith)
raw_from-put_from (suc n) o [] m h = absurd (omega arith)
raw_from-put_from (suc n) o (b ∷ bs) m h =
    ground (
      arith,
      put_from_below (suc o) o bs (store o b m),
      raw_from-put_from n (suc o) bs (store o b m),
    )

-- The interface, from bytes.
unfoldable pub bytes_union : Union
unfolding get_field set_field read write store encode decode raw_from put_from
bytes_union = record {
  Data = Memory;
  zeroed = λ _. 0;
  get = get_field;
  set = set_field;
  raw = raw_from union_size 0;
  put_raw = put_from 0;
  get-set = get_field-set_field;
  get-set_ne = get_field-set_field_ne;
  get-fits = get_field-fits;
  raw-put_raw = λ bs m h. raw_from-put_from union_size 0 bs m h;
}
