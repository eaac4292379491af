-- ===== src/Tests/Setup.antt =====
-- Concrete instances for the tests: whole numbers for Python's floats, a parser of addresses that
-- knows one text, bytes for the C memory, and one external buffer.
use python_alsa_midi.Prelude.{
  ◌*◌, true, false, [], ◌∷◌, String, ℤ, pos, negsuc, ◌+ℤ◌, ◌-ℤ◌, pos_part,
}
use text.Mathlib.Text.{◌==◌ as str_eq}
use python_alsa_midi.Exceptions.{ok, err, value_error}
use python_alsa_midi.RealTime.{Numbers, RealTime}
use python_alsa_midi.Address.{Address, Parsed}
use python_alsa_midi.Struct.Bytes.{bytes_union}
use python_alsa_midi.Platform.{Platform}

abbrev pub numbers : Numbers
numbers = record {
  Float = ℤ;
  of_int = λ v. v;
  add_float = ◌+ℤ◌;
  sub_float = ◌-ℤ◌;
  mul_float = λ a b. pos (pos_part a * pos_part b);
  div_float = λ a b. ok a;
  floor_div = λ a b. ok a;
  round = λ v. v;
  trunc = λ v. v;
  parse_int = λ t. ok (pos 3);
  parse_float = λ t. err value_error;
}

abbrev pub parse_address : String → Parsed
parse_address t = elim (str_eq t "Synth:1") [
  | true ↦ record { code = pos 0; client = pos 20; port = pos 1 }
  | false ↦ record { code = negsuc 1; client = pos 0; port = pos 0 }
]

abbrev pub platform : Platform
platform = record {
  numbers = numbers;
  parse_address = parse_address;
  memory = bytes_union;
  from_buffer = λ bs. pos 64;
  buffer = λ p n. 240 ∷ 247 ∷ [];
}

abbrev pub synth : Address
synth = record { client_id = pos 20; port_id = pos 1 }

abbrev pub half_past : RealTime
half_past = record { seconds = pos 1; nanoseconds = pos 500_000_000 }
