-- ===== src/Port/Flags.antt =====
-- `PortCaps`, `PortType` and the flag constants of alsa_midi/port.py, with the values of
-- alsa_midi/_ffi_defs.py.
use python_alsa_midi.Prelude.{ℕ, List, [], ◌∷◌, bit_or}

abbrev pub cap_read : ℕ
cap_read = 1

abbrev pub cap_write : ℕ
cap_write = 2

abbrev pub cap_subs_read : ℕ
cap_subs_read = 32

abbrev pub cap_subs_write : ℕ
cap_subs_write = 64

abbrev pub cap_no_export : ℕ
cap_no_export = 128

abbrev pub type_midi_generic : ℕ
type_midi_generic = 2

abbrev pub type_midi_gm : ℕ
type_midi_gm = 4

abbrev pub type_software : ℕ
type_software = 131072

abbrev pub type_synthesizer : ℕ
type_synthesizer = 262144

abbrev pub read_port : ℕ
read_port = bit_or cap_read cap_subs_read

abbrev pub write_port : ℕ
write_port = bit_or cap_write cap_subs_write

abbrev pub rw_port : ℕ
rw_port = bit_or read_port write_port

abbrev pub read_port_preferred_types : List ℕ
read_port_preferred_types = type_midi_generic ∷ []

abbrev pub rw_port_preferred_types : List ℕ
rw_port_preferred_types = read_port_preferred_types

abbrev pub write_port_preferred_types : List ℕ
write_port_preferred_types =
    bit_or (bit_or type_midi_generic type_midi_gm) type_synthesizer
    ∷ bit_or type_midi_generic type_synthesizer
    ∷ bit_or type_midi_generic type_midi_gm
    ∷ type_midi_generic
    ∷ []

abbrev pub default_port_type : ℕ
default_port_type = bit_or type_midi_generic type_software
