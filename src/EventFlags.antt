-- ===== src/EventFlags.antt =====
-- `EventFlags` of alsa_midi/event.py, with the values of alsa_midi/_ffi_defs.py.
use python_alsa_midi.Prelude.{ℕ}

abbrev pub time_stamp_tick : ℕ
time_stamp_tick = 0

abbrev pub time_stamp_real : ℕ
time_stamp_real = 1

abbrev pub time_stamp_mask : ℕ
time_stamp_mask = 1

abbrev pub time_mode_abs : ℕ
time_mode_abs = 0

abbrev pub time_mode_rel : ℕ
time_mode_rel = 2

abbrev pub time_mode_mask : ℕ
time_mode_mask = 2

abbrev pub event_length_fixed : ℕ
event_length_fixed = 0

abbrev pub event_length_variable : ℕ
event_length_variable = 4

abbrev pub event_length_varusr : ℕ
event_length_varusr = 8

abbrev pub event_length_mask : ℕ
event_length_mask = 12

abbrev pub priority_normal : ℕ
priority_normal = 0

abbrev pub priority_high : ℕ
priority_high = 16

abbrev pub priority_mask : ℕ
priority_mask = 16
