-- ===== src/Port.antt =====
-- alsa_midi/port.py. Flags: the constants; Info: `PortInfo`; SortKey: the order in which
-- `list_ports` returns ports; Handle: the methods of `Port`.
pub mod Flags
pub mod Info
pub mod SortKey
pub mod Handle
