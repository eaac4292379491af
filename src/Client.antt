-- ===== src/Client.antt =====
-- alsa_midi/client.py. Enumerate: the query loops; ListPorts: `list_ports`; Output: the output of events.
pub mod Closed
pub mod Forward
pub mod Info
pub mod Admin
pub mod Enumerate
pub mod ListPorts
pub mod Session
pub mod Output
pub mod Input
pub mod Waiting
