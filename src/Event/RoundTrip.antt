-- ===== src/Event/RoundTrip.antt =====
-- Encoding an event of alsa_midi/event.py and decoding it again. Fields: the C fields that the structured data
-- fills; Payloads: the structured data;
-- Encode, Decode: the shared attributes; Flags: the time stamp bits; Events: whole events.
pub mod Fields
pub mod Payloads
pub mod Flags
pub mod Encode
pub mod Decode
pub mod Events
