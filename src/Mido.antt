-- ===== src/Mido.antt =====
-- alsa_midi/mido_backend.py, the back-end for MIDO. FindPort: the search for a port by its name; Open: the
-- life of a port; Input: how the bytes of events reach it; Send: the output of a message.
pub mod FindPort
pub mod Input
pub mod Loop
pub mod Open
pub mod Send
