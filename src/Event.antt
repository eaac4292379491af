-- ===== src/Event.antt =====
-- The events of alsa_midi/event.py. Header: the attributes that all events share; ToAlsa and
-- FromAlsa: `Event._to_alsa` and `Event._from_alsa`; Notes, Controls, QueueControls, Addresses,
-- External: the structured data of the subclasses; Class: the subclasses and their registry; Codec:
-- a whole event; Dispatch: the class of a received event; Constructed: what the constructors let through; the others hold the proofs.
pub mod Header
pub mod ToAlsa
pub mod FromAlsa
pub mod Payload
pub mod Notes
pub mod Controls
pub mod QueueControls
pub mod Addresses
pub mod Class
pub mod Codec
pub mod Dispatch
pub mod Constructed
pub mod RoundTrip
pub mod Received
pub mod Construct
