-- ===== src/Tests.antt =====
-- The theorems at concrete inputs. Setup: the platform, ALSA library and objects that they share.
pub mod Setup
pub mod Events
pub mod Received
pub mod Handles
pub mod Clients
pub mod Waiting
pub mod Shared
pub mod Refused
pub mod AdminSetup
pub mod Admin
pub mod Mido
