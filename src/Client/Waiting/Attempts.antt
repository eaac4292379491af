-- ===== src/Client/Waiting/Attempts.antt =====
-- The attempts of alsa_midi/client.py that both kinds of client repeat: an input, an output with its
-- remainder, a drain of the output.
use python_alsa_midi.Prelude.{Bool, Option, none, List, ℕ, ℤ}
use python_alsa_midi.Stateful.{Act, return, ◌>>=◌}
use python_alsa_midi.Platform.{Platform}
use python_alsa_midi.Event.ToAlsa.{Overrides, Alsa}
use python_alsa_midi.Event.Codec.{Event}
use python_alsa_midi.Client.Session.{IoCall, Library, Client, call}
use python_alsa_midi.Client.Input.{Received, event_input_once}
use python_alsa_midi.Client.Output.{Remainder, event_output_once, event_output_direct_once}
use python_alsa_midi.Client.Waiting.{Tried}

module _ (p : Platform) (l : Library (Alsa p)) where
  abbrev pub received : Received p l → Tried (Unit {0}) (Option Event)
  received r = record { code = r.0; remainder = none; value = r.1 }

  -- An input has no remainder.
  unfoldable pub input_attempt :
      Bool → Option (Unit {0}) → Act (Client p l) (Tried (Unit {0}) (Option Event))
  unfolding event_input_once
  input_attempt prefer_bytes rem = event_input_once p l prefer_bytes >>= λ r. return (received r)

  abbrev pub Piece : Type 0
  Piece = Alsa p × List ℕ

  abbrev pub sent : ℤ × Remainder p l → Tried Piece ℤ
  sent r = record { code = r.0; remainder = r.1; value = r.0 }

  -- `partial(self._event_output, event, queue, port, dest)`
  unfoldable pub output_attempt :
      Event → Overrides → Option Piece → Act (Client p l) (Tried Piece ℤ)
  unfolding event_output_once
  output_attempt e o rem = event_output_once p l e o rem >>= λ r. return (sent r)

  -- `partial(self._event_output_direct, event, queue, port, dest)`
  unfoldable pub direct_attempt :
      Event → Overrides → Option Piece → Act (Client p l) (Tried Piece ℤ)
  unfolding event_output_direct_once
  direct_attempt e o rem = event_output_direct_once p l e o rem >>= λ r. return (sent r)

  -- `func` of `drain_output`
  unfoldable pub drain_attempt : Option Piece → Act (Client p l) (Tried Piece ℤ)
  drain_attempt rem = call p l IoCall.drain_output >>= λ code. return (sent (code, none))
