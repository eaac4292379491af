-- ===== src/Client/Waiting/Shared/Requests.antt =====
-- The methods of `AsyncSequencerClient` (alsa_midi/client.py) that wait, as requests to one client.
use python_alsa_midi.Prelude.{Bool, Option, none, ℤ}
use python_alsa_midi.Stateful.{Act, return, ◌>>=◌}
use python_alsa_midi.Platform.{Platform}
use python_alsa_midi.Event.ToAlsa.{Overrides, Alsa}
use python_alsa_midi.Event.Codec.{Event}
use python_alsa_midi.Client.Session.{Library, Client}
use python_alsa_midi.Client.Waiting.{Tried}
use python_alsa_midi.Client.Waiting.Attempts.{
  Piece, input_attempt, output_attempt, direct_attempt, drain_attempt,
}

pub data Request : Type 0 where
  input : Bool → Request
  drain : Request
  output direct : Event → Overrides → Request

-- What a coroutine returns: an event, or a number.
pub data Answer : Type 0 where
  event : Option Event → Answer
  number : ℤ → Answer

module _ (p : Platform) (l : Library (Alsa p)) where
  abbrev numbered : Tried (Piece p l) ℤ → Tried (Piece p l) Answer
  numbered t = record { code = t.code; remainder = t.remainder; value = Answer.number t.value }

  -- What the coroutine tries first, and its callback again.
  unfoldable pub request_attempt :
      Request → Option (Piece p l) → Act (Client p l) (Tried (Piece p l) Answer)
  unfolding input_attempt drain_attempt output_attempt direct_attempt
  request_attempt (Request.input prefer_bytes) rem = do
    t ← input_attempt p l prefer_bytes none
    return (record { code = t.code; remainder = none; value = Answer.event t.value })
  request_attempt Request.drain rem = drain_attempt p l rem >>= λ t. return (numbered t)
  request_attempt (Request.output e o) rem = output_attempt p l e o rem >>= λ t. return (numbered t)
  request_attempt (Request.direct e o) rem = direct_attempt p l e o rem >>= λ t. return (numbered t)
