-- ===== src/Client/Session.antt =====
-- What a client of alsa_midi/client.py keeps for the input and output of events: the parser of MIDI
-- bytes, and the calls of the ALSA library made so far, newest first. The library is a parameter: an
-- answer may depend on all that was called before.
use python_alsa_midi.Prelude.{ℕ, Bool, Option, none, some, List, ◌∷◌, ℤ}
use python_alsa_midi.Exceptions.{check_alsa_error}
use python_alsa_midi.Stateful.{Act, lift, return, this, put, ◌>>=◌, ◌>>◌}
use python_alsa_midi.Exceptions.{ok}
use python_alsa_midi.Platform.{Platform}
use python_alsa_midi.Event.ToAlsa.{Alsa}

-- The call `snd_midi_event_encode`: what it returns, the parser and the event that it leaves.
pub record Encoded (P A : Type 0) : Type 0 where
  pub processed : ℤ
  pub parser : P
  pub event : A

-- The call `snd_midi_event_decode`: what it returns, the bytes and the parser that it leaves.
pub record Decoded (P : Type 0) : Type 0 where
  pub count : ℤ
  pub bytes : List ℕ
  pub parser : P

-- The calls; `encode` with the bytes that it is offered and what it returns, `decode` with the room
-- for bytes, `input` with what it returns. `poll` is the wait between two attempts.
pub data IoCall (A : Type 0) : Type 0 where
  event_new output_pending drain_output poll : IoCall A
  encode : List ℕ → ℤ → IoCall A
  decode : ℤ → IoCall A
  output free_event : A → IoCall A
  input extract_output : IoCall A
  -- whether the sequencer's queue is fetched
  input_pending : Bool → IoCall A

pub record Library (A : Type 0) : Type 1 where
  pub Parser : Type 0
  pub new_parser : Parser
  pub encode : Parser → List ℕ → A → Encoded Parser A
  pub decode : Parser → ℤ → A → Decoded Parser
  -- the code that the last call returns
  pub answer : List (IoCall A) → ℤ
  -- the event that the last call points to
  pub event : List (IoCall A) → A
  -- an `snd_seq_event_t` of zeros
  pub zeros : A

module _ (p : Platform) (l : Library (Alsa p)) where
  -- `_event_parser` of the client, and the calls made.
  pub record Client : Type 0 where
    pub event_parser : Option l.Parser
    pub calls : List (IoCall (Alsa p))

  abbrev pub call : IoCall (Alsa p) → Act Client ℤ
  call x c = (ok (l.answer (x ∷ c.calls)), record c { calls = x ∷ c.calls })

  abbrev pub parser_from : Option l.Parser → Act Client l.Parser
  parser_from (some parser) = return parser
  parser_from none = do
    c ← this
    let calls = IoCall.event_new ∷ c.calls in put (record c { calls = calls })
    lift (check_alsa_error (l.answer (IoCall.event_new ∷ c.calls)))
    let parser = some l.new_parser in
        put (record { event_parser = parser; calls = IoCall.event_new ∷ c.calls })
    return l.new_parser

  -- `_get_event_parser`
  unfoldable pub get_event_parser : Act Client l.Parser
  get_event_parser = this >>= λ c. parser_from c.event_parser
