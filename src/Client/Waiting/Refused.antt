-- ===== src/Client/Waiting/Refused.antt =====
-- `event_output` of `SequencerClient` (alsa_midi/client.py) when ALSA refuses a piece of a `MidiBytesEvent`.
use python_alsa_midi.Prelude.{
  ℕ, suc, ◌<◌, ◌≡◌, refl, true, false, none, some, List, ◌∷◌, ℤ, pos, eqb_ℤ, length, drop, arith,
}
use python_alsa_midi.Exceptions.{ok}
use python_alsa_midi.Platform.{Platform}
use python_alsa_midi.Event.ToAlsa.{Overrides, Alsa}
use python_alsa_midi.Event.Codec.{Event, to_alsa}
use python_alsa_midi.Client.Session.{Encoded, IoCall, Library, Client}
use python_alsa_midi.Client.Output.{type_none, midi_bytes_of}
use python_alsa_midi.Client.Waiting.{eagain}
use python_alsa_midi.Client.Waiting.Attempts.{output_attempt}
use python_alsa_midi.Client.Waiting.Loop.{wait}
use python_alsa_midi.Client.Waiting.Blocking.{clock, poll, event_output}

module _ (p : Platform) (l : Library (Alsa p)) (time : List (IoCall (Alsa p)) → ℤ) where
  -- The client after a piece `bytes` was encoded as `r`, of which `result` is what `processed` says, and output.
  abbrev pub after_piece : List ℕ → Encoded l.Parser (Alsa p) → Client p l → Client p l
  after_piece bytes r c = record {
    event_parser = some r.parser;
    calls = IoCall.output r.event ∷ IoCall.encode bytes r.processed ∷ c.calls;
  }

  module _ (e : Event) (o : Overrides) (parser : l.Parser) where
    first_piece :
        (bs : List ℕ) (k : ℕ) (a : Alsa p) (c : Client p l)
        → midi_bytes_of e.payload ≡ some bs
        → to_alsa p e o l.zeros ≡ ok a
        → c.event_parser ≡ some parser
        → (l.encode parser bs a).processed ≡ pos k
        → k < length bs
        → eqb_ℤ (l.encode parser bs a).event.type type_none ≡ false
        → let c₁ = after_piece bs (l.encode parser bs a) c in
          output_attempt p l e o none c ≡ (
            ok (record {
              code = l.answer c₁.calls;
              remainder = some ((l.encode parser bs a).event, drop k bs);
              value = l.answer c₁.calls;
            }),
            c₁,
          )
    unfolding output_attempt
    first_piece bs k a c hb ha hp hk lt ht = ground (arith, hb, ha, hp, hk, lt, ht)

    last_piece :
        (bs rest : List ℕ) (a : Alsa p) (c : Client p l)
        → midi_bytes_of e.payload ≡ some bs
        → c.event_parser ≡ some parser
        → (l.encode parser rest a).processed ≡ pos (length rest)
        → eqb_ℤ (l.encode parser rest a).event.type type_none ≡ false
        → let c₁ = after_piece rest (l.encode parser rest a) c in
          output_attempt p l e o (some (a, rest)) c ≡ (
            ok (record { code = l.answer c₁.calls; remainder = none; value = l.answer c₁.calls }),
            c₁,
          )
    unfolding output_attempt
    last_piece bs rest a c hb hp hk ht = ground (arith, hb, hp, hk, ht)

  event_output-eq-wait :
      (fuel : ℕ) (e : Event) (o : Overrides) (c : Client p l)
      → event_output p l time true fuel e o c
        ≡ wait (output_attempt p l e o) (clock p l time) (poll p l time) none fuel none c
  unfolding event_output
  event_output-eq-wait fuel e o c = refl

  -- What the encoder makes of the bytes from `k` on, after the piece before them, and the client after both
  -- pieces, with a wait between them.
  abbrev pub second : l.Parser → List ℕ → ℕ → Alsa p → Encoded l.Parser (Alsa p)
  second parser bs k a = let r = l.encode parser bs a in l.encode r.parser (drop k bs) r.event

  abbrev pub after_both : l.Parser → List ℕ → ℕ → Alsa p → Client p l → Client p l
  after_both parser bs k a c =
      after_piece (drop k bs) (second parser bs k a)
        (poll p l time (after_piece bs (l.encode parser bs a) c))

  -- A piece that is refused is lost. An event whose bytes make two pieces, of which ALSA refuses the first
  -- with `-EAGAIN` and takes the second, is reported as sent: `event_output` returns the code of the second
  -- output, and has made no other output than these two, with one wait between them.
  pub event_output-refused :
      (fuel k n : ℕ) (e : Event) (o : Overrides) (bs : List ℕ) (parser : l.Parser) (a : Alsa p)
      (c : Client p l)
      → midi_bytes_of e.payload ≡ some bs
      → to_alsa p e o l.zeros ≡ ok a
      → c.event_parser ≡ some parser
      → (l.encode parser bs a).processed ≡ pos k
      → k < length bs
      → eqb_ℤ (l.encode parser bs a).event.type type_none ≡ false
      → l.answer (after_piece bs (l.encode parser bs a) c).calls ≡ eagain
      → (second parser bs k a).processed ≡ pos (length (drop k bs))
      → eqb_ℤ (second parser bs k a).event.type type_none ≡ false
      → l.answer (after_both parser bs k a c).calls ≡ pos n
      → event_output p l time true (suc (suc fuel)) e o c
        ≡ some (ok (some (pos n)), after_both parser bs k a c)
  unfolding wait
  event_output-refused fuel k n e o bs parser a c hb ha hp hk lt ht refused hk₂ ht₂ taken =
      let r = l.encode parser bs a in
      let one = first_piece e o parser bs k a c hb ha hp hk lt ht in
      let two =
        last_piece e o r.parser bs (drop k bs) r.event (poll p l time (after_piece bs r c)) hb refl
          hk₂ ht₂ in
      rw (event_output-eq-wait, one, refused, two, taken) (ground arith)
