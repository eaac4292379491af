-- ===== src/Client/Waiting/Blocking.antt =====
-- The methods of `SequencerClient` (alsa_midi/client.py), which wait by polling: the attempts in the
-- waiting loop. The clock is a function of the calls made, as the library's answers are.
use python_alsa_midi.Prelude.{ℕ, Bool, true, false, Option, none, some, List, ◌∷◌, ℤ}
use python_alsa_midi.Exceptions.{Result, ok, err, already_closed, type_error}
use python_alsa_midi.Platform.{Platform}
use python_alsa_midi.Event.ToAlsa.{Overrides, Alsa}
use python_alsa_midi.Event.Codec.{Event}
use python_alsa_midi.Client.Session.{IoCall, Library, Client}
use python_alsa_midi.Client.Waiting.Loop.{wait_for}
use python_alsa_midi.Client.Waiting.Attempts.{
  input_attempt, output_attempt, direct_attempt, drain_attempt,
}

module _ (p : Platform) (l : Library (Alsa p)) (time : List (IoCall (Alsa p)) → ℤ) where
  -- `time.monotonic()`
  abbrev pub clock : Client p l → ℤ
  clock c = time c.calls

  -- `poll(remaining)` of `_read_poll` and of `_write_poll`
  abbrev pub poll : Client p l → Client p l
  poll c = record c { calls = IoCall.poll ∷ c.calls }

  abbrev pub Waited : Type 0 → Type 0
  Waited V = Option (Result (Option V) × Client p l)

  -- The result of `event_input` is `None` both after a timeout and without an event.
  abbrev pub joined : {V : Type 0} → Waited (Option V) → Waited V
  joined none = none
  joined (some (ok (some v), c)) = some (ok v, c)
  joined (some (ok none, c)) = some (ok none, c)
  joined (some (err e, c)) = some (err e, c)

  -- `event_input`. The handle is not checked, and cffi refuses `None`.
  unfoldable pub event_input : Bool → Bool → Option ℤ → ℕ → Client p l → Waited Event
  unfolding wait_for input_attempt
  event_input false prefer_bytes timeout fuel c = some (err type_error, c)
  event_input true prefer_bytes timeout fuel c =
      joined (wait_for (input_attempt p l prefer_bytes) clock poll timeout fuel c)

  abbrev pub when_open : {V : Type 0} → Bool → Waited V → Client p l → Waited V
  when_open true out c = out
  when_open false out c = some (err already_closed, c)

  -- `drain_output`, which waits without a timeout, as the other output methods do
  unfoldable pub drain_output : Bool → ℕ → Client p l → Waited ℤ
  unfolding wait_for drain_attempt
  drain_output is_open fuel c =
      when_open is_open (wait_for (drain_attempt p l) clock poll none fuel c) c

  -- `event_output`
  unfoldable pub event_output : Bool → ℕ → Event → Overrides → Client p l → Waited ℤ
  unfolding wait_for output_attempt
  event_output is_open fuel e o c =
      when_open is_open (wait_for (output_attempt p l e o) clock poll none fuel c) c

  -- `event_output_direct`
  unfoldable pub event_output_direct : Bool → ℕ → Event → Overrides → Client p l → Waited ℤ
  unfolding wait_for direct_attempt
  event_output_direct is_open fuel e o c =
      when_open is_open (wait_for (direct_attempt p l e o) clock poll none fuel c) c
