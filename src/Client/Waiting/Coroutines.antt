-- ===== src/Client/Waiting/Coroutines.antt =====
-- The coroutines of `AsyncSequencerClient` (alsa_midi/client.py): the attempts with the callback that
-- the event loop calls. Each method gives what the coroutine does until it waits.
use python_alsa_midi.Prelude.{Bool, true, false}
use python_alsa_midi.Exceptions.{err, already_closed, type_error}
use python_alsa_midi.Platform.{Platform}
use python_alsa_midi.Event.ToAlsa.{Overrides, Alsa}
use python_alsa_midi.Event.Codec.{Event}
use python_alsa_midi.Client.Session.{Library, Client}
use python_alsa_midi.Client.Waiting.Callback.{Started, returned, start}
use python_alsa_midi.Client.Waiting.Attempts.{
  input_attempt, output_attempt, direct_attempt, drain_attempt,
}

module _ (p : Platform) (l : Library (Alsa p)) where
  -- `event_input`. The handle is not checked, and cffi refuses `None`.
  unfoldable pub event_input : Bool → (b : Bool) → Client p l → Started (input_attempt p l b)
  unfolding start input_attempt
  event_input false prefer_bytes c = returned (err type_error) c
  event_input true prefer_bytes c = start (input_attempt p l prefer_bytes) c

  -- `drain_output`
  unfoldable pub drain_output : Bool → Client p l → Started (drain_attempt p l)
  unfolding start drain_attempt
  drain_output false c = returned (err already_closed) c
  drain_output true c = start (drain_attempt p l) c

  -- `event_output`
  unfoldable pub event_output :
      Bool → (e : Event) (o : Overrides) → Client p l → Started (output_attempt p l e o)
  unfolding start output_attempt
  event_output false e o c = returned (err already_closed) c
  event_output true e o c = start (output_attempt p l e o) c

  -- `event_output_direct`
  unfoldable pub event_output_direct :
      Bool → (e : Event) (o : Overrides) → Client p l → Started (direct_attempt p l e o)
  unfolding start direct_attempt
  event_output_direct false e o c = returned (err already_closed) c
  event_output_direct true e o c = start (direct_attempt p l e o) c
