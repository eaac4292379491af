-- ===== src/Client/Admin/Identity.antt =====
-- `get_sequencer_name` and `get_sequencer_type` of alsa_midi/client.py, and the end of an object: `__del__` and
-- `aclose`.
use python_alsa_midi.Prelude.{List, String, ℤ, pos, eqb_ℤ, if◌then◌else◌}
use python_alsa_midi.Exceptions.{Result, ok, err, value_error, check_alsa_error}
use python_alsa_midi.Stateful.{lift, ◌>>=◌, ◌>>◌}
use python_alsa_midi.Handle.{Call, Library, Py, call, checked_call}
use python_alsa_midi.Client.Admin.{Session, check_handle, handle, log, close}

-- `SequencerType`: `HW` is another name of `_UNSET`, which has the same value.
pub data SequencerType : Type 0 where
  unset shm inet : SequencerType

abbrev pub hw : SequencerType
hw = SequencerType.unset

-- `SequencerType(result)`
unfoldable pub sequencer_type : ℤ → Result SequencerType
sequencer_type v =
    if eqb_ℤ v (pos 0)
    then ok SequencerType.unset
    else if eqb_ℤ v (pos 1)
    then ok SequencerType.shm
    else if eqb_ℤ v (pos 2)
    then ok SequencerType.inet
    else err value_error

module _ (l : Library) where
  -- `ffi.string(...).decode()` of the name is given by the calls made.
  unfoldable pub get_sequencer_name : (List Call → Result String) → Py Session String
  unfolding check_handle handle
  get_sequencer_name decoded = do
    check_handle
    h ← handle
    _ ← call l (Call.sequencer_name h)
    calls ← log
    lift (decoded calls)

  unfoldable pub get_sequencer_type : Py Session SequencerType
  unfolding check_handle handle sequencer_type check_alsa_error
  get_sequencer_type = do
    check_handle
    h ← handle
    code ← checked_call l (Call.sequencer_type h)
    lift (sequencer_type code)

  -- `__del__`: an object that was not initialized has no handle to close either.
  unfoldable pub del : Py Session Unit
  unfolding close
  del = close l

  -- `AsyncSequencerClient.aclose`
  unfoldable pub aclose : Py Session Unit
  unfolding close
  aclose = close l
