-- ===== src/Client/Admin/Remove.antt =====
-- The method `remove_events` of alsa_midi/client.py: its call of ALSA.
use python_alsa_midi.Prelude.{String, ℤ}
use python_alsa_midi.Exceptions.{check_alsa_error}
use python_alsa_midi.Stateful.{lift, ◌>>=◌, ◌>>◌}
use python_alsa_midi.Structures.{Structure}
use python_alsa_midi.Address.{Parsed}
use python_alsa_midi.Handle.{Call, Library, Py, checked_call}
use python_alsa_midi.Client.Admin.{Session, Memory, check_handle, handle, malloc}
use python_alsa_midi.Client.Admin.RemoveEvents.{RemoveArgs, admits, choose}
use python_alsa_midi.Client.Admin.RemoveEvents.Setters.{fill}

module _ (parse : String → Parsed) (l : Library) (m : Memory) where
  unfoldable pub remove_events : RemoveArgs → Py Session ℤ
  unfolding check_handle handle admits choose fill check_alsa_error
  remove_events a = do
    lift (admits a)
    check_handle
    malloc l Structure.remove_events
    cond ← lift (fill parse (choose a) m.fresh_remove_events)
    h ← handle
    checked_call l (Call.remove_events h cond)
