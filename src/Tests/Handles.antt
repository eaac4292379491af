-- ===== src/Tests/Handles.antt =====
-- The theorems on queues and ports (alsa_midi/queue.py, alsa_midi/port.py) at concrete inputs.
use python_alsa_midi.Prelude.{
  ◌≤◌, ◌≡◌, refl, true, false, none, some, List, [], ◌∷◌, ◌++◌, pos, negsuc,
}
use python_alsa_midi.Exceptions.{ok, err, already_closed}
use python_alsa_midi.Address.{of_address, new}
use python_alsa_midi.Handle.{Client, QueueTempo, Call, Library, State}
use python_alsa_midi.Queue.{Queue, init, close, set_tempo}
use python_alsa_midi.Queue.Arguments.{TempoArgs, queue_tempo}
use python_alsa_midi.Structures.{AlsaQueueTimer}
use python_alsa_midi.Queue.Lifecycle.{closing, close-log}
use python_alsa_midi.Queue.Invoke.{Method, invoke, invoke_all, invoke-closed}
use python_alsa_midi.Queue.Frees.{frees, owed, invoke_all-frees}
use python_alsa_midi.Queue.Tempo.{spread, set_tempo-queue_tempo}
use python_alsa_midi.Port.Handle.{Port}
use python_alsa_midi.Tests.Setup.{parse_address, synth}
use python_alsa_midi.Tests.AdminSetup.{memory, session}

abbrev slow : QueueTempo
slow = record { tempo = pos 1_000_000; ppq = pos 48; skew = none; skew_base = none }

-- An ALSA library where freeing a queue fails.
abbrev alsa : Library
alsa = record {
  answer = λ calls c. elim c [ Call.free_queue _ _ ↦ negsuc 21 | _ ↦ pos 0 ];
  fresh_tempo = slow;
  read_tempo = λ calls. slow;
}

abbrev client : Client
client = record { handle = some 7 }

abbrev own_queue : State Queue
own_queue = (record { client = some client; queue_id = some (pos 2); own = some true }, [])

abbrev closed_queue : State Queue
closed_queue = (record { client = none; queue_id = none; own = some false }, [])

abbrev tempo_args : TempoArgs
tempo_args = record {
  tempo = some (queue_tempo slow);
  ppq = some (pos 192);
  skew = none;
  skew_base = none;
  bpm = none;
}

close-log_example : (close alsa own_queue).1.1 ≡ closing own_queue.0 ++ []
close-log_example = close-log alsa own_queue

abbrev timer : AlsaQueueTimer
timer = record {
  queue = pos 2;
  id = record {
    dev_class = pos 1;
    dev_sclass = pos 0;
    card = pos 0;
    device = pos 0;
    subdevice = pos 0;
  };
  type = pos 0;
  resolution = pos 0;
}

invoke-closed_example :
    invoke parse_address alsa memory session timer (λ calls. timer) Method.get_info_of closed_queue
    ≡ (err already_closed, closed_queue)
invoke-closed_example =
    invoke-closed parse_address alsa memory session timer (λ calls. timer) Method.get_info_of
      closed_queue refl

abbrev called : List Method
called =
    Method.start_it ∷ Method.get_status_of ∷ Method.close_it ∷ Method.get_timer_of ∷ Method.del_it
    ∷ []

invoke_all-frees_example :
    frees
      (invoke_all parse_address alsa memory session timer
        (λ calls. timer)
        called
        (init client (pos 2) (some true), [])).1
    ≤ owed (init client (pos 2) (some true))
invoke_all-frees_example =
    invoke_all-frees parse_address alsa memory session timer (λ calls. timer) client (pos 2)
      (some true) called

set_tempo-queue_tempo_example :
    set_tempo alsa tempo_args own_queue ≡ set_tempo alsa (spread slow tempo_args) own_queue
set_tempo-queue_tempo_example = set_tempo-queue_tempo alsa slow tempo_args own_queue refl

abbrev open_port : State Port
open_port = (record { client = some client; client_id = pos 128; port_id = pos 0 }, [])

abbrev closed_port : State Port
closed_port = (record { client = none; client_id = pos 128; port_id = pos 0 }, [])

synth-new : new parse_address (of_address synth) (pos 0) ≡ ok synth
unfolding new
synth-new = refl
