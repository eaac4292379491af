-- ===== src/Tests/Shared.antt =====
-- The theorems on coroutines that share a client (alsa_midi/client.py) at concrete inputs: one waits for an
-- event, and another one begins to wait.
use python_alsa_midi.Prelude.{
  ◌≡◌, ◌↔◌, refl, ap, get_elem?, false, Option, none, some, List, [], ◌∷◌, length,
}
use python_alsa_midi.Exceptions.{Result, ok}
use python_alsa_midi.Client.Session.{IoCall, Client}
use python_alsa_midi.Client.Input.{event_input_once}
use python_alsa_midi.Client.Waiting.{eagain, Tried}
use python_alsa_midi.Client.Waiting.Attempts.{Piece}
use python_alsa_midi.Client.Waiting.Callback.{Future, ready}
use python_alsa_midi.Client.Waiting.Shared.{
  Task, Shared, idle, begin, run_callback, Step, begins, ready,
}
use python_alsa_midi.Client.Waiting.Shared as Shared
use python_alsa_midi.Client.Waiting.Shared.Requests.{Request, Answer, request_attempt}
use python_alsa_midi.Client.Waiting.Shared.Newest.{registered-newest_iff}
use python_alsa_midi.Client.Waiting.Shared.Stranded.{IsOpen, begin-strands}
use python_alsa_midi.Tests.Setup.{platform}
use python_alsa_midi.Tests.Waiting.{later, new_client}

abbrev request :
    Request
    → Option (Piece platform (later 9))
    → Client platform (later 9)
    → Result (Tried (Piece platform (later 9)) Answer) × Client platform (later 9)
request = request_attempt platform (later 9)

-- A coroutine waits for an event, and another one for the output to drain.
abbrev one_waits : Shared (Client platform (later 9)) Request (Piece platform (later 9)) Answer
one_waits = begin request (Request.input false) (idle (new_client 9))

abbrev two_wait : Shared (Client platform (later 9)) Request (Piece platform (later 9)) Answer
two_wait = begin request Request.drain one_waits

abbrev input_task : Task Request (Piece platform (later 9)) Answer
input_task = record { request = Request.input false; remainder = none; future = Future.pending }

abbrev drain_task : Task Request (Piece platform (later 9)) Answer
drain_task = record { request = Request.drain; remainder = none; future = Future.pending }

two_tasks : two_wait.tasks ≡ input_task ∷ drain_task ∷ []
unfolding begin request_attempt event_input_once
two_tasks = refl

input_found : get_elem? one_waits.tasks 0 ≡ some input_task
unfolding begin request_attempt event_input_once
input_found = refl

drain_registered : two_wait.reader ≡ some 1
unfolding begin request_attempt event_input_once
drain_registered = refl

abbrev drain_again : Tried (Piece platform (later 9)) Answer
drain_again = record { code = eagain; remainder = none; value = Answer.number eagain }

abbrev both_tried : Client platform (later 9)
both_tried = record { event_parser = none; calls = IoCall.drain_output ∷ IoCall.input ∷ [] }

drain_waits : request Request.drain none one_waits.client ≡ (ok drain_again, both_tried)
unfolding begin request_attempt event_input_once
drain_waits = refl

registered-newest_iff_example : (two_wait.reader ≡ some 0) ↔ (1 ≡ length two_wait.tasks)
registered-newest_iff_example =
    registered-newest_iff request (new_client 9) 0 input_task
      (Shared.next (Shared.next Shared.here (begins (Request.input false))) (begins Request.drain))
      (ap (λ (ts : List (Task Request (Piece platform (later 9)) Answer)). get_elem? ts 0)
        two_tasks)
      refl

begin-strands_example :
    (x : Task Request (Piece platform (later 9)) Answer) × (get_elem?
        (run_callback request 1 two_wait).tasks
        0
      ≡ some x)
    × IsOpen x.future
begin-strands_example =
    begin-strands request Request.drain one_waits 0 input_task drain_again both_tried input_found
      refl drain_waits refl (Shared.next Shared.here (ready 1 drain_registered))
