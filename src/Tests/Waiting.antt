-- ===== src/Tests/Waiting.antt =====
-- The theorems on waiting for events (alsa_midi/client.py) at concrete inputs: an ALSA library that has no
-- event, and one that has an event after a while.
use python_alsa_midi.Prelude.{
  ℕ, ◌*◌, ◌≡◌, ◌≢◌, refl, true, false, Option, none, some, List, [], ◌∷◌, ℤ, pos, length, leb,
  leb_ℤ, ltb_ℤ, ◌+ℤ◌, arith, if◌then◌else◌,
}
use python_alsa_midi.Exceptions.{Result, ok}
use python_alsa_midi.Event.ToAlsa.{Alsa}
use python_alsa_midi.Event.Codec.{Event}
use python_alsa_midi.Event.RoundTrip.Events.{fresh}
use python_alsa_midi.Client.Session.{IoCall, Library, Client}
use python_alsa_midi.Client.Input.{event_input_once}
use python_alsa_midi.Client.Input.Frees.{frees, event_input_once-frees}
use python_alsa_midi.Client.Waiting.{eagain, Tried}
use python_alsa_midi.Client.Waiting.Attempts.{Piece, input_attempt, drain_attempt}
use python_alsa_midi.Client.Waiting.Loop.{wait, wait_for, until_of, wait_for-none}
use python_alsa_midi.Client.Waiting.Loop.Returns.{Ending, wait_for-Ending}
use python_alsa_midi.Client.Waiting.Blocking.{clock, poll}
use python_alsa_midi.Client.Waiting.Callback.{Started, Waiter, Future, start, ready, here}
use python_alsa_midi.Client.Waiting.Callback.Safety.{pending-registered}
use python_alsa_midi.Client.Waiting.Shared.{ready}
use python_alsa_midi.Tests.Setup.{platform}

-- The library whose `snd_seq_event_input` answers `-EAGAIN` until so many calls were made.
abbrev pub later : ℕ → Library (Alsa platform)
later n = record {
  Parser = Unit;
  new_parser = tt;
  encode = λ parser bs a. record { processed = pos 0; parser = tt; event = a };
  decode = λ parser room a. record { count = pos 0; bytes = []; parser = tt };
  answer = λ calls. if leb n (length calls) then pos 0 else eagain;
  event = λ calls. fresh platform;
  zeros = fresh platform;
}

abbrev pub new_client : (n : ℕ) → Client platform (later n)
new_client n = record { event_parser = none; calls = [] }

abbrev attempt :
    (n : ℕ)
    → Option (Unit {0})
    → Client platform (later n)
    → Result (Tried (Unit {0}) (Option Event)) × Client platform (later n)
attempt n = input_attempt platform (later n) false

-- The coroutine waits for its first event.
abbrev waiter : Waiter (Client platform (later 9)) (Unit {0}) (Option Event)
waiter = record {
  client = record { event_parser = none; calls = IoCall.input ∷ [] };
  remainder = none;
  future = Future.pending;
  is_registered = true;
}

abbrev late_waiter : Waiter (Client platform (later 9)) (Unit {0}) (Option Event)
late_waiter = record waiter { future = Future.cancelled }

started : start (attempt 9) (new_client 9) ≡ Started.waiting waiter
unfolding start input_attempt event_input_once
started = refl

event_input_once-frees_example :
    frees (event_input_once platform (later 0) false (new_client 0)).1.calls
    ≡ (if ltb_ℤ (pos 0) (pos 0) then [] else (fresh platform ∷ []))
unfolding frees
event_input_once-frees_example = event_input_once-frees platform (later 0) false (new_client 0)

pending-registered_example : waiter.is_registered ≡ true
pending-registered_example =
    pending-registered (attempt 9) (new_client 9) waiter waiter started here refl

-- A clock that each call moves.
abbrev at_call : List (IoCall (Alsa platform)) → ℤ
at_call calls = pos (10 * length calls)

-- A drain of the output that succeeds at the third call.
abbrev drain :
    Option (Piece platform (later 3))
    → Client platform (later 3)
    → Result (Tried (Piece platform (later 3)) ℤ) × Client platform (later 3)
drain = drain_attempt platform (later 3)

monotonic :
    (rem : Option (Piece platform (later 3))) (c : Client platform (later 3))
    → leb_ℤ (clock platform (later 3) at_call c) (clock platform (later 3) at_call (drain rem c).1)
      ≡ true
unfolding drain_attempt
monotonic rem c = ground arith

ticks :
    (c : Client platform (later 3))
    → leb_ℤ
        (clock platform (later 3) at_call c +ℤ pos 1)
        (clock platform (later 3) at_call (poll platform (later 3) at_call c))
      ≡ true
unfolding ◌+ℤ◌
ticks c = ground arith

wait_for-Ending_example :
    (r : Result (Option ℤ)) × (c : Client platform (later 3)) × (wait_for drain
        (clock platform (later 3) at_call)
        (poll platform (later 3) at_call)
        (some (pos 50))
        51
        (new_client 3)
      ≡ some (r, c))
    × Ending drain
        (clock platform (later 3) at_call)
        (poll platform (later 3) at_call)
        (some (clock platform (later 3) at_call (new_client 3) +ℤ pos 50))
        r
        c
wait_for-Ending_example =
    wait_for-Ending drain (clock platform (later 3) at_call) (poll platform (later 3) at_call)
      monotonic ticks 50 51 (new_client 3) (omega arith) (omega arith)

abbrev tried_once : Client platform (later 9)
tried_once = record { event_parser = none; calls = IoCall.input ∷ [] }

gave_up :
    wait_for
      (attempt 9)
      (clock platform (later 9) at_call)
      (poll platform (later 9) at_call)
      (some (pos 5))
      1
      (new_client 9)
    ≡ some (ok none, tried_once)
unfolding wait_for until_of wait input_attempt event_input_once ◌+ℤ◌
gave_up = refl

wait_for-none_example :
    (t : ℤ) × (some (pos 5) ≡ some t)
    × (t ≢ pos 0)
    × (leb_ℤ
          (clock platform (later 9) at_call (new_client 9) +ℤ t)
          (clock platform (later 9) at_call tried_once)
        ≡ true)
wait_for-none_example =
    wait_for-none (attempt 9) (clock platform (later 9) at_call) (poll platform (later 9) at_call)
      (some (pos 5)) 1 (new_client 9) tried_once gave_up
