-- ===== src/Client/Waiting/Callback.antt =====
-- The callbacks of `AsyncSequencerClient` (alsa_midi/client.py). After a first attempt that is not
-- final, `event_input` and `_event_output_wait` make a future and register a callback for their file
-- descriptor; the event loop calls it whenever the descriptor is ready, and may cancel the future after
-- the timeout (`asyncio.wait_for`). What the event loop does is a relation, in any order. This is one coroutine
-- alone on its client; Client/Waiting/Shared has several, which replace the callbacks of each other.
pub mod Safety
use python_alsa_midi.Prelude.{
  ◌≡◌, ◌≢◌, refl, Bool, true, false, not, Bool-cases, inl, inr, Option, none, some, ℤ, arith,
}
use python_alsa_midi.Exceptions.{Error, Result, ok, err, check_alsa_error}
use python_alsa_midi.Stateful.{Act}
use python_alsa_midi.Client.Waiting.{eagain, is_none, is_final, Tried, checked_value}

pub data Future (T : Type 0) : Type 0 where
  pending cancelled : Future T
  resolved : T → Future T
  failed : Error → Future T

-- `fut.done()`
abbrev pub is_done : {T : Type 0} → Future T → Bool
is_done Future.pending = false
is_done _ = true

-- The variables that the callback closes over, and whether the callback is registered.
pub record Waiter (C R V : Type 0) : Type 0 where
  pub client : C
  pub remainder : Option R
  pub future : Future (Tried R V)
  pub is_registered : Bool

module _ {C R V : Type 0} (attempt : Option R → Act C (Tried R V)) where
  -- After the attempt of the callback. An exception counts as a result that is not `-EAGAIN`, and leaves
  -- the remainder as it was.
  abbrev pub after_attempt : Waiter C R V → Result (Tried R V) × C → Waiter C R V
  after_attempt w (err e, c) = record w {
    client = c;
    future = Future.failed e;
    is_registered = not (is_none w.remainder);
  }
  after_attempt w (ok t, c) = elim (is_final t.code t.remainder) [
    | true ↦ record {
      client = c;
      remainder = t.remainder;
      future = Future.resolved t;
      is_registered = false;
    }
    | false ↦ record w { client = c; remainder = t.remainder }
  ]

  -- `reader_cb` and `writer_cb`
  unfoldable pub callback : Waiter C R V → Waiter C R V
  callback w = elim (is_done w.future) [
    | true ↦ w
    | false ↦ after_attempt w (attempt w.remainder w.client)
  ]

  -- Before the coroutine waits: the first attempt, and what follows it.
  pub data Started : Type 0 where
    returned : Result (Option V) → C → Started
    waiting : Waiter C R V → Started

  abbrev pub after_first : Result (Tried R V) × C → Started
  after_first (err e, c) = returned (err e) c
  after_first (ok t, c) = elim (is_final t.code t.remainder) [
    | true ↦ returned (checked_value t) c
    | false ↦ waiting (record {
      client = c;
      remainder = t.remainder;
      future = Future.pending;
      is_registered = true;
    })
  ]

  unfoldable pub start : C → Started
  unfolding check_alsa_error
  start c = after_first (attempt none c)

  -- What the coroutine does when its future is done.
  unfoldable pub finish : Waiter C R V → Option (Result (Option V))
  unfolding check_alsa_error
  finish w = elim w.future [
    | pending ↦ none
    | cancelled ↦ some (ok none)
    | resolved t ↦ some (checked_value t)
    | failed e ↦ some (err e)
  ]

  -- The event loop runs the callback of a descriptor that is ready, or lets the time run out.
  pub data Step (w : Waiter C R V) : Waiter C R V → Type 0 where
    ready : w.is_registered ≡ true → Step w (callback w)
    timeout : w.future ≡ Future.pending → Step w (record w { future = Future.cancelled })

  pub data Reach (w : Waiter C R V) : Waiter C R V → Type 0 where
    here : Reach w w
    next : {t u : Waiter C R V} → Reach w t → Step t u → Reach w u
