-- ===== src/Client/Waiting/Shared.antt =====
-- Several coroutines of one `AsyncSequencerClient` (alsa_midi/client.py) that wait at the same time. Input and
-- output register their callbacks for the same descriptor, both by `loop.add_reader`: as asyncio documents,
-- a callback that was registered before is replaced, and `loop.remove_reader` removes whichever is there.
pub mod Newest
pub mod Stranded
pub mod Requests
use python_alsa_midi.Prelude.{
  ℕ, suc, ◌≡◌, Bool, true, false, Option, none, some, List, [], ◌∷◌, ◌++◌, length, get_elem?, set,
  if◌then◌else◌,
}
use python_alsa_midi.Exceptions.{Result, ok, err}
use python_alsa_midi.Stateful.{Act}
use python_alsa_midi.Client.Waiting.{is_none, is_final, Tried}
use python_alsa_midi.Client.Waiting.Callback.{Future, pending, cancelled, resolved, failed, is_done}

-- A coroutine that has begun to wait: what its callback tries, and the variables that it closes over.
pub record Task (K R V : Type 0) : Type 0 where
  pub request : K
  pub remainder : Option R
  pub future : Future (Tried R V)

-- The client, the coroutines in the order in which they began to wait, and the one whose callback is
-- registered for the descriptor.
pub record Shared (C K R V : Type 0) : Type 0 where
  pub client : C
  pub tasks : List (Task K R V)
  pub reader : Option ℕ

-- A client on which nothing waits.
abbrev pub idle : {C K R V : Type 0} → C → Shared C K R V
idle c = record { client = c; tasks = []; reader = none }

module _ {C K R V : Type 0} where
  abbrev pub write_task : ℕ → Task K R V → C → Option ℕ → Shared C K R V → Shared C K R V
  write_task i w c reader s = record { client = c; tasks = set s.tasks i w; reader = reader }

module _ {K R V : Type 0} where
  abbrev pub waiting_task : K → Tried R V → Task K R V
  waiting_task k t = record { request = k; remainder = t.remainder; future = Future.pending }

module _ {C K R V : Type 0} (attempt : K → Option R → Act C (Tried R V)) where
  -- After the first attempt: the coroutine returns, or makes its future and registers its callback.
  abbrev pub begun : K → Shared C K R V → Result (Tried R V) × C → Shared C K R V
  begun k s (err e, c) = record s { client = c }
  begun k s (ok t, c) = if is_final t.code t.remainder then record s { client = c } else (record {
    client = c;
    tasks = s.tasks ++ (waiting_task k t ∷ []);
    reader = some (length s.tasks);
  })

  -- `event_input`, `drain_output`, `event_output` or `event_output_direct` until it waits.
  unfoldable pub begin : K → Shared C K R V → Shared C K R V
  begin k s = begun k s (attempt k none s.client)

  -- After an attempt of the callback of the coroutine `i`.
  abbrev pub settled : ℕ → Task K R V → Shared C K R V → Result (Tried R V) × C → Shared C K R V
  settled i w s (err e, c) =
      write_task i (record w { future = failed e }) c
        (if is_none w.remainder then none else s.reader) s
  settled i w s (ok t, c) =
      if is_final t.code t.remainder
      then (write_task i (record w { remainder = t.remainder; future = resolved t }) c none s)
      else (write_task i (record w { remainder = t.remainder }) c s.reader s)

  abbrev pub run_task : ℕ → Option (Task K R V) → Shared C K R V → Shared C K R V
  run_task i none s = s
  run_task i (some w) s =
      if is_done w.future then s else settled i w s (attempt w.request w.remainder s.client)

  -- `reader_cb` or `writer_cb` of the coroutine `i`
  unfoldable pub run_callback : ℕ → Shared C K R V → Shared C K R V
  run_callback i s = run_task i (get_elem? s.tasks i) s

  -- What can happen next, in any order: another coroutine begins, the descriptor is ready, or the time of a
  -- coroutine runs out.
  pub data Step (s : Shared C K R V) : Shared C K R V → Type 0 where
    begins : (k : K) → Step s (begin k s)
    ready : (i : ℕ) → s.reader ≡ some i → Step s (run_callback i s)
    timeout :
        (i : ℕ) (w : Task K R V)
        → get_elem? s.tasks i ≡ some w
        → w.future ≡ pending
        → Step s (record s { tasks = set s.tasks i (record w { future = cancelled }) })

  pub data Reach (s : Shared C K R V) : Shared C K R V → Type 0 where
    here : Reach s s
    next : {t u : Shared C K R V} → Reach s t → Step t u → Reach s u
