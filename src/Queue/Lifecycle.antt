-- ===== src/Queue/Lifecycle.antt =====
-- The end of a queue object (alsa_midi/queue.py): what `close` calls, and that it is final.
use python_alsa_midi.Prelude.{
  ◌≡◌, refl, Bool, true, false, Option, none, some, List, [], ◌∷◌, ◌++◌, ℤ, pos, arith,
}
use python_alsa_midi.Exceptions.{ok}
use python_alsa_midi.Handle.{Client, Call, Library, State}
use python_alsa_midi.Queue.{Queue, close_from, close}

-- The calls that closing makes, newest first.
unfoldable pub closing : Queue → List Call
closing q = elim q.client [
  | none ↦ []
  | some c ↦ elim q.queue_id [
    | none ↦ []
    | some id ↦ elim c.handle [
      | none ↦ []
      | some h ↦ elim q.own [
        | none ↦ []
        | some true ↦ Call.free_queue h id ∷ []
        | some false ↦ Call.set_queue_usage h id (pos 0) ∷ []
      ]
    ]
  ]
]

-- Closing calls `snd_seq_free_queue` once for a queue that the client made, withdraws the usage of one
-- that it only used, and calls nothing for an unmanaged queue, a closed one or a closed client.
pub close-log : (l : Library) (s : State Queue) → (close l s).1.1 ≡ closing s.0 ++ s.1
unfolding close closing
close-log l s = ground arith

-- Closing again does nothing, also when the first time raised an error.
pub close-close : (l : Library) (s : State Queue) → close l (close l s).1 ≡ (ok tt, (close l s).1)
unfolding close
close-close l s = ground arith

close_from-none :
    (l : Library) (id : Option ℤ) (c : Option Client) (own : Option Bool) (s : State Queue)
    → c ≡ none
    → close_from l id c own s ≡ (ok tt, s)
close_from-none l none c own s h = refl
close_from-none l (some id) c own s h = rw h refl

pub close-closed : (l : Library) (s : State Queue) → s.0.client ≡ none → close l s ≡ (ok tt, s)
unfolding close
close-closed l s h = close_from-none l s.0.queue_id s.0.client s.0.own s h
