-- ===== src/Client/Admin/Open.antt =====
-- The constructors of `SequencerClientBase` and `SequencerClient` (alsa_midi/client.py), with `_get_fds`.
-- What `snd_seq_open` and `snd_seq_poll_descriptors` write is given by the calls made.
use python_alsa_midi.Prelude.{
  ℕ, Bool, ◌&&◌, Option, none, some, List, [], ◌∷◌, String, ℤ, pos, eqb_ℤ, has_any, if◌then◌else◌,
}
use python_alsa_midi.Exceptions.{ok, err, value_error, assertion_error, check_alsa_error}
use python_alsa_midi.Stateful.{Act, lift, return, ◌>>=◌, ◌>>◌}
use python_alsa_midi.Struct.{i32}
use python_alsa_midi.Handle.{Call, Library, argument}
use python_alsa_midi.Client.Admin.{Session}

-- `struct pollfd`
pub record PollFd : Type 0 where
  pub fd : ℤ
  pub events : ℕ

-- `OpenMode.NONBLOCK`
abbrev pub nonblock : ℕ
nonblock = 1

-- `select.POLLIN` and `select.POLLOUT`
abbrev pub poll_in : ℕ
poll_in = 1

abbrev pub poll_out : ℕ
poll_out = 4

-- The session of a handle, and the descriptor `_fd`.
abbrev pub Opened : Type 0
Opened = Session × ℤ

module _ (l : Library) (opened : List Call → ℕ) (descriptor : List Call → PollFd) where
  abbrev made : Call → Act (List Call) ℤ
  made c calls = (ok (l.answer calls c), c ∷ calls)

  abbrev assert : Bool → Act (List Call) Unit
  assert b = lift (if b then ok tt else err assertion_error)

  abbrev pub written : {A : Type 0} → (List Call → A) → Act (List Call) A
  written read calls = (ok (read calls), calls)

  -- `_get_fds`
  unfoldable pub get_fds : ℕ → Act (List Call) ℤ
  get_fds h = do
    count ← made (Call.poll_descriptors_count h)
    assert (eqb_ℤ count (pos 1))
    filled ← made (Call.poll_descriptors h)
    assert (eqb_ℤ filled (pos 1))
    d ← written descriptor
    assert (has_any d.events poll_in && has_any d.events poll_out)
    return d.fd

  -- `SequencerClientBase.__init__`
  unfoldable pub base_init : String → ℕ → ℕ → String → Act (List Call) Opened
  unfolding argument get_fds check_alsa_error
  base_init client_name streams mode sequencer_name = do
    s ← lift (argument i32 (pos streams))
    m ← lift (argument i32 (pos mode))
    code ← made (Call.open_client sequencer_name s m)
    lift (check_alsa_error code)
    h ← written opened
    _ ← made (Call.set_client_name h client_name)
    id ← made (Call.client_id h)
    fd ← get_fds h
    return (record { handle = some h; client_id = id; objects = []; queues = [] }, fd)

  -- `SequencerClient.__init__` and that of `AsyncSequencerClient`: a mode that is given must not block.
  unfoldable pub init : String → ℕ → Option ℕ → String → Act (List Call) Opened
  unfolding base_init
  init client_name streams none sequencer_name =
      base_init client_name streams nonblock sequencer_name
  init client_name streams (some mode) sequencer_name =
      if has_any mode nonblock
      then base_init client_name streams mode sequencer_name
      else lift (err value_error)
