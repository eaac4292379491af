-- ===== src/Client/Closed.antt =====
-- A client of alsa_midi/client.py after `close`: every method of `SequencerClientBase` and
-- `SequencerClient` that checks the handle, those for events included.
use python_alsa_midi.Prelude.{
  ◌≡◌, refl, ap, Bool, true, false, Option, none, some, List, [], String, ℕ, ℤ,
}
use python_alsa_midi.Exceptions.{Error, Result, ok, err, already_closed}
use python_alsa_midi.Stateful.{bind_to}
use python_alsa_midi.Address.{Arg, Parsed}
use python_alsa_midi.Platform.{Platform}
use python_alsa_midi.Event.ToAlsa.{Overrides, Alsa}
use python_alsa_midi.Event.Codec.{Event}
use python_alsa_midi.Handle.{Size, Library, State, Py}
use python_alsa_midi.Client.Session.{IoCall, Client}
use python_alsa_midi.Client.Session as Io
use python_alsa_midi.Client.Output.{
  event_output, event_output_direct, event_output_buffer, event_output_pending, drain_output,
}
use python_alsa_midi.Client.Input.{event_input_pending, extract_output}
use python_alsa_midi.Client.Waiting.Blocking as Blocking
use python_alsa_midi.Client.ListPorts.{Options, Sequencer, list_ports}
use python_alsa_midi.Client.Admin.{Session, Memory, close, set_size}
use python_alsa_midi.Client.Admin.Query.{QueryType}
use python_alsa_midi.Client.Admin.Subscriptions.{
  list_port_subscribers, listed, from_address, type_loop, types_of,
}
use python_alsa_midi.Client.Admin.RemoveEvents.{RemoveArgs, admits}
use python_alsa_midi.Client.Admin.Remove.{remove_events}
use python_alsa_midi.Client.Admin.Closed as Managed

-- A call of a method that checks the handle; loops with their fuel. `wait_` are the methods of
-- `SequencerClient`, which override those of the base class.
pub data Method : Type 0 where
  managed : Managed.Method → Method
  output_size_to input_size_to : ℤ → Method
  remove : RemoveArgs → Method
  subscribers : ℕ → Arg → Option QueryType → Method
  ports : Options → Method
  output output_direct output_buffer wait_output wait_output_direct : ℕ → Event → Overrides → Method
  output_pending drain : Method
  wait_drain : ℕ → Method
  input_pending : Bool → Method
  extract : Method

abbrev no_value : {A : Type 0} → Result A → Result (Unit {0})
no_value (ok _) = ok tt
no_value (err e) = err e

abbrev first_error : Result (Unit {0}) → Error
first_error (ok _) = already_closed
first_error (err e) = e

-- The error that a call deserves: `remove_events` looks at its arguments first.
unfoldable pub refusal : Method → Error
refusal (remove a) = first_error (admits a)
refusal _ = already_closed

module _ (parse : String → Parsed) (l : Library) (m : Memory) (sequencer : Sequencer) (p : Platform)
    (io : Io.Library (Alsa p)) (time : List (IoCall (Alsa p)) → ℤ) where
  -- The client: what its management keeps, and what events keep.
  abbrev pub Whole : Type 0
  Whole = State Session × Client p io

  abbrev pub Outcome : Type 0
  Outcome = Option (Result (Unit {0}) × Whole)

  abbrev managing : {A : Type 0} → Result A × State Session → Client p io → Outcome
  managing r c = some (no_value r.0, (r.1, c))

  abbrev managing_loop : {A : Type 0} → Option (Result A × State Session) → Client p io → Outcome
  managing_loop none c = none
  managing_loop (some r) c = managing r c

  abbrev with_events : {A : Type 0} → State Session → Result A × Client p io → Outcome
  with_events s r = some (no_value r.0, (s, r.1))

  abbrev with_events_loop : {A : Type 0} → State Session → Option (Result A × Client p io) → Outcome
  with_events_loop s none = none
  with_events_loop s (some r) = with_events s r

  abbrev answered : {A : Type 0} → Whole → Option (Result A) → Outcome
  answered w none = none
  answered w (some r) = some (no_value r, w)

  abbrev is_open : State Session → Bool
  is_open s = elim s.0.handle [ none ↦ false | some h ↦ true ]

  -- The method, its result dropped.
  unfoldable pub invoke : Method → Whole → Outcome
  unfolding set_size remove_events list_port_subscribers list_ports event_output event_output_direct
      event_output_buffer event_output_pending drain_output event_input_pending extract_output
      Blocking.event_output Blocking.event_output_direct Blocking.drain_output Managed.invoke
  invoke (managed x) (s, c) = managing (Managed.invoke parse l m x s) c
  invoke (output_size_to v) (s, c) = managing (set_size l Size.output_buffer v s) c
  invoke (input_size_to v) (s, c) = managing (set_size l Size.input_buffer v s) c
  invoke (remove a) (s, c) = managing (remove_events parse l m a s) c
  invoke (subscribers fuel port type) (s, c) =
      managing_loop (list_port_subscribers parse l m fuel port type s) c
  invoke (ports o) (s, c) = answered (s, c) (list_ports sequencer (is_open s) o)
  invoke (output fuel e o) (s, c) = with_events_loop s (event_output p io (is_open s) fuel e o c)
  invoke (output_direct fuel e o) (s, c) =
      with_events_loop s (event_output_direct p io (is_open s) fuel e o c)
  invoke (output_buffer fuel e o) (s, c) =
      with_events_loop s (event_output_buffer p io (is_open s) fuel e o c)
  invoke (wait_output fuel e o) (s, c) =
      with_events_loop s (Blocking.event_output p io time (is_open s) fuel e o c)
  invoke (wait_output_direct fuel e o) (s, c) =
      with_events_loop s (Blocking.event_output_direct p io time (is_open s) fuel e o c)
  invoke output_pending (s, c) = with_events s (event_output_pending p io (is_open s) c)
  invoke drain (s, c) = with_events s (drain_output p io (is_open s) c)
  invoke (wait_drain fuel) (s, c) =
      with_events_loop s (Blocking.drain_output p io time (is_open s) fuel c)
  invoke (input_pending fetch) (s, c) = with_events s (event_input_pending p io (is_open s) fetch c)
  invoke extract (s, c) = with_events s (extract_output p io (is_open s) c)

  managed-closed :
      (x : Managed.Method) (s : State Session) (c : Client p io)
      → s.0.handle ≡ none
      → invoke (managed x) (s, c) ≡ some (err already_closed, (s, c))
  unfolding invoke
  managed-closed x s c h =
      ap (λ (r : Result (Unit {0}) × State Session). managing r c)
        (Managed.method-closed parse l m x s h)

  after-first :
      (r : Result (Unit {0})) (k : Py Session ℤ) (s : State Session) (c : Client p io)
      → k s ≡ (err already_closed, s)
      → managing (bind_to (r, s) (λ _. k)) c ≡ some (err (first_error r), (s, c))
  after-first (ok _) k s c h = ap (λ (r : Result ℤ × State Session). managing r c) h
  after-first (err e) k s c h = refl

  remove-closed :
      (a : RemoveArgs) (s : State Session) (c : Client p io)
      → s.0.handle ≡ none
      → invoke (remove a) (s, c) ≡ some (err (refusal (remove a)), (s, c))
  unfolding invoke remove_events refusal
  remove-closed a s c h = after-first (admits a) _ s c (Managed.begins parse l m _ s h)

  subscribers-closed :
      (fuel : ℕ) (port : Arg) (type : Option QueryType) (s : State Session) (c : Client p io)
      → s.0.handle ≡ none
      → invoke (subscribers fuel port type) (s, c) ≡ some (err already_closed, (s, c))
  unfolding invoke list_port_subscribers
  subscribers-closed fuel port type s c h =
      ap
        (λ r.
          managing_loop
            (listed parse l m (
              from_address parse l m r
                (λ a s'. type_loop parse l m fuel a (types_of parse l m type) m.fresh_query [] s')))
            c)
        (Managed.begins parse l m _ s h)

  not_open : (s : State Session) → s.0.handle ≡ none → is_open s ≡ false
  not_open s h = ap (λ (o : Option ℕ). elim o [ none ↦ false | some _ ↦ true ]) h

  -- What a closed client answers.
  method-closed :
      (x : Method) (s : State Session) (c : Client p io)
      → s.0.handle ≡ none
      → invoke x (s, c) ≡ some (err (refusal x), (s, c))
  unfolding invoke refusal set_size list_port_subscribers list_ports event_output
      event_output_direct event_output_buffer event_output_pending drain_output event_input_pending
      extract_output Blocking.event_output Blocking.event_output_direct Blocking.drain_output
  method-closed (managed x) s c h = managed-closed x s c h
  method-closed (output_size_to v) s c h =
      ap (λ (r : Result (Unit {0}) × State Session). managing r c) (Managed.begins parse l m _ s h)
  method-closed (input_size_to v) s c h =
      ap (λ (r : Result (Unit {0}) × State Session). managing r c) (Managed.begins parse l m _ s h)
  method-closed (remove a) s c h = remove-closed a s c h
  method-closed (subscribers fuel port type) s c h = subscribers-closed fuel port type s c h
  method-closed (ports o) s c h =
      ap (λ b. answered (s, c) (list_ports sequencer b o)) (not_open s h)
  method-closed (output fuel e o) s c h =
      ap (λ b. with_events_loop s (event_output p io b fuel e o c)) (not_open s h)
  method-closed (output_direct fuel e o) s c h =
      ap (λ b. with_events_loop s (event_output_direct p io b fuel e o c)) (not_open s h)
  method-closed (output_buffer fuel e o) s c h =
      ap (λ b. with_events_loop s (event_output_buffer p io b fuel e o c)) (not_open s h)
  method-closed (wait_output fuel e o) s c h =
      ap (λ b. with_events_loop s (Blocking.event_output p io time b fuel e o c)) (not_open s h)
  method-closed (wait_output_direct fuel e o) s c h =
      ap (λ b. with_events_loop s (Blocking.event_output_direct p io time b fuel e o c))
        (not_open s h)
  method-closed output_pending s c h =
      ap (λ b. with_events s (event_output_pending p io b c)) (not_open s h)
  method-closed drain s c h = ap (λ b. with_events s (drain_output p io b c)) (not_open s h)
  method-closed (wait_drain fuel) s c h =
      ap (λ b. with_events_loop s (Blocking.drain_output p io time b fuel c)) (not_open s h)
  method-closed (input_pending fetch) s c h =
      ap (λ b. with_events s (event_input_pending p io b fetch c)) (not_open s h)
  method-closed extract s c h = ap (λ b. with_events s (extract_output p io b c)) (not_open s h)

  -- After `close`, every method of `SequencerClientBase` and `SequencerClient` that checks the handle raises
  -- `StateError`, calls nothing of ALSA and changes nothing; `remove_events` raises `TypeError` instead if it
  -- refuses its arguments.
  pub invoke-close :
      (x : Method) (s : State Session) (c : Client p io)
      → invoke x ((close l s).1, c) ≡ some (err (refusal x), ((close l s).1, c))
  invoke-close x s c = method-closed x (close l s).1 c (Managed.closed parse l m s)
