-- ===== src/Lib.antt =====
-- python-alsa-midi: the Python bindings of the ALSA sequencer.
--
-- Events (alsa_midi/event.py) are Python objects that are written to and read from the C struct
-- `snd_seq_event_t`. Clients (alsa_midi/client.py) exchange them with the sequencer, own ports
-- (alsa_midi/port.py) and queues (alsa_midi/queue.py), and list the ports of others, which are named by
-- addresses (alsa_midi/address.py).
--
-- Which file models what:
--   Exceptions         alsa_midi/exceptions.py and alsa_midi/util.py: errors as values
--   RealTime           class RealTime; Normal and Order hold its laws
--   Address            class Address, from every form of argument
--   EventType          EventType with `_missing_`, MIDI_BYTES_EVENTS; EventFlags the flag words
--   Struct             snd_seq_event_t of alsa_midi/_ffi_defs.py; Bytes: its memory as bytes, at the packed
--                      offsets and little-endian; Writes: several fields in turn
--   Platform           what events take from elsewhere, in one record
--   Event              Header: `Event.__init__`; ToAlsa, FromAlsa: `Event._to_alsa`, `Event._from_alsa`;
--                      Notes, Controls, QueueControls, Addresses: the subclasses; Class: the decorator
--                      and `Event._specialized`; Construct: the constructors; Codec: a whole event;
--                      Dispatch, RoundTrip, Received: theorems on these
--   Port               Flags, Info: PortInfo; SortKey: get_port_info_sort_key; Handle: class Port
--   Stateful, Handle   state passing, and what Port, Queue and the client share: the handle, the calls of
--                      ALSA and their log; Structures: the C structures behind getters and setters
--   Queue              class Queue; Arguments: the arguments of `set_tempo`; Info: QueueInfo, QueueStatus;
--                      Timer: QueueTimer, `get_timer`, `set_timer`; Lifecycle: `close`; Invoke, Frees:
--                      any methods in any order
--   Client             Enumerate: the query loops; ListPorts: `list_ports`; Info: ClientInfo, SystemInfo,
--                      ClientPool; Session: the parser of MIDI bytes and the calls for events; Output:
--                      `_prepare_event`, `_event_output`, `event_output`, `_event_output_direct`,
--                      `event_output_direct`, `event_output_buffer`; Input: `_event_input`, `event_input`,
--                      `extract_output`; Forward: input and output together; Closed: a closed
--                      client
--   Client/Waiting     Loop: the waiting loop of SequencerClient, for input and output; Callback: the
--                      callbacks of a coroutine of AsyncSequencerClient that is alone on its client, with
--                      the event loop as a step relation;
--                      Attempts: what is tried again; Blocking, Coroutines: the methods of both classes;
--                      Refused: a piece that ALSA refuses; Shared: several coroutines that wait on one
--                      client
--   Client/Admin       the rest of SequencerClientBase: the session, `close`, buffers, pools, information;
--                      Open: the constructors; Queues: `create_queue`, `get_queue`; PortArgs, Ports:
--                      `create_port` and the port queries; Query, Subscriptions: subscriptions;
--                      RemoveEvents (Setters), Remove: `remove_events`; Objects: the methods that
--                      Queue and Port leave to the client; Identity: the sequencer's name and type,
--                      `__del__`, `aclose`; Closed: these on a closed client
--   Mido               alsa_midi/mido_backend.py: FindPort: `_find_port`, `get_devices`; Open: `_open`,
--                      `_close`; Input: `_handle_input_bytes`, `_receive`; Loop: `_input_loop`; Send: `_send`
--   Tests              the theorems at concrete inputs
--
-- Parameters. The ALSA library, cffi and Python's floats and number parsers are not defined here. They are
-- arguments: `Numbers`, `Platform`, `Union` (memory that gives back what was written, with an
-- implementation by bytes), `Sequencer` (the answers to the queries, the same during one call), `Library`
-- in Handle and in Client/Session (the answer to each call by the log of the calls before it), `Memory` in
-- Client/Admin (what ALSA allocates and leaves in a structure, what it keeps of the id of a client or a
-- port, and its event filters), the clock, and `Parser` in Mido/Input. A value that does not fit its C type
-- raises OverflowError, as cffi does. A structure gives back what its setters wrote, names included.
-- Handles are not null. A client for events and a session for the rest are two views of one object: events
-- use the parser, the rest uses the handle, the id and the queues.
--
-- Fuel. The loops of `list_ports` run 257 rounds: ids of clients and ports are bytes, and a sequencer
-- that answers in the order of the ids has at most 256 of each. The loop of `event_output` takes its
-- fuel as an argument; one round more than there are bytes is enough for an encoder that takes at least
-- one byte of those that it is offered. So do the waiting loop, for which one round more than the
-- timeout has units of time is enough, and `list_port_subscribers`, for which one round more than there are
-- subscriptions of a type is enough.
--
-- Not modelled: the texts of `repr` and of messages, `Event.length` and `SetQueueTempoEvent.bpm`, which ask
-- ALSA or divide floats and change nothing, reference counts (`__del__` is a method that may be
-- called at any time; a queue object is dropped by `collect`), allocation of the info objects in
-- `list_ports`, bpm given as a float in `Queue.set_tempo`, the cancellation of a coroutine from outside,
-- and of the back-end for MIDO its input thread, its single client, ports that come and go while its loop
-- runs, a callback that raises, and MIDO's own classes.
pub mod Prelude
pub mod Exceptions
pub mod RealTime
pub mod Address
pub mod EventType
pub mod Struct
pub mod Structures
pub mod EventFlags
pub mod Platform
pub mod Event
pub mod Port
pub mod Stateful
pub mod Handle
pub mod Queue
pub mod Client
pub mod Mido
pub mod Tests
