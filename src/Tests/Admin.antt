-- ===== src/Tests/Admin.antt =====
-- The theorems on the management of a client (alsa_midi/client.py) at concrete inputs.
use python_alsa_midi.Prelude.{
  ℕ, ◌==◌, ◌≡◌, refl, true, false, not, ◌&&◌, none, some, List, [], ◌∷◌, ℤ, pos, get_elem?, has_any,
  arith,
}
use python_alsa_midi.Exceptions.{ok, err, assertion_error, check_alsa_error}
use python_alsa_midi.Structures.{AlsaFilter, AlsaClientInfo}
use python_alsa_midi.Address.{of_address, new}
use python_alsa_midi.EventType.{EventType, value, members, has_value}
use python_alsa_midi.Port.Info.{of_bool}
use python_alsa_midi.Handle.{Call, State, argument}
use python_alsa_midi.Struct.{fits}
use python_alsa_midi.Queue.{init}
use python_alsa_midi.Queue
use python_alsa_midi.Client.Info.{
  ClientInfo, add_all, not_negative, from_alsa, to_alsa, client_type, filter_to_alsa,
  filter_from_alsa,
}
use python_alsa_midi.Client.Info.RoundTrip.{client_info_round_trip, filter_round_trip}
use python_alsa_midi.Client.Admin.{Session, check_handle, handle, close}
use python_alsa_midi.Client.Closed.{Method, refusal, invoke, invoke-close}
use python_alsa_midi.Client.Admin.Queues.{
  lookup, new_queue, register, create_queue, get_queue, close_queue,
}
use python_alsa_midi.Client.Admin.Queues.Registry.{get_queue-create_queue, create_queue-closed}
use python_alsa_midi.Client.Admin.Query.{QueryType}
use python_alsa_midi.Client.Admin.Query as Query
use python_alsa_midi.Client.Admin.Subscriptions.{list_port_subscribers}
use python_alsa_midi.Client.Admin.Subscriptions.Listing.{
  Serves, described, list_port_subscribers-lists,
}
use python_alsa_midi.Client.Admin.RemoveEvents.{
  remove_dest, remove_dest_channel, remove_time_before, remove_time_after, remove_time_tick,
  remove_event_type, remove_ignore_off, remove_tag_match, Time, RemoveArgs, condition_bits,
}
use python_alsa_midi.Client.Admin.RemoveEvents.Bits.{condition_bits-flags}
use python_alsa_midi.Tests.Setup.{parse_address, synth, platform}
use python_alsa_midi.Tests.Clients.{sequencer, encoder, idle}
use python_alsa_midi.Tests.AdminSetup.{
  no_filter, add, clear, client_info, reader, memory, alsa, session, open_session,
}

invoke-close_example :
    invoke parse_address alsa memory sequencer platform encoder
      (λ calls. pos 0)
      Method.drain
      ((close alsa open_session).1, idle)
    ≡ some (err (refusal Method.drain), ((close alsa open_session).1, idle))
invoke-close_example =
    invoke-close parse_address alsa memory sequencer platform encoder (λ calls. pos 0) Method.drain
      open_session idle

-- The session with the queue 5.
abbrev with_queue : State Session
with_queue = (create_queue alsa memory none none open_session).1

created : create_queue alsa memory none none open_session ≡ (ok 0, with_queue)
unfolding create_queue new_queue check_handle handle register lookup check_alsa_error init
created = refl

get_queue-create_queue_example :
    (k : ℤ) × (get_elem? with_queue.0.objects 0
      ≡ some (init (record { handle = with_queue.0.handle }) k (some true)))
    × (get_queue alsa memory k with_queue ≡ (ok 0, with_queue))
get_queue-create_queue_example =
    get_queue-create_queue alsa memory none none open_session with_queue 0 created

-- The queue 5 is closed, and ALSA makes another one.
abbrev with_closed : State Session
with_closed = (close_queue alsa memory 0 with_queue).1

abbrev reused : State Session
reused = (new_queue alsa memory none none with_closed).1

first_id :
    new_queue alsa memory none none open_session
    ≡ (ok (pos 5), (open_session.0, Call.alloc_queue 1 ∷ []))
unfolding new_queue handle check_alsa_error
first_id = refl

same_id : new_queue alsa memory none none with_closed ≡ (ok (pos 5), reused)
unfolding create_queue new_queue check_handle handle register lookup check_alsa_error init
    close_queue Queue.close
same_id = refl

create_queue-closed_example :
    (create_queue alsa memory none none with_closed ≡ (err assertion_error, reused))
    × (get_queue alsa memory (pos 5) reused ≡ (ok 0, reused))
create_queue-closed_example =
    create_queue-closed alsa memory none none none none open_session
      (open_session.0, Call.alloc_queue 1 ∷ []) with_queue reused 0 (pos 5) first_id created same_id

abbrev a_filter : AlsaFilter
a_filter = add (pos 6) (add (pos 7) no_filter)

filtered :
    filter_to_alsa add clear (some (EventType.noteoff ∷ EventType.noteon ∷ [])) no_filter
    ≡ ok a_filter
unfolding filter_to_alsa add_all value argument fits
filtered = refl

filter_round_trip_example :
    (es : List EventType) × (filter_from_alsa a_filter ≡ some es)
    × ((n : ℕ)
        → has_value es n ≡ (
            has_value members n
            && (not (n == value EventType.no_event)
                && has_value (EventType.noteoff ∷ EventType.noteon ∷ []) n)))
filter_round_trip_example =
    filter_round_trip add clear (λ e f. refl) (λ e f n. refl) EventType.noteoff
      (EventType.noteon ∷ []) no_filter a_filter (λ n. refl) filtered

-- A client that wants errors bounced, and no broadcast events.
abbrev bouncing : ClientInfo
bouncing = record {
  client_id = pos 128;
  name = "piano";
  broadcast_filter = false;
  error_bounce = true;
  type = none;
  card_id = none;
  pid = none;
  num_ports = pos 0;
  event_lost = pos 0;
  event_filter = none;
}

abbrev bouncing_alsa : AlsaClientInfo
bouncing_alsa = record client_info { client = pos 128; name = "piano"; error_bounce = pos 1 }

abbrev bouncing_read : ClientInfo
bouncing_read = record bouncing { error_bounce = false; type = some (pos 1); pid = some (pos 77) }

bouncing_written : to_alsa add clear bouncing client_info ≡ ok bouncing_alsa
unfolding to_alsa of_bool filter_to_alsa argument fits
bouncing_written = refl

bouncing_back : from_alsa bouncing_alsa ≡ ok bouncing_read
unfolding from_alsa client_type not_negative filter_from_alsa
bouncing_back = refl

client_info_round_trip_example :
    (bouncing_read.client_id ≡ pos 128)
    × (bouncing_read.name ≡ bouncing.name)
    × (bouncing_read.broadcast_filter ≡ false)
    × (bouncing_read.error_bounce ≡ false)
client_info_round_trip_example =
    client_info_round_trip add clear bouncing bouncing_read client_info bouncing_alsa
      bouncing_written bouncing_back

abbrev remove_args : RemoveArgs
remove_args = record {
  condition = none;
  queue = none;
  time = some (Time.ticks (pos 96));
  dest = none;
  channel = some (pos 0);
  event_type = none;
  tag = none;
  before = true;
  ignore_off = false;
}

condition_bits-flags_example :
    (has_any (condition_bits 0 remove_args) remove_dest ≡ false)
    × (has_any (condition_bits 0 remove_args) remove_dest_channel ≡ true)
    × (has_any (condition_bits 0 remove_args) remove_time_before ≡ true)
    × (has_any (condition_bits 0 remove_args) remove_time_after ≡ false)
    × (has_any (condition_bits 0 remove_args) remove_time_tick ≡ true)
    × (has_any (condition_bits 0 remove_args) remove_event_type ≡ false)
    × (has_any (condition_bits 0 remove_args) remove_ignore_off ≡ false)
    × (has_any (condition_bits 0 remove_args) remove_tag_match ≡ false)
condition_bits-flags_example = condition_bits-flags remove_args

reader_served : Serves parse_address alsa memory 1 synth QueryType.read 0 (reader ∷ [])
unfolding fits Query.value
reader_served = (
  refl,
  refl,
  refl,
  λ calls q asks. (rw (asks.1, asks.2) refl, refl),
  (refl, λ calls q asks. rw (asks.1, asks.2) refl),
)

writers_served : Serves parse_address alsa memory 1 synth QueryType.write 0 []
unfolding fits Query.value
writers_served = (refl, λ calls q asks. rw asks.1 refl)

list_port_subscribers-lists_example :
    (calls : List Call) × (list_port_subscribers parse_address alsa memory 2
        (of_address synth)
        none
        open_session
      ≡ some (ok (described QueryType.read reader ∷ []), (session, calls)))
unfolding fits new
list_port_subscribers-lists_example =
    list_port_subscribers-lists parse_address alsa memory 1 synth (of_address synth) (reader ∷ [])
      [] 2 open_session refl refl refl refl refl reader_served writers_served (omega arith)
      (omega arith)
