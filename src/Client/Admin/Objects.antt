-- ===== src/Client/Admin/Objects.antt =====
-- The methods of `Queue` (alsa_midi/queue.py) and `Port` (alsa_midi/port.py) that their client does: the
-- object is one of this client, unless it is closed.
use python_alsa_midi.Prelude.{ℕ, Option, none, some, List, String, ℤ}
use python_alsa_midi.Exceptions.{Result, err, already_closed}
use python_alsa_midi.Stateful.{lift}
use python_alsa_midi.Address.{Parsed, of_port}
use python_alsa_midi.Port.Info.{PortInfo}
use python_alsa_midi.Port.Handle.{Port}
use python_alsa_midi.Handle.{Library, State, Py}
use python_alsa_midi.Queue.{Queue}
use python_alsa_midi.Queue.Info.{QueueInfo, QueueStatus}
use python_alsa_midi.Client.Admin.{Session, Memory}
use python_alsa_midi.Client.Admin.Queues.{get_queue_info, set_queue_info, get_queue_status}
use python_alsa_midi.Client.Admin.Ports.{address, get_port_info, set_port_info}
use python_alsa_midi.Client.Admin.Query.{QueryType, SubscriptionQuery}
use python_alsa_midi.Client.Admin.Subscriptions.{list_port_subscribers}

-- `if self.client is None or self.queue_id is None`
abbrev pub with_queue : {A : Type 0} → Queue → (ℤ → Py Session A) → Py Session A
with_queue q method = elim q.client [
  | none ↦ lift (err already_closed)
  | some c ↦ elim q.queue_id [ none ↦ lift (err already_closed) | some k ↦ method k ]
]

-- `if self.client is None`
abbrev pub with_port : {A : Type 0} → Port → Py Session A → Py Session A
with_port p method = elim p.client [ none ↦ lift (err already_closed) | some c ↦ method ]

module _ (parse : String → Parsed) (l : Library) (m : Memory) where
  -- `Queue.get_info`
  unfoldable pub queue_info : Queue → Py Session QueueInfo
  unfolding get_queue_info
  queue_info q = with_queue q (get_queue_info l m)

  -- `Queue.set_info`
  unfoldable pub change_queue_info : Queue → QueueInfo → Py Session Unit
  unfolding set_queue_info
  change_queue_info q info = with_queue q (λ k. set_queue_info l m k info)

  -- `Queue.get_status`
  unfoldable pub queue_status : Queue → Py Session QueueStatus
  unfolding get_queue_status
  queue_status q = with_queue q (get_queue_status l m)

  -- `Port.get_info`
  unfoldable pub port_info : Port → Py Session PortInfo
  unfolding get_port_info
  port_info p =
      with_port p (get_port_info l m parse (address (of_port p.client_id (some p.port_id))))

  -- `Port.set_info`
  unfoldable pub change_port_info : Port → PortInfo → Py Session Unit
  unfolding set_port_info
  change_port_info p info = with_port p (set_port_info l m p.port_id info)

  -- `Port.list_subscribers`, on fuel
  unfoldable pub list_subscribers :
      ℕ
      → Port
      → Option QueryType
      → State Session
      → Option (Result (List SubscriptionQuery) × State Session)
  unfolding list_port_subscribers
  list_subscribers fuel p type s = elim p.client [
    | none ↦ some (err already_closed, s)
    | some c ↦ list_port_subscribers parse l m fuel (of_port p.client_id (some p.port_id)) type s
  ]
