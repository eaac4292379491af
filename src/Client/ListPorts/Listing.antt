-- ===== src/Client/ListPorts/Listing.antt =====
-- `list_ports` of alsa_midi/client.py against the clients and ports that the sequencer has.
use python_alsa_midi.Prelude.{
  ◌≡◌, true, Bool-cases, inl, inr, some, List, [], ◌∷◌, negsuc, arith, if◌then◌else◌,
}
use python_alsa_midi.Prelude.Sort.{All}
use python_alsa_midi.Exceptions.{ok}
use python_alsa_midi.Port.Info.{PortInfo, AlsaPortInfo, from_alsa}
use python_alsa_midi.Client.Enumerate.{
  Serves, Rises, length-le_of_Rises, collect, Finds, scan-Serves,
}
use python_alsa_midi.Client.ListPorts.{
  Options, ClientEntry, Sequencer, visits, port_found, sorted_by, rounds, client_found, list_ports,
}
use python_alsa_midi.Client.ListPorts.Select.{wanted, selects-eq-wanted}

-- The clients of the sequencer with their ports, in the order of their ids.
abbrev pub Snapshot : Type 0
Snapshot = List (ClientEntry × List AlsaPortInfo)

abbrev pub client_of : ClientEntry × List AlsaPortInfo → ClientEntry
client_of e = e.0

abbrev pub same_port : AlsaPortInfo → AlsaPortInfo
same_port a = a

-- The ports of a client are answered in the order of their ids, which are bytes.
abbrev pub ServesPorts : Sequencer → ClientEntry × List AlsaPortInfo → Type 0
ServesPorts s e =
    Serves same_port (λ a. a.port) (s.next_port (client_of e).client) (negsuc 0) e.1
    × Rises same_port (λ a. a.port) 0 256 e.1

abbrev pub IsServed : Sequencer → Snapshot → Type 0
IsServed s snap =
    Serves client_of (λ c. c.client) s.next_client (negsuc 0) snap
    × Rises client_of (λ c. c.client) 0 256 snap
    × All (ServesPorts s) snap

-- What is listed: of each client that is visited, the ports that are wanted, with the client's name.
abbrev pub listed_port : Options → ClientEntry → AlsaPortInfo → List PortInfo
listed_port o c a =
    if wanted o (from_alsa a) then record (from_alsa a) { client_name = some c.name } ∷ [] else []

abbrev pub listed_client : Options → ClientEntry × List AlsaPortInfo → List PortInfo
listed_client o e = if visits o e.0 then collect (listed_port o e.0) e.1 else []

abbrev pub listing : Options → Snapshot → List PortInfo
listing o snap = collect (listed_client o) snap

module _ (s : Sequencer) (o : Options) where
  ports-found :
      (c : ClientEntry) (ports : List AlsaPortInfo)
      → Finds same_port
          (λ a. a.port)
          (λ a. some (ok (port_found o c.name a)))
          (listed_port o c)
          ports
  unfolding port_found
  ports-found c [] = tt
  ports-found c (a ∷ ports) = (rw (selects-eq-wanted o (from_alsa a)), ports-found c ports)

  client-found :
      (e : ClientEntry × List AlsaPortInfo)
      → ServesPorts s e
      → client_found s o e.0 ≡ some (ok (listed_client o e))
  unfolding client_found
  client-found e h =
      let found =
        scan-Serves same_port (λ a. a.port) (λ a. some (ok (port_found o e.0.name a)))
          (listed_port o e.0) (s.next_port e.0.client) (negsuc 0) e.1 rounds h.0
          (ports-found e.0 e.1)
          (omega (arith, length-le_of_Rises same_port (λ a. a.port) 256 e.1 h.1)) in
      elim (Bool-cases (visits o e.0)) [ inl v ↦ rw v found | inr n ↦ rw n ]

  clients-found :
      (snap : Snapshot)
      → All (ServesPorts s) snap
      → Finds client_of (λ c. c.client) (client_found s o) (listed_client o) snap
  clients-found [] h = tt
  clients-found (e ∷ snap) h = (client-found e h.0, clients-found snap h.1)

  -- When the sequencer answers with a snapshot whose ids rise and are bytes, the loops of `list_ports`
  -- of an open client end, and the ports of the snapshot that are wanted are returned, in the order
  -- asked for.
  pub list_ports-listing :
      (snap : Snapshot)
      → IsServed s snap
      → list_ports s true o ≡ some (ok (sorted_by o (listing o snap)))
  unfolding list_ports
  list_ports-listing snap h = rw (
      scan-Serves client_of (λ c. c.client) (client_found s o) (listed_client o) s.next_client
        (negsuc 0) snap rounds h.0 (clients-found snap h.2)
        (omega (arith, length-le_of_Rises client_of (λ c. c.client) 256 snap h.1)))
