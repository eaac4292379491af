-- ===== src/Event/Addresses.antt =====
-- `AddressEventBase`, `ConnectEventBase` and `ExternalDataEventBase` of alsa_midi/event.py.
use python_alsa_midi.Prelude.{ℕ, pos, String, List, length}
use python_alsa_midi.Exceptions.{Result, ok, ◌>>=◌}
use python_alsa_midi.Address.{Address, Arg, Parsed, new, of_address}
use python_alsa_midi.Struct.{Field, assign}
use python_alsa_midi.Platform.{Platform}
use python_alsa_midi.Event.Payload.{Payload}

unfoldable pub address_init : (String → Parsed) → Arg → Result Payload
address_init parse addr = new parse addr (pos 0) >>= λ a. ok (Payload.address a)

unfoldable pub connect_init : (String → Parsed) → Arg → Arg → Result Payload
connect_init parse sender dest = do
  s ← new parse sender (pos 0)
  t ← new parse dest (pos 0)
  ok (Payload.connect s t)

module _ (p : Platform) where
  open p use {memory, parse_address, from_buffer, buffer}
  open memory use {Data, get}

  unfoldable pub address_from_alsa : Data → Result Payload
  unfolding address_init
  address_from_alsa d =
      address_init parse_address (
        of_address
          (record { client_id = get Field.addr_client d; port_id = get Field.addr_port d }))

  unfoldable pub address_to_alsa : Address → Data → Result Data
  unfolding assign
  address_to_alsa a d = do
    d₁ ← assign memory Field.addr_client a.client_id d
    assign memory Field.addr_port a.port_id d₁

  unfoldable pub connect_from_alsa : Data → Result Payload
  unfolding connect_init
  connect_from_alsa d =
      connect_init parse_address
        (of_address
          (record { client_id = get Field.sender_client d; port_id = get Field.sender_port d }))
        (of_address
          (record { client_id = get Field.dest_client d; port_id = get Field.dest_port d }))

  unfoldable pub connect_to_alsa : Address → Address → Data → Result Data
  unfolding assign
  connect_to_alsa sender dest d = do
    d₁ ← assign memory Field.sender_client sender.client_id d
    d₂ ← assign memory Field.sender_port sender.port_id d₁
    d₃ ← assign memory Field.dest_client dest.client_id d₂
    assign memory Field.dest_port dest.port_id d₃

  unfoldable pub external_from_alsa : Data → Result Payload
  external_from_alsa d = ok (Payload.external (buffer (get Field.ext_ptr d) (get Field.ext_len d)))

  unfoldable pub external_to_alsa : List ℕ → Data → Result Data
  unfolding assign
  external_to_alsa bs d = do
    d₁ ← assign memory Field.ext_len (pos (length bs)) d
    assign memory Field.ext_ptr (from_buffer bs) d₁
