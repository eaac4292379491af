-- ===== src/Port/Handle.antt =====
-- `Port` of alsa_midi/port.py: the methods of a port object that reach ALSA through its client's
-- handle. The constructor of the addresses is that of `Address`.
use python_alsa_midi.Prelude.{
  ◌≡◌, ◌&&◌, true, Option, none, some, List, [], ◌∷◌, ◌++◌, ℕ, String, ℤ, pos, arith,
}
use python_alsa_midi.Exceptions.{ok, err, already_closed, check_alsa_error}
use python_alsa_midi.Stateful.{lift, return, ◌>>=◌, ◌>>◌}
use python_alsa_midi.Struct.{i32, fits}
use python_alsa_midi.Address.{Address, Arg, Parsed, new}
use python_alsa_midi.Handle.{
  Client, Call, Library, State, Py, self, set_self, checked_call, get_client_handle, argument,
}

pub record Port : Type 0 where
  pub client : Option Client
  pub client_id : ℤ
  pub port_id : ℤ

unfoldable pub init : Client → ℤ → ℤ → Port
init c client_id port_id = record { client = some c; client_id = client_id; port_id = port_id }

module _ (l : Library) where
  abbrev pub release : Option ℕ → ℤ → Py Port Unit
  release none port_id = return tt
  release (some handle) port_id =
      checked_call l (Call.delete_simple_port handle port_id) >>= λ _. return tt

  abbrev pub close_from : Option Client → Port → Py Port Unit
  close_from none p = return tt
  close_from (some c) p = do set_self (record p { client = none }); release c.handle p.port_id

  unfoldable pub close : Py Port Unit
  close = self >>= λ p. close_from p.client p

  -- `__del__`
  unfoldable pub del : Py Port Unit
  unfolding close
  del s = (ok tt, (close s).1)

-- The four methods that connect or disconnect.
pub data Link : Type 0 where
  connect_to disconnect_to connect_from disconnect_from : Link

unfoldable pub link_call : Link → ℕ → ℤ → ℤ → ℤ → Call
link_call Link.connect_to = Call.connect_to
link_call Link.disconnect_to = Call.disconnect_to
link_call Link.connect_from = Call.connect_from
link_call Link.disconnect_from = Call.disconnect_from

module _ (parse : String → Parsed) (l : Library) where
  unfoldable pub link : Link → Arg → Py Port Unit
  unfolding get_client_handle argument link_call
  link k other = do
    address ← lift (new parse other (pos 0))
    p ← self
    handle ← lift (get_client_handle p.client)
    port ← lift (argument i32 p.port_id)
    client_id ← lift (argument i32 address.client_id)
    port_id ← lift (argument i32 address.port_id)
    _ ← checked_call l (link_call k handle port client_id port_id)
    return tt

-- The calls that closing makes.
unfoldable pub closing : Port → List Call
closing p = elim p.client [
  | none ↦ []
  | some c ↦ elim c.handle [ none ↦ [] | some h ↦ Call.delete_simple_port h p.port_id ∷ [] ]
]

-- Closing a port deletes it once if its client is open, and calls nothing for a closed port or client;
-- the port keeps its address and is closed afterwards, also when the deletion failed.
pub close-effect :
    (l : Library) (s : State Port)
    → (close l s).1 ≡ (record s.0 { client = none }, closing s.0 ++ s.1)
unfolding close closing
close-effect l s = ground arith

-- A closed port makes no call: `close` does nothing; the methods that connect or disconnect raise the
-- error of the address, if that is not valid, or else `StateError`.
pub link-closed :
    (parse : String → Parsed) (l : Library) (k : Link) (other : Arg) (s : State Port)
    → s.0.client ≡ none
    → (close l s ≡ (ok tt, s))
      × (link parse l k other s
          ≡ (elim (new parse other (pos 0)) [ ok _ ↦ err already_closed | err e ↦ err e ], s))
unfolding close link get_client_handle
link-closed parse l k other s h = ground arith

-- With an open client, a valid address and ids that fit a C int, a method that connects or disconnects
-- makes the one call of its name with the port and the other end's address, raises an `ALSAError` if
-- that fails, and leaves the port as it is.
pub link-open :
    (parse : String → Parsed) (l : Library) (k : Link) (other : Arg) (s : State Port) (c : Client)
    (handle : ℕ) (a : Address)
    → s.0.client ≡ some c
    → c.handle ≡ some handle
    → new parse other (pos 0) ≡ ok a
    → fits i32 s.0.port_id && fits i32 a.client_id && fits i32 a.port_id ≡ true
    → let x = link_call k handle s.0.port_id a.client_id a.port_id in
      link parse l k other s ≡ (check_alsa_error (l.answer s.1 x), (s.0, x ∷ s.1))
unfolding link get_client_handle argument check_alsa_error
link-open parse l k other s c handle a h i j f = ground arith
