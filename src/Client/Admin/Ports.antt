-- ===== src/Client/Admin/Ports.antt =====
-- The ports of a client in alsa_midi/client.py: `create_port`, `get_port_info`, `set_port_info` and
-- `query_next_port`.
use python_alsa_midi.Prelude.{
  ℕ, Bool, true, false, Option, String, ℤ, pos, negsuc, eqb_ℤ, if◌then◌else◌,
}
use python_alsa_midi.Exceptions.{Result, ok, err, value_error, check_alsa_error}
use python_alsa_midi.Stateful.{lift, return, ◌>>=◌, ◌>>◌}
use python_alsa_midi.Struct.{i32, u32}
use python_alsa_midi.Structures.{Structure}
use python_alsa_midi.Address.{Address, Arg, Parsed, new}
use python_alsa_midi.Port.Info.{PortInfo, AlsaPortInfo, from_alsa, to_alsa}
use python_alsa_midi.Port.Handle.{Port, init}
use python_alsa_midi.Handle.{Call, Library, Py, self, call, argument}
use python_alsa_midi.Client.Admin.{Session, Memory, check_handle, handle, log, malloc, run, found}
use python_alsa_midi.Client.Admin.PortArgs.{PortArgs, is_plain, fill}

-- The argument of `get_port_info`
pub data PortRef : Type 0 where
  own_port : ℤ → PortRef
  address : Arg → PortRef

-- The argument `previous` of `query_next_port`
pub data PreviousPort : Type 0 where
  first : PreviousPort
  after_id : ℤ → PreviousPort
  after_info : PortInfo → PreviousPort

module _ (l : Library) (m : Memory) where
  abbrev simple_port : String → ℕ → ℕ → Py Session ℤ
  simple_port name caps type = do
    h ← handle
    c ← lift (argument u32 (pos caps))
    t ← lift (argument u32 (pos type))
    call l (Call.create_simple_port h name c t)

  -- `if port == 0: port = snd_seq_port_info_get_port(info)`
  abbrev port_number : ℤ → Py Session ℤ
  port_number code = do
    calls ← log
    return (if eqb_ℤ code (pos 0) then (m.port_info calls).port else code)

  abbrev full_port : String → ℕ → ℕ → PortArgs → Py Session ℤ
  full_port name caps type a = do
    malloc l Structure.port_info
    info ← lift (fill name caps type a m.fresh_port_info)
    h ← handle
    code ← call l (Call.create_port h info)
    port_number code

  unfoldable pub create_port : String → ℕ → ℕ → PortArgs → Py Session Port
  unfolding check_handle handle argument is_plain fill check_alsa_error
  create_port name caps type a = do
    check_handle
    port ← if is_plain a then simple_port name caps type else full_port name caps type a
    lift (check_alsa_error port)
    s ← self
    return (init (record { handle = s.handle }) s.client_id port)

  unfoldable pub address_of : (String → Parsed) → PortRef → Session → Result Address
  address_of parse (own_port p) s = ok (record { client_id = s.client_id; port_id = p })
  address_of parse (address a) s = new parse a (pos 0)

  abbrev call_for : ℕ → Bool → Address → Py Session Unit
  call_for h true a = lift (argument i32 a.port_id) >>= λ p. run l (Call.get_port_info h p)
  call_for h false a = do
    c ← lift (argument i32 a.client_id)
    p ← lift (argument i32 a.port_id)
    run l (Call.get_any_port_info h c p)

  abbrev port_info_call : Address → Py Session Unit
  port_info_call a = do s ← self; h ← handle; call_for h (eqb_ℤ a.client_id s.client_id) a

  unfoldable pub get_port_info : (String → Parsed) → PortRef → Py Session PortInfo
  unfolding handle address_of argument from_alsa check_alsa_error
  get_port_info parse port = do
    s ← self
    a ← lift (address_of parse port s)
    malloc l Structure.port_info
    port_info_call a
    calls ← log
    return (from_alsa (m.port_info calls))

  -- `PortInfo._to_alsa` with its allocation
  abbrev pub new_info : PortInfo → Py Session AlsaPortInfo
  new_info info = malloc l Structure.port_info >> lift (to_alsa m.kept_id info m.fresh_port_info)

  -- A port object is given by its `port_id`.
  unfoldable pub set_port_info : ℤ → PortInfo → Py Session Unit
  unfolding handle argument to_alsa check_alsa_error
  set_port_info port_id info = do
    a_info ← new_info info
    h ← handle
    p ← lift (argument i32 port_id)
    run l (Call.set_port_info h p a_info)

  abbrev numbered : ℤ → ℤ → Py Session AlsaPortInfo
  numbered client_id id = do
    malloc l Structure.port_info
    client ← lift (argument i32 client_id)
    port ← lift (argument i32 id)
    return (record m.fresh_port_info { client = m.kept_id client; port = m.kept_id port })

  abbrev previous_port : ℤ → PreviousPort → Py Session AlsaPortInfo
  previous_port client_id first = numbered client_id (negsuc 0)
  previous_port client_id (after_id id) = numbered client_id id
  previous_port client_id (after_info info) =
      if eqb_ℤ info.client_id client_id then new_info info else lift (err value_error)

  unfoldable pub query_next_port : ℤ → PreviousPort → Py Session (Option PortInfo)
  unfolding check_handle handle argument to_alsa from_alsa check_alsa_error
  query_next_port client_id previous = do
    check_handle
    info ← previous_port client_id previous
    h ← handle
    code ← call l (Call.query_next_port h info)
    found l m code (log >>= λ calls. return (from_alsa (m.port_info calls)))
