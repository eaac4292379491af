-- ===== src/Mido/Open.antt =====
-- `PortCommon` of alsa_midi/mido_backend.py with its subclasses `Input` and `Output`: `_open`, `_close` and
-- `_send`. `list_ports`, and the output of events, are those of the client: what they return is given.
pub mod Virtual
use python_alsa_midi.Prelude.{
  ℕ, suc, ◌≡◌, refl, Bool, true, false, Option, none, some, List, [], ◌∷◌, String, ℤ, pos, bit_or,
  has_any, arith,
}
use python_alsa_midi.Exceptions.{Result, ok, err, os_error, check_alsa_error}
use python_alsa_midi.Stateful.{lift, return, ◌>>=◌, ◌>>◌, Act}
use python_alsa_midi.Struct.{u32, fits}
use python_alsa_midi.Address.{Parsed, Arg, of_port}
use python_alsa_midi.Port.Info.{PortInfo, get_or}
use python_alsa_midi.Port.Flags.{
  cap_read, cap_write, cap_subs_read, cap_subs_write, type_midi_generic,
}
use python_alsa_midi.Port.Handle.{Port, init, Link, link, close}
use python_alsa_midi.Handle.{Call, Library, State, Py, argument}
use python_alsa_midi.Client.Admin.{Session, Memory, check_handle, handle}
use python_alsa_midi.Client.Admin.PortArgs.{PortArgs, is_plain}
use python_alsa_midi.Client.Admin.Ports.{create_port}
use python_alsa_midi.Mido.FindPort.{◌⧺◌, show, find_port}

-- The class of a port: `Input` and `Output` set these attributes.
pub record Kind : Type 0 where
  pub name_prefix : String
  pub for_input : Bool
  pub for_output : Bool
  pub caps : ℕ

abbrev pub input_kind : Kind
input_kind = record { name_prefix = "in"; for_input = true; for_output = false; caps = cap_write }

abbrev pub output_kind : Kind
output_kind = record { name_prefix = "out"; for_input = false; for_output = true; caps = cap_read }

-- The attributes of a port, its class's counter `_last_num`, and the key under which `ports` of the
-- client names it.
pub record PortCommon : Type 0 where
  pub kind : Kind
  pub last_num : ℕ
  pub caps : ℕ
  pub name : Option String
  pub is_virtual : Bool
  pub port : Option Port
  pub dest_port : Option PortInfo
  pub key : Option ℤ

-- A port that is not open yet
abbrev pub closed_port : Kind → ℕ → Option String → PortCommon
closed_port kind num name = record {
  kind = kind;
  last_num = num;
  caps = kind.caps;
  name = name;
  is_virtual = false;
  port = none;
  dest_port = none;
  key = none;
}

-- The arguments of `_open`
pub record OpenArgs : Type 0 where
  pub is_virtual : Bool
  pub alsa_capability : Option ℕ
  pub alsa_type : Option ℕ

-- `_generate_alsa_port_name`
unfoldable pub generate_alsa_port_name : PortCommon → String × PortCommon
unfolding show
generate_alsa_port_name p =
    (p.kind.name_prefix ⧺ show (pos (suc p.last_num)), record p { last_num = suc p.last_num })

abbrev add_if : Bool → ℕ → ℕ → ℕ
add_if true flag x = bit_or x flag
add_if false flag x = x

-- The attributes of a virtual port: the capabilities to be subscribed are added to `_caps`.
unfoldable pub make_virtual : PortCommon → PortCommon
make_virtual p =
    let reads = add_if (has_any p.caps cap_read) cap_subs_read p.caps in
    record p { caps = add_if (has_any reads cap_write) cap_subs_write reads; is_virtual = true }

-- The name of the ALSA port
unfoldable pub name_for : Bool → PortCommon → String × PortCommon
unfolding generate_alsa_port_name make_virtual
name_for true p = elim p.name [
  | some name ↦ (name, make_virtual p)
  | none ↦ generate_alsa_port_name (make_virtual p)
]
name_for false p = generate_alsa_port_name p

abbrev pub Mido : Type 0 → Type 0
Mido A = Act (PortCommon × State Session) A

-- A method of the client
abbrev on_client : {A : Type 0} → Py Session A → Mido A
on_client m s = let r = m s.1 in (r.0, (s.0, r.1))

abbrev set_port : (PortCommon → PortCommon) → Mido Unit
set_port f s = (ok tt, (f s.0, s.1))

-- A method of the port, whose client is this one.
abbrev on_port : Port → Py Port Unit → Py Session Unit
on_port port m s = let r = m (port, s.1) in (r.0, (s.0, r.1.1))

-- The port to connect to: the first, or the one with the name.
unfoldable pub choose_port : (String → Parsed) → Option String → List PortInfo → Result PortInfo
unfolding find_port
choose_port parse name [] = err os_error
choose_port parse none (p ∷ ps) = ok p
choose_port parse (some name) (p ∷ ps) = find_port parse (p ∷ ps) name

-- `create_port` without its optional arguments
abbrev pub no_options : PortArgs
no_options = record {
  port_id = none;
  midi_channels = none;
  midi_voices = none;
  synth_voices = none;
  timestamping = none;
  timestamp_real = none;
  timestamp_queue = none;
}

module _ (parse : String → Parsed) (l : Library) (m : Memory) where
  -- The address of a port that was listed
  abbrev listed : PortInfo → Arg
  listed p = of_port p.client_id p.port_id

  abbrev connect_if : Bool → Link → Port → PortInfo → Py Session Unit
  connect_if false k port dest = return tt
  connect_if true k port dest = on_port port (link parse l k (listed dest))

  abbrev connect_all : Kind → Port → Option PortInfo → Py Session Unit
  connect_all kind port none = return tt
  connect_all kind port (some dest) =
      connect_if kind.for_output Link.connect_to port dest
      >> connect_if kind.for_input Link.connect_from port dest

  abbrev destination : Bool → Option String → Result (List PortInfo) → Result (Option PortInfo)
  destination true name ports = ok none
  destination false name (err e) = err e
  destination false name (ok ports) = elim (choose_port parse name ports) [
    | ok p ↦ ok (some p)
    | err e ↦ err e
  ]

  -- `_open`, by the ports that `list_ports` finds. The capabilities are read before a virtual port's are
  -- added.
  unfoldable pub open_port : OpenArgs → Result (List PortInfo) → Mido Unit
  unfolding name_for choose_port create_port link
  open_port a ports s =
      let caps = get_or a.alsa_capability s.0.caps in
      let type = get_or a.alsa_type type_midi_generic in
      let named = name_for a.is_virtual s.0 in
      (lift (destination a.is_virtual s.0.name ports) >>= λ dest.
      on_client (create_port l m named.0 caps type no_options) >>= λ port.
      set_port (λ p. record p { port = some port })
      >> on_client (connect_all s.0.kind port dest)
      >> set_port (λ p. record p { dest_port = dest; key = some port.port_id }))
        (named.1, s.1)

  -- `_close`
  unfoldable pub close_port : Mido Unit
  unfolding close
  close_port s = elim s.0.port [
    | none ↦ (ok tt, s)
    | some port ↦ (set_port (λ p. record p { port = none }) >> on_client (on_port port (close l))) s
  ]
