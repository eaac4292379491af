-- ===== src/Address.antt =====
-- `Address` of alsa_midi/address.py: the polymorphic constructor. Parsing of a text is done by the
-- ALSA library, and is a parameter.
pub mod Laws
use python_alsa_midi.Prelude.{
  ◌≡◌, Bool, ◌&&◌, Option, none, some, List, [], ◌∷◌, String, ℤ, pos, eqb_ℤ,
}
use python_alsa_midi.Exceptions.{
  Result, ok, err, value_error, type_error, ◌>>=◌, ◌>>◌, check_alsa_error,
}

pub record Address : Type 0 where
  pub client_id : ℤ
  pub port_id : ℤ

-- What the constructor is given. An object has an attribute `client_id`, and may have `port_id`,
-- which may be `None`: a `Port`, a `PortInfo`, a client, or another `Address`.
pub data Arg : Type 0 where
  text : String → Arg
  object : ℤ → Option (Option ℤ) → Arg
  tuple : List (Option ℤ) → Arg
  int : ℤ → Arg

-- The arguments that the types of the library name.
abbrev pub of_address : Address → Arg
of_address a = object a.client_id (some (some a.port_id))

abbrev pub of_port : ℤ → Option ℤ → Arg
of_port client_id port_id = object client_id (some port_id)

abbrev pub of_client : ℤ → Arg
of_client client_id = object client_id none

-- What `snd_seq_parse_address` returns and writes: a code, a client and a port.
pub record Parsed : Type 0 where
  pub code : ℤ
  pub client : ℤ
  pub port : ℤ

-- `int(v) if v is not None else 0`
unfoldable pub int_or_zero : Option ℤ → ℤ
int_or_zero none = pos 0
int_or_zero (some v) = v

-- `getattr(arg1, "port_id", arg2)`, with `None` read as 0
unfoldable pub port_of : Option (Option ℤ) → ℤ → ℤ
port_of none arg2 = arg2
port_of (some none) arg2 = pos 0
port_of (some (some p)) arg2 = p

unfoldable pub from_tuple : List (Option ℤ) → Result Address
from_tuple (c ∷ p ∷ []) = ok (record { client_id = int_or_zero c; port_id = int_or_zero p })
from_tuple _ = err value_error

module _ (parse_address : String → Parsed) where
  unfoldable pub parse : String → Result Address
  parse t =
      let p = parse_address t in
      check_alsa_error p.code >> ok (record { client_id = p.client; port_id = p.port })

  -- `Address(arg1, arg2)`
  unfoldable pub new : Arg → ℤ → Result Address
  unfolding parse from_tuple int_or_zero port_of check_alsa_error
  new (text t) arg2 = parse t
  new (object c p) arg2 = ok (record { client_id = c; port_id = port_of p arg2 })
  new (tuple vs) arg2 = from_tuple vs
  new (int c) arg2 = ok (record { client_id = c; port_id = arg2 })

-- `__eq__` is that of the named tuple.
unfoldable pub same_address : Address → Address → Bool
same_address a b = eqb_ℤ a.client_id b.client_id && eqb_ℤ a.port_id b.port_id
