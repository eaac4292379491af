-- ===== src/Mido/Open/Virtual.antt =====
-- `_open` of alsa_midi/mido_backend.py for a virtual input port.
use python_alsa_midi.Prelude.{
  ℕ, ◌≡◌, refl, true, none, some, List, [], ◌∷◌, String, pos, bit_or, arith,
}
use python_alsa_midi.Exceptions.{ok, check_alsa_error}
use python_alsa_midi.Struct.{u32, fits}
use python_alsa_midi.Address.{Parsed}
use python_alsa_midi.Port.Flags.{cap_write, cap_subs_write, type_midi_generic}
use python_alsa_midi.Port.Handle.{init}
use python_alsa_midi.Handle.{Call, Library, argument}
use python_alsa_midi.Client.Admin.{Session, Memory, check_handle, handle}
use python_alsa_midi.Client.Admin.PortArgs.{is_plain}
use python_alsa_midi.Client.Admin.Ports.{create_port}
use python_alsa_midi.Mido.Open.{
  input_kind, closed_port, make_virtual, name_for, no_options, open_port,
}

module _ (parse : String → Parsed) (l : Library) (m : Memory) where
  accepted : (code : ℕ) → check_alsa_error (pos code) ≡ ok tt
  unfolding check_alsa_error
  accepted code = ground arith

  create_port-simple :
      (name : String) (caps type h code : ℕ) (c : Session) (calls : List Call)
      → fits u32 (pos caps) ≡ true
      → fits u32 (pos type) ≡ true
      → l.answer calls (Call.create_simple_port h name (pos caps) (pos type)) ≡ pos code
      → create_port l m name caps type no_options (record c { handle = some h }, calls) ≡ (
        ok (init (record { handle = some h }) c.client_id (pos code)),
        (
          record c { handle = some h },
          Call.create_simple_port h name (pos caps) (pos type) ∷ calls,
        ),
      )
  unfolding create_port check_handle handle argument is_plain
  create_port-simple name caps type h code c calls f g a = rw (f, g, a, accepted code) refl

  -- A virtual port of class `Input` is created without the capability to be subscribed, which is added to
  -- the attribute only afterwards: ALSA is asked for `WRITE` alone. This holds for a name that is given,
  -- on an open client, if ALSA makes the port and the arguments leave capabilities and type to the class.
  pub open_port-virtual :
      (name : String) (num h code : ℕ) (c : Session) (calls : List Call)
      → l.answer calls (Call.create_simple_port h name (pos cap_write) (pos type_midi_generic))
        ≡ pos code
      → open_port parse l m
          (record { is_virtual = true; alsa_capability = none; alsa_type = none })
          (ok [])
          (closed_port input_kind num (some name), (record c { handle = some h }, calls))
        ≡ (
          ok tt,
          (
            record (closed_port input_kind num (some name)) {
              caps = bit_or cap_write cap_subs_write;
              is_virtual = true;
              port = some (init (record { handle = some h }) c.client_id (pos code));
              key = some (pos code);
            },
            (
              record c { handle = some h },
              Call.create_simple_port h name (pos cap_write) (pos type_midi_generic) ∷ calls,
            ),
          ),
        )
  unfolding open_port name_for make_virtual fits init
  open_port-virtual name num h code c calls a =
      rw (create_port-simple name cap_write type_midi_generic h code c calls refl refl a) refl
