-- ===== src/Client/ListPorts/Select.antt =====
-- What `list_ports` (alsa_midi/client.py) selects, against a plain description of it.
use text.Mathlib.TextEquality.{eq_iff}
use python_alsa_midi.Prelude.{
  ◌≡◌, ◌↔◌, Bool, true, not, ◌&&◌, ◌||◌, pos, has_any, has_all, bit_and-zero, arith, ◌⊎◌, ◌≢◌,
}
use python_alsa_midi.Port.Flags.{cap_read, cap_write, cap_subs_read, cap_subs_write, cap_no_export}
use python_alsa_midi.Port.Info.{PortInfo}
use python_alsa_midi.Client.ListPorts.{Options, ClientEntry, visits, selects}

-- Can events be read from the port, or written to it, through a connection if one is asked for?
abbrev pub usable_in : Options → PortInfo → Bool
usable_in o i =
    has_any i.capability cap_read && (not o.only_connectable || has_any i.capability cap_subs_read)

abbrev pub usable_out : Options → PortInfo → Bool
usable_out o i =
    has_any i.capability cap_write
    && (not o.only_connectable || has_any i.capability cap_subs_write)

-- Each direction that is asked for, or one of them where none is.
abbrev pub has_direction : Options → PortInfo → Bool
has_direction o i =
    (not o.input || usable_in o i)
    && (not o.output || usable_out o i)
    && (o.input || o.output || usable_in o i || usable_out o i)

abbrev pub wanted : Options → PortInfo → Bool
wanted o i =
    has_all i.type o.type
    && (not (has_any i.capability cap_no_export) || o.include_no_export)
    && has_direction o i

-- The ladder of tests selects exactly the ports of the type that is asked for, not hidden, and usable
-- in each direction that is asked for, or in one of them where none is.
pub selects-eq-wanted : (o : Options) (i : PortInfo) → selects o i ≡ wanted o i
unfolding selects
selects-eq-wanted o i = ground (arith, bit_and-zero i.type)

-- A client is visited if it is not the system client or this is asked for, and is not named
-- "Midi Through" or this is asked for.
pub visits_iff :
    (o : Options) (c : ClientEntry)
    → (visits o c ≡ true) ↔ (
        ((c.client ≢ pos 0) ⊎ (o.include_system ≡ true))
        × ((c.name ≢ "Midi Through") ⊎ (o.include_midi_through ≡ true)))
unfolding visits
visits_iff o c = ground (arith, eq_iff c.name "Midi Through")
