-- ===== src/Event/Class.antt =====
-- The classes of alsa_midi/event.py: the base that gives a class its data, its event type, and the
-- dictionary `Event._specialized` that the decorator fills.
use python_alsa_midi.Prelude.{ℕ, Option, none, some, List, [], ◌∷◌, ◌==◌, if◌then◌else◌}
use python_alsa_midi.EventType.{EventType, value}

-- The class whose `_from_alsa` and `_to_alsa` are used; `plain` is `Event`.
pub data Base : Type 0 where
  plain result note full_note control param queue_control position_tick position_time : Base
  tempo skew sync_position address connect external midi_bytes : Base

-- `type` is `None` for `Event` and `MidiBytesEvent`.
pub record EventClass : Type 0 where
  pub type : Option EventType
  pub base : Base

abbrev pub event_class : EventClass
event_class = record { type = none; base = Base.plain }

abbrev pub midi_bytes_class : EventClass
midi_bytes_class = record { type = none; base = Base.midi_bytes }

-- A dictionary: a key that is there is overwritten.
abbrev pub Registry : Type 0
Registry = List (ℕ × EventClass)

unfoldable pub register : ℕ → EventClass → Registry → Registry
register k c [] = (k, c) ∷ []
register k c ((j, b) ∷ r) = if k == j then (k, c) ∷ r else (j, b) ∷ register k c r

unfoldable pub lookup_class : ℕ → Registry → Option EventClass
lookup_class k [] = none
lookup_class k ((j, c) ∷ r) = if k == j then some c else lookup_class k r

-- The decorated classes, in the order of the file.
unfoldable pub decorated : List (EventType × Base)
decorated =
    (EventType.system, Base.result)
    ∷ (EventType.result, Base.result)
    ∷ (EventType.note, Base.full_note)
    ∷ (EventType.noteon, Base.note)
    ∷ (EventType.noteoff, Base.note)
    ∷ (EventType.keypress, Base.note)
    ∷ (EventType.controller, Base.control)
    ∷ (EventType.pgmchange, Base.param)
    ∷ (EventType.chanpress, Base.param)
    ∷ (EventType.pitchbend, Base.param)
    ∷ (EventType.control14, Base.control)
    ∷ (EventType.nonregparam, Base.control)
    ∷ (EventType.regparam, Base.control)
    ∷ (EventType.songpos, Base.param)
    ∷ (EventType.songsel, Base.param)
    ∷ (EventType.timesign, Base.param)
    ∷ (EventType.keysign, Base.param)
    ∷ (EventType.start, Base.queue_control)
    ∷ (EventType.continue, Base.queue_control)
    ∷ (EventType.stop, Base.queue_control)
    ∷ (EventType.setpos_tick, Base.position_tick)
    ∷ (EventType.setpos_time, Base.position_time)
    ∷ (EventType.tempo, Base.tempo)
    ∷ (EventType.clock, Base.queue_control)
    ∷ (EventType.tick, Base.queue_control)
    ∷ (EventType.queue_skew, Base.skew)
    ∷ (EventType.sync_pos, Base.sync_position)
    ∷ (EventType.tune_request, Base.plain)
    ∷ (EventType.reset, Base.plain)
    ∷ (EventType.sensing, Base.plain)
    ∷ (EventType.echo, Base.plain)
    ∷ (EventType.oss, Base.plain)
    ∷ (EventType.client_start, Base.address)
    ∷ (EventType.client_exit, Base.address)
    ∷ (EventType.client_change, Base.address)
    ∷ (EventType.port_start, Base.address)
    ∷ (EventType.port_exit, Base.address)
    ∷ (EventType.port_change, Base.address)
    ∷ (EventType.port_subscribed, Base.connect)
    ∷ (EventType.port_unsubscribed, Base.connect)
    ∷ (EventType.sysex, Base.external)
    ∷ (EventType.bounce, Base.external)
    ∷ (EventType.usr_var0, Base.external)
    ∷ (EventType.usr_var1, Base.external)
    ∷ (EventType.usr_var2, Base.external)
    ∷ (EventType.usr_var3, Base.external)
    ∷ (EventType.usr_var4, Base.external)
    ∷ []

-- `_specialized_event_class(event_type)` applied to each class in turn.
unfoldable pub register_all : List (EventType × Base) → Registry → Registry
unfolding register
register_all [] r = r
register_all ((t, b) ∷ cs) r =
    register_all cs (register (value t) (record { type = some t; base = b }) r)

-- `Event._specialized`
unfoldable pub specialized : Registry
unfolding register_all decorated value
specialized = register_all decorated []

-- `Event._specialized.get(type, Event)`
unfoldable pub class_for : ℕ → EventClass
unfolding specialized lookup_class
class_for k = elim (lookup_class k specialized) [ none ↦ event_class | some c ↦ c ]
