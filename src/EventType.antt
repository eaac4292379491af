-- ===== src/EventType.antt =====
-- `EventType` of alsa_midi/event.py: an IntEnum whose `_missing_` makes a member of any other
-- value, and the list `MIDI_BYTES_EVENTS`. The values are those of alsa_midi/_ffi_defs.py.
pub mod Laws
use python_alsa_midi.Prelude.{ℕ, Bool, true, false, ◌||◌, List, [], ◌∷◌, ◌==◌, if◌then◌else◌}

pub data EventType : Type 0 where
  system result note noteon noteoff keypress controller pgmchange chanpress pitchbend control14 :
      EventType
  nonregparam regparam songpos songsel qframe timesign keysign start continue stop setpos_tick :
      EventType
  setpos_time tempo clock tick queue_skew sync_pos tune_request reset sensing echo oss : EventType
  client_start client_exit client_change port_start port_exit port_change port_subscribed :
      EventType
  port_unsubscribed usr0 usr1 usr2 usr3 usr4 usr5 usr6 usr7 usr8 usr9 sysex bounce usr_var0 :
      EventType
  usr_var1 usr_var2 usr_var3 usr_var4 no_event : EventType
  -- `UNKNOWN_{value}`
  unknown : ℕ → EventType

unfoldable pub value : EventType → ℕ
value system = 0
value result = 1
value note = 5
value noteon = 6
value noteoff = 7
value keypress = 8
value controller = 10
value pgmchange = 11
value chanpress = 12
value pitchbend = 13
value control14 = 14
value nonregparam = 15
value regparam = 16
value songpos = 20
value songsel = 21
value qframe = 22
value timesign = 23
value keysign = 24
value start = 30
value continue = 31
value stop = 32
value setpos_tick = 33
value setpos_time = 34
value tempo = 35
value clock = 36
value tick = 37
value queue_skew = 38
value sync_pos = 39
value tune_request = 40
value reset = 41
value sensing = 42
value echo = 50
value oss = 51
value client_start = 60
value client_exit = 61
value client_change = 62
value port_start = 63
value port_exit = 64
value port_change = 65
value port_subscribed = 66
value port_unsubscribed = 67
value usr0 = 90
value usr1 = 91
value usr2 = 92
value usr3 = 93
value usr4 = 94
value usr5 = 95
value usr6 = 96
value usr7 = 97
value usr8 = 98
value usr9 = 99
value sysex = 130
value bounce = 131
value usr_var0 = 135
value usr_var1 = 136
value usr_var2 = 137
value usr_var3 = 138
value usr_var4 = 139
value no_event = 255
value (unknown n) = n

-- The members in the order of their definition.
unfoldable pub members : List EventType
members =
    system ∷ result ∷ note ∷ noteon ∷ noteoff ∷ keypress ∷ controller ∷ pgmchange ∷ chanpress
    ∷ pitchbend ∷ control14 ∷ nonregparam ∷ regparam ∷ songpos ∷ songsel ∷ qframe ∷ timesign
    ∷ keysign ∷ start ∷ continue ∷ stop ∷ setpos_tick ∷ setpos_time ∷ tempo ∷ clock ∷ tick
    ∷ queue_skew ∷ sync_pos ∷ tune_request ∷ reset ∷ sensing ∷ echo ∷ oss ∷ client_start
    ∷ client_exit ∷ client_change ∷ port_start ∷ port_exit ∷ port_change ∷ port_subscribed
    ∷ port_unsubscribed ∷ usr0 ∷ usr1 ∷ usr2 ∷ usr3 ∷ usr4 ∷ usr5 ∷ usr6 ∷ usr7 ∷ usr8 ∷ usr9
    ∷ sysex ∷ bounce ∷ usr_var0 ∷ usr_var1 ∷ usr_var2 ∷ usr_var3 ∷ usr_var4 ∷ no_event ∷ []

unfoldable pub member_from : List EventType → ℕ → EventType
member_from [] n = unknown n
member_from (t ∷ ts) n = if value t == n then t else member_from ts n

-- `EventType(value)`
unfoldable pub of_value : ℕ → EventType
of_value n = member_from members n

unfoldable pub midi_bytes_events : List EventType
midi_bytes_events =
    noteoff ∷ noteon ∷ keypress ∷ controller ∷ pgmchange ∷ chanpress ∷ pitchbend ∷ sysex ∷ qframe
    ∷ songpos ∷ songsel ∷ tune_request ∷ clock ∷ start ∷ continue ∷ stop ∷ sensing ∷ reset
    ∷ control14 ∷ nonregparam ∷ regparam ∷ []

unfoldable pub has_value : List EventType → ℕ → Bool
has_value [] n = false
has_value (t ∷ ts) n = value t == n || has_value ts n

-- `alsa_event.type in MIDI_BYTES_EVENTS`
unfoldable pub is_midi_bytes : ℕ → Bool
is_midi_bytes n = has_value midi_bytes_events n
