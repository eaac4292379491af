-- ===== src/Event/ToAlsa.antt =====
-- `Event._to_alsa` (alsa_midi/event.py): the header of an event into an `snd_seq_event_t`, in the
-- order of the code. A value that does not fit its C field raises `OverflowError`.
use python_alsa_midi.Prelude.{
  ℕ, Bool, true, false, ◌&&◌, Option, none, some, List, ℤ, pos, bit_or, bit_clear, take,
  if◌then◌else◌, leb,
}
use python_alsa_midi.Exceptions.{
  Result, ok, err, type_error, attribute_error, assertion_error, overflow_error, ◌>>=◌, ◌>>◌,
  raise_if,
}
use python_alsa_midi.RealTime.{RealTime}
use python_alsa_midi.Address.{Address}
use python_alsa_midi.Address as Addr
use python_alsa_midi.EventFlags
use python_alsa_midi.EventType.{EventType, value}
use python_alsa_midi.Struct.{u8, u32, AlsaEvent, checked, union_size}
use python_alsa_midi.Platform.{Platform}
use python_alsa_midi.Event.Header.{Header, is_some}

abbrev pub queue_direct : ℤ
queue_direct = pos 253

abbrev pub address_subscribers : ℤ
address_subscribers = pos 254

-- The arguments `queue` and `port`: an int, or an object with its id. The id of a closed queue is
-- `None`.
pub data QueueArg : Type 0 where
  id : ℤ → QueueArg
  queue : Option ℤ → QueueArg

pub data PortArg : Type 0 where
  id : ℤ → PortArg
  port : ℤ → PortArg

pub record Overrides : Type 0 where
  pub queue : Option QueueArg
  pub port : Option PortArg
  pub dest : Option Addr.Arg

abbrev pub no_overrides : Overrides
no_overrides = record { queue = none; port = none; dest = none }

-- `flags & ~mask | bits`
abbrev pub with_bits : ℕ → ℕ → ℕ → ℕ
with_bits mask bits flags = bit_or (bit_clear flags mask) bits

-- The flags that stand for `time`, `tick` and `relative`.
unfoldable pub stamp_flags : Option RealTime → Option ℤ → Option Bool → ℕ → ℕ
stamp_flags time tick relative f =
    let f₁ =
      if is_some time
      then with_bits EventFlags.time_stamp_mask EventFlags.time_stamp_real f
      else f in
    let f₂ =
      if is_some tick
      then with_bits EventFlags.time_stamp_mask EventFlags.time_stamp_tick f₁
      else f₁ in
    elim relative [
      | none ↦ f₂
      | some true ↦ with_bits EventFlags.time_mode_mask EventFlags.time_mode_rel f₂
      | some false ↦ with_bits EventFlags.time_mode_mask EventFlags.time_mode_abs f₂
    ]

-- The forced queue, the event's own, or direct delivery.
unfoldable pub queue_of : Option QueueArg → Option ℤ → Result ℤ
queue_of (some (QueueArg.id q)) own = ok q
queue_of (some (queue (some q))) own = ok q
queue_of (some (queue none)) own = err type_error
queue_of none (some q) = ok q
queue_of none none = ok queue_direct

module _ {D : Type 0} where
  unfoldable pub put_type : Option EventType → AlsaEvent D → Result (AlsaEvent D)
  unfolding checked
  put_type none a = ok a
  put_type (some t) a = checked u8 (pos (value t)) >>= λ v. ok (record a { type = v })

  unfoldable pub put_time : Option RealTime → AlsaEvent D → Result (AlsaEvent D)
  unfolding checked
  put_time none a = ok a
  put_time (some t) a = do
    s ← checked u32 t.seconds
    n ← checked u32 t.nanoseconds
    ok (record a { tick_or_sec = s; nsec = n })

  unfoldable pub put_tick : Option ℤ → AlsaEvent D → Result (AlsaEvent D)
  unfolding checked
  put_tick none a = ok a
  put_tick (some t) a = checked u32 t >>= λ v. ok (record a { tick_or_sec = v })

  unfoldable pub put_source : Option PortArg → Option Address → AlsaEvent D → Result (AlsaEvent D)
  unfolding checked
  put_source (some (PortArg.id n)) own a = checked u8 n >>= λ v. ok (record a { source_port = v })
  put_source (some (port n)) own a = checked u8 n >>= λ v. ok (record a { source_port = v })
  put_source none (some s) a = do
    c ← checked u8 s.client_id
    n ← checked u8 s.port_id
    ok (record a { source_client = c; source_port = n })
  put_source none none a = ok a

  unfoldable pub put_address : Address → AlsaEvent D → Result (AlsaEvent D)
  unfolding checked
  put_address d a = do
    c ← checked u8 d.client_id
    n ← checked u8 d.port_id
    ok (record a { dest_client = c; dest_port = n })

  -- The forced destination, the event's own, or all subscribers; for these only the client is set.
  unfoldable pub put_dest :
      (Addr.Arg → Result Address)
      → Option Addr.Arg
      → Option Address
      → AlsaEvent D
      → Result (AlsaEvent D)
  unfolding put_address
  put_dest new (some d) own a = new d >>= λ addr. put_address addr a
  put_dest new none (some d) a = put_address d a
  put_dest new none none a = ok (record a { dest_client = address_subscribers })

  unfoldable pub put_flags : ℕ → AlsaEvent D → Result (AlsaEvent D)
  put_flags f a = if leb f 0xff then ok (record a { flags = f }) else err overflow_error

module _ (p : Platform) where
  abbrev pub Alsa : Type 0
  Alsa = AlsaEvent p.memory.Data

  -- At most the first twelve bytes of `raw_data`.
  unfoldable pub put_raw_data : Option (List ℕ) → Alsa → Alsa
  put_raw_data none a = a
  put_raw_data (some bs) a = record a { union = p.memory.put_raw (take union_size bs) a.union }

  -- `Event._to_alsa`
  unfoldable pub to_alsa : Header → Overrides → Alsa → Result Alsa
  to_alsa h o a₀ = do
    a₁ ← put_type h.type a₀
    f ← elim h.flags [ none ↦ err attribute_error | some f ↦ ok f ]
    tag ← checked u8 h.tag
    q ← queue_of o.queue h.queue_id
    q' ← checked u8 q
    raise_if (is_some h.time && is_some h.tick) assertion_error
    a₂ ← put_time h.time (record a₁ { tag = tag; queue = q' })
    a₃ ← put_tick h.tick a₂
    a₄ ← put_source o.port h.source a₃
    a₅ ← put_dest (λ d. Addr.new p.parse_address d (pos 0)) o.dest h.dest a₄
    put_flags (stamp_flags h.time h.tick h.relative f) (put_raw_data h.raw_data a₅)
