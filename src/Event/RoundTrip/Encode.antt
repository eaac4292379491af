-- ===== src/Event/RoundTrip/Encode.antt =====
-- `Event._to_alsa` on a header that the C struct can hold (alsa_midi/event.py).
use python_alsa_midi.Prelude.{
  ℕ, ◌≤◌, ◌<◌, ◌≡◌, refl, ◌&&◌, Option, none, some, List, ℤ, pos, take, arith,
}
use python_alsa_midi.Exceptions.{Result, ok, raise_if, assertion_error}
use python_alsa_midi.RealTime.{RealTime}
use python_alsa_midi.RealTime.Normal.{IsNormal}
use python_alsa_midi.Address.{Address}
use python_alsa_midi.Address as Addr
use python_alsa_midi.EventType.{EventType, value}
use python_alsa_midi.Struct.{u8, fits, checked, AlsaEvent, union_size}
use python_alsa_midi.Platform.{Platform}
use python_alsa_midi.Event.Header.{Header, is_some}
use python_alsa_midi.Event.ToAlsa.{
  Alsa, queue_direct, address_subscribers, no_overrides, put_type, put_time, put_tick, put_source,
  put_dest, put_flags, put_raw_data, stamp_flags, queue_of, to_alsa,
}
use python_alsa_midi.Event.RoundTrip.Flags.{stamp_flags-Stamped}
use python_alsa_midi.Event.RoundTrip.Fields.{IsByte, IsUint, IsAddress}

abbrev pub Given {ℓ} : {A : Type ℓ} → (A → Type 0) → Option A → Type 0
Given P none = Unit
Given P (some a) = P a

abbrev pub IsTime : RealTime → Type 0
IsTime t = IsNormal t × IsUint t.seconds

abbrev pub NotBoth : Option RealTime → Option ℤ → Type 0
NotBoth (some _) (some _) = ⊥
NotBoth _ _ = Unit

-- The attributes that fit the C struct, with the flags `f`.
pub record IsStorable (h : Header) (f : ℕ) : Type 0 where
  pub flags : h.flags ≡ some f
  pub flags_lt : f < 256
  pub type : Given (λ t. value t < 256) h.type
  pub tag : IsByte h.tag
  pub queue_id : Given IsByte h.queue_id
  pub time : Given IsTime h.time
  pub tick : Given IsUint h.tick
  pub one_time : NotBoth h.time h.tick
  pub source : Given IsAddress h.source
  pub dest : Given IsAddress h.dest

-- The attribute, or a default.
abbrev pub or_else {ℓ κ} : {A : Type ℓ} {B : Type κ} → Option A → (A → B) → B → B
or_else none f d = d
or_else (some a) f d = f a

queue_of-ok : (q : Option ℤ) → queue_of none q ≡ ok (or_else q (λ q. q) queue_direct)
unfolding queue_of
queue_of-ok none = refl
queue_of-ok (some q) = refl

checked_byte : (v : ℤ) → IsByte v → checked u8 v ≡ ok v
unfolding checked
checked_byte v h = rw h

queue-IsByte : (q : Option ℤ) → Given IsByte q → IsByte (or_else q (λ q. q) queue_direct)
unfolding fits
queue-IsByte none h = refl
queue-IsByte (some q) h = h

one_time-ok :
    (t : Option RealTime) (k : Option ℤ)
    → NotBoth t k
    → raise_if (is_some t && is_some k) assertion_error ≡ ok tt
one_time-ok none k h = refl
one_time-ok (some t) none h = refl
one_time-ok (some t) (some k) h = absurd h

module _ {D : Type 0} where
  put_flags-ok : (f : ℕ) (a : AlsaEvent D) → f ≤ 0xff → put_flags f a ≡ ok (record a { flags = f })
  unfolding put_flags
  put_flags-ok f a h = ground arith

  put_type-ok :
      (t : Option EventType) (a : AlsaEvent D)
      → Given (λ t. value t < 256) t
      → put_type t a ≡ ok (record a { type = or_else t (λ t. pos (value t)) a.type })
  unfolding put_type
  put_type-ok none a h = refl
  put_type-ok (some t) a h = ground arith

  put_time-ok :
      (t : Option RealTime) (a : AlsaEvent D)
      → Given IsTime t
      → put_time t a
        ≡ ok (record a {
          tick_or_sec = or_else t (λ t. t.seconds) a.tick_or_sec;
          nsec = or_else t (λ t. t.nanoseconds) a.nsec;
        })
  unfolding put_time fits
  put_time-ok none a h = refl
  put_time-ok (some t) a h = ground arith

  put_tick-ok :
      (t : Option ℤ) (a : AlsaEvent D)
      → Given IsUint t
      → put_tick t a ≡ ok (record a { tick_or_sec = or_else t (λ t. t) a.tick_or_sec })
  unfolding put_tick
  put_tick-ok none a h = refl
  put_tick-ok (some t) a h = ground arith

  put_source-ok :
      (s : Option Address) (a : AlsaEvent D)
      → Given IsAddress s
      → put_source none s a
        ≡ ok (record a {
          source_client = or_else s (λ s. s.client_id) a.source_client;
          source_port = or_else s (λ s. s.port_id) a.source_port;
        })
  unfolding put_source
  put_source-ok none a h = refl
  put_source-ok (some t) a h = ground arith

  put_dest-ok :
      (new : Addr.Arg → Result Address) (d : Option Address) (a : AlsaEvent D)
      → Given IsAddress d
      → put_dest new none d a
        ≡ ok (record a {
          dest_client = or_else d (λ d. d.client_id) address_subscribers;
          dest_port = or_else d (λ d. d.port_id) a.dest_port;
        })
  unfolding put_dest
  put_dest-ok new none a h = refl
  put_dest-ok new (some t) a h = ground arith

module _ (p : Platform) where
  put_raw_data-eq :
      (bs : Option (List ℕ)) (a : Alsa p)
      → put_raw_data p bs a ≡ record a {
        union = or_else bs (λ bs. p.memory.put_raw (take union_size bs) a.union) a.union;
      }
  unfolding put_raw_data
  put_raw_data-eq none a = refl
  put_raw_data-eq (some bs) a = refl

  -- The event that a header is stored as, in an event `a`.
  abbrev pub encoded : Header → ℕ → Alsa p → Alsa p
  encoded h f a = record {
    type = or_else h.type (λ t. pos (value t)) a.type;
    flags = stamp_flags h.time h.tick h.relative f;
    tag = h.tag;
    queue = or_else h.queue_id (λ q. q) queue_direct;
    tick_or_sec = or_else h.tick (λ t. t) (or_else h.time (λ t. t.seconds) a.tick_or_sec);
    nsec = or_else h.time (λ t. t.nanoseconds) a.nsec;
    source_client = or_else h.source (λ s. s.client_id) a.source_client;
    source_port = or_else h.source (λ s. s.port_id) a.source_port;
    dest_client = or_else h.dest (λ s. s.client_id) address_subscribers;
    dest_port = or_else h.dest (λ s. s.port_id) a.dest_port;
    union = or_else h.raw_data (λ bs. p.memory.put_raw (take union_size bs) a.union) a.union;
  }

  pub to_alsa-ok :
      (h : Header) (f : ℕ) (a : Alsa p)
      → IsStorable h f
      → to_alsa p h no_overrides a ≡ ok (encoded h f a)
  unfolding to_alsa
  to_alsa-ok h f a s = simp (
    put_type-ok h.type a s.type,
    s.flags,
    queue_of-ok,
    checked_byte,
    s.tag,
    queue-IsByte h.queue_id s.queue_id,
    one_time-ok h.time h.tick s.one_time,
    put_time-ok,
    s.time,
    put_tick-ok,
    s.tick,
    put_source-ok,
    s.source,
    put_dest-ok,
    s.dest,
    put_raw_data-eq,
    put_flags-ok,
    (stamp_flags-Stamped h.time h.tick h.relative f s.flags_lt).is_byte,
  )
