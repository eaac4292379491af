-- ===== src/Queue/Timer.antt =====
-- `TimerId` and `QueueTimer` of alsa_midi/queue.py with their conversions. The type of a timer is an `IntEnum`, or the number that ALSA gives.
pub mod Methods
use python_alsa_midi.Prelude.{
  ℕ, ◌≡◌, refl, inl, inr, Option, none, some, List, [], ◌∷◌, ◌++◌, ℤ, pos, arith,
}
use python_alsa_midi.Exceptions.{Result, Result-cases, ok, err, ◌>>=◌}
use python_alsa_midi.Struct.{i32, u32}
use python_alsa_midi.Structures.{AlsaTimerId, AlsaQueueTimer}
use python_alsa_midi.Handle.{argument}

-- `TimerId`, a named tuple
pub record TimerId : Type 0 where
  pub dev_class : ℤ
  pub dev_sclass : ℤ
  pub card : ℤ
  pub device : ℤ
  pub subdevice : ℤ

pub record QueueTimer : Type 0 where
  pub id : TimerId
  pub queue_id : ℤ
  pub type : ℤ
  pub resolution : ℤ

-- The first half of `QueueTimer._from_alsa`
unfoldable pub id_from_alsa : AlsaTimerId → TimerId
id_from_alsa a = record {
  dev_class = a.dev_class;
  dev_sclass = a.dev_sclass;
  card = a.card;
  device = a.device;
  subdevice = a.subdevice;
}

-- `QueueTimer._from_alsa`
unfoldable pub from_alsa : AlsaQueueTimer → QueueTimer
unfolding id_from_alsa
from_alsa a = record {
  id = id_from_alsa a.id;
  queue_id = a.queue;
  type = a.type;
  resolution = a.resolution;
}

-- The setters of the timer's identification: they fill every field.
unfoldable pub id_to_alsa : TimerId → Result AlsaTimerId
unfolding argument
id_to_alsa i = do
  dev_class ← argument i32 i.dev_class
  dev_sclass ← argument i32 i.dev_sclass
  card ← argument i32 i.card
  device ← argument i32 i.device
  subdevice ← argument i32 i.subdevice
  ok (record {
    dev_class = dev_class;
    dev_sclass = dev_sclass;
    card = card;
    device = device;
    subdevice = subdevice;
  })

-- The setters of `QueueTimer._to_alsa`, on a fresh structure
unfoldable pub to_alsa : QueueTimer → AlsaQueueTimer → Result AlsaQueueTimer
unfolding id_to_alsa argument
to_alsa t fresh = do
  id ← id_to_alsa t.id
  type ← argument u32 t.type
  resolution ← argument u32 t.resolution
  ok (record fresh { id = id; type = type; resolution = resolution })

id_round_trip : (i : TimerId) (a : AlsaTimerId) → id_to_alsa i ≡ ok a → id_from_alsa a ≡ i
unfolding id_from_alsa id_to_alsa argument
id_round_trip i a h = ground (arith, h)

-- A timer that is written to ALSA is read back, but for the id of its queue, which is not written.
pub from_alsa-to_alsa :
    (t : QueueTimer) (fresh a : AlsaQueueTimer)
    → to_alsa t fresh ≡ ok a
    → from_alsa a ≡ record t { queue_id = fresh.queue }
unfolding from_alsa to_alsa argument
from_alsa-to_alsa t fresh a h = elim (Result-cases (id_to_alsa t.id)) [
  | inl (i, e) ↦ ground (arith, h, e, id_round_trip t.id i e)
  | inr (x, e) ↦ ground (arith, h, e)
]
