-- ===== src/Queue/Info.antt =====
-- `QueueInfo` and `QueueStatus` of alsa_midi/queue.py, and their conversions.
use python_alsa_midi.Prelude.{
  ℕ, ◌≡◌, ◌≢◌, refl, Bool, not, inl, inr, String, ℤ, pos, eqb_ℤ, arith, has_any, if◌then◌else◌,
  ◌+ℤ◌,
}
use python_alsa_midi.Exceptions.{Error, Result-cases, Result, ok, err, ◌>>=◌}
use python_alsa_midi.RealTime.{RealTime, normalise}
use python_alsa_midi.RealTime.Normal.{IsNormal, normalise-IsNormal}
use python_alsa_midi.Struct.{i32, u32}
use python_alsa_midi.RealTime.Normal.{IsNormal, normalise-IsNormal}
use python_alsa_midi.Structures.{AlsaQueueInfo, AlsaQueueStatus}
use python_alsa_midi.Port.Info.{of_bool}
use python_alsa_midi.Handle.{argument}

pub record QueueInfo : Type 0 where
  pub queue_id : ℤ
  pub name : String
  pub owner : ℤ
  pub locked : Bool
  pub flags : ℤ

-- `QueueInfo._from_alsa`
unfoldable pub from_alsa : AlsaQueueInfo → QueueInfo
from_alsa a = record {
  queue_id = a.queue;
  name = a.name;
  owner = a.owner;
  locked = not (eqb_ℤ a.locked (pos 0));
  flags = a.flags;
}

-- An owner 0 stands for the client.
abbrev pub owner_or : ℤ → ℤ → ℤ
owner_or owner client_id = if eqb_ℤ owner (pos 0) then client_id else owner

-- `QueueInfo._to_alsa`, on a fresh structure
unfoldable pub to_alsa : ℤ → QueueInfo → AlsaQueueInfo → Result AlsaQueueInfo
unfolding of_bool argument
to_alsa client_id i fresh = do
  owner ← argument i32 (owner_or i.owner client_id)
  flags ← argument u32 i.flags
  ok (record fresh { name = i.name; owner = owner; locked = of_bool i.locked; flags = flags })

-- What is written to ALSA is read back, but for the id of the queue, which has no setter, and an owner
-- 0, which becomes the client.
pub from_alsa-to_alsa :
    (client_id : ℤ) (i : QueueInfo) (fresh a : AlsaQueueInfo)
    → to_alsa client_id i fresh ≡ ok a
    → from_alsa a ≡ record i { queue_id = fresh.queue; owner = owner_or i.owner client_id }
unfolding from_alsa to_alsa of_bool argument
from_alsa-to_alsa client_id i fresh a h = ground (arith, h)

pub record QueueStatus : Type 0 where
  pub queue_id : ℤ
  pub events : ℤ
  pub tick_time : ℤ
  pub real_time : RealTime
  pub status : ℕ

-- `QueueStatus._from_alsa`
unfoldable pub status_from_alsa : AlsaQueueStatus → Result QueueStatus
unfolding normalise
status_from_alsa a = do
  real_time ← normalise (pos a.tv_sec) (pos a.tv_nsec)
  ok (record {
    queue_id = a.queue;
    events = a.events;
    tick_time = a.tick_time;
    real_time = real_time;
    status = a.status;
  })

-- `running`
unfoldable pub running : QueueStatus → Bool
running s = has_any s.status 1

not_refused : (s n : ℕ) (e : Error) → normalise (pos s) (pos n) ≢ err e
unfolding normalise ◌+ℤ◌
not_refused s n e h = ground (arith, h)

-- A status is always read, whatever time ALSA gives, and the time that it has is normal.
pub status_from_alsa-ok :
    (a : AlsaQueueStatus) → (s : QueueStatus) × (status_from_alsa a ≡ ok s) × IsNormal s.real_time
unfolding status_from_alsa
status_from_alsa-ok a = elim (Result-cases (normalise (pos a.tv_sec) (pos a.tv_nsec))) [
  | inl (t, h) ↦ (
    record {
      queue_id = a.queue;
      events = a.events;
      tick_time = a.tick_time;
      real_time = t;
      status = a.status;
    },
    rw h refl,
    normalise-IsNormal (pos a.tv_sec) (pos a.tv_nsec) h,
  )
  | inr (e, h) ↦ absurd (not_refused a.tv_sec a.tv_nsec e h)
]
