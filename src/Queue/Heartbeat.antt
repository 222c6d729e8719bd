-- ===== src/Queue/Heartbeat.antt =====
-- The worker heartbeat of queue_repository.py: its payload, its status, and the process-local copy
-- of `LocalThreadQueueRepository`. The readings of the clock are arguments.
use graphrag_agent.Base.{
  ℕ, zero, suc, ◌+◌, ◌-◌, ◌≤◌, ◌<◌, ◌≡◌, ◌↔◌, min, max, Bool, true, false, ◌&&◌, Option, none, some,
  if◌then◌else◌, arith, leb,
}
use graphrag_agent.Base.Int.{ℤ, pos, negsuc}
use graphrag_agent.Base.Text.{Str, nonempty, strip, parse_int}

-- `worker_heartbeat_ttl_seconds`: the text is the environment's
unfoldable pub ttl_seconds : Str → ℕ
ttl_seconds configured = elim (parse_int configured) [
  | none ↦ min 3600 (max 30 120)
  | some (pos n) ↦ min 3600 (max 30 n)
  | some (negsuc n) ↦ 30
]

pub record Heartbeat : Type 0 where
  pub worker_id : Str
  pub version : Str
  pub last_seen : ℕ

-- A last_seen field as it comes back from the store: missing or null, no number, or a number.
pub data LastSeen : Type 0 where
  absent : LastSeen
  unreadable : LastSeen
  seen : ℤ → LastSeen

abbrev positive : Str → Str → ℤ → Option Heartbeat
positive worker version (pos zero) = none
positive worker version (pos (suc n)) =
    some (record { worker_id = worker; version = version; last_seen = suc n })
positive worker version (negsuc n) = none

-- int(time.time() if last_seen is None else last_seen), and the check that it is positive
abbrev observed : Str → Str → LastSeen → ℕ → Option Heartbeat
observed worker version absent clock = positive worker version (pos clock)
observed worker version unreadable clock = none
observed worker version (seen t) clock = positive worker version t

-- `_heartbeat_payload`; `none` is a ValueError or a TypeError
unfoldable pub heartbeat_payload : Str → Str → LastSeen → ℕ → Option Heartbeat
heartbeat_payload worker version last clock =
    if nonempty (strip worker)
    then if nonempty (strip version)
      then observed (strip worker) (strip version) last clock
      else none
    else none

-- A payload as it is read back.
pub record Stored : Type 0 where
  pub worker_id : Str
  pub version : Str
  pub last_seen : LastSeen

pub data Status : Type 0 where
  unknown : Status
  malformed : ℕ → Status
  observed_at : Heartbeat → Bool → ℕ → ℕ → Status

abbrev is_fresh : ℕ → ℕ → ℕ → Bool
is_fresh now ttl last = leb (now - last) ttl && leb last (now + 30)

abbrev status_of : Option Heartbeat → ℕ → ℕ → Status
status_of none now ttl = malformed ttl
status_of (some h) now ttl = observed_at h (is_fresh now ttl h.last_seen) (now - h.last_seen) ttl

-- `_heartbeat_status`: `clock` is the reading in `_heartbeat_payload`, `now` the one behind it
unfoldable pub heartbeat_status : Str → Option Stored → ℕ → ℕ → Status
heartbeat_status configured none clock now = unknown
heartbeat_status configured (some p) clock now =
    status_of (heartbeat_payload p.worker_id p.version p.last_seen clock) now
      (ttl_seconds configured)

abbrev pub fresh : Status → Bool
fresh unknown = false
fresh (malformed ttl) = false
fresh (observed_at h f age ttl) = f

abbrev pub stored : Heartbeat → Stored
stored h = record {
  worker_id = h.worker_id;
  version = h.version;
  last_seen = seen (pos h.last_seen);
}

abbrev written : Option Heartbeat → Option Stored → Option Stored
written none old = old
written (some h) old = some (stored h)

-- `LocalThreadQueueRepository.record_worker_heartbeat`: what the process then holds
unfoldable pub record_worker_heartbeat : Str → Str → LastSeen → ℕ → Option Stored → Option Stored
record_worker_heartbeat worker version last clock old =
    written (heartbeat_payload worker version last clock) old

pub ttl_bounds :
    (configured : Str) → (30 ≤ ttl_seconds configured) × (ttl_seconds configured ≤ 3600)
unfolding ttl_seconds
ttl_bounds configured = ground arith

-- A heartbeat with a worker, a version and a positive time counts as fresh exactly if that time is
-- at most the time to live, which lies between 30 and 3600 seconds for every configuration, behind
-- the clock, and at most 30 seconds before it.
pub fresh_iff :
    (configured : Str) (p : Stored) (clock now last : ℕ)
    → p.last_seen ≡ seen (pos (suc last))
    → nonempty (strip p.worker_id) ≡ true
    → nonempty (strip p.version) ≡ true
    → ((fresh (heartbeat_status configured (some p) clock now) ≡ true)
        ↔ ((now ≤ suc last + ttl_seconds configured) × (suc last ≤ now + 30)))
      × (30 ≤ ttl_seconds configured)
      × (ttl_seconds configured ≤ 3600)
unfolding heartbeat_status heartbeat_payload
fresh_iff configured p clock now last e w v =
    ((λ f. ground arith, λ b. ground arith), (ttl_bounds configured).0, (ttl_bounds configured).1)

-- A payload without a time counts as observed when it is read: with a worker and a version it is
-- fresh at every positive clock, whenever it was written.
pub absent-fresh :
    (configured : Str) (p : Stored) (now : ℕ)
    → p.last_seen ≡ absent
    → nonempty (strip p.worker_id) ≡ true
    → nonempty (strip p.version) ≡ true
    → 0 < now
    → fresh (heartbeat_status configured (some p) now now) ≡ true
unfolding heartbeat_status heartbeat_payload
absent-fresh configured p zero e w v h = elim h [ ]
absent-fresh configured p (suc n) e w v h = ground (arith, ttl_bounds configured)

-- What the local repository records reads back: a heartbeat that was recorded at a positive clock,
-- with no time of its own, is fresh until the time to live has passed, and not after that.
pub fresh-record :
    (configured worker version : Str) (old : Option Stored) (clock now : ℕ)
    → nonempty (strip worker) ≡ true
    → nonempty (strip version) ≡ true
    → strip (strip worker) ≡ strip worker
    → strip (strip version) ≡ strip version
    → 0 < clock
    → clock ≤ now
    → fresh (
        heartbeat_status configured
          (record_worker_heartbeat worker version absent clock old)
          now
          now)
      ≡ leb (now - clock) (ttl_seconds configured)
unfolding heartbeat_status heartbeat_payload record_worker_heartbeat
fresh-record configured worker version old zero now w v sw sv h le = elim h [ ]
fresh-record configured worker version old (suc c) now w v sw sv h le = ground arith
