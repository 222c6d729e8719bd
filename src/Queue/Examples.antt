-- ===== src/Queue/Examples.antt =====
-- The queue's theorems at concrete stores, jobs and clocks.
use graphrag_agent.Base.{◌≡◌, refl, false, none, List, [], ◌∷◌, arith}
use graphrag_agent.Base.Int.{pos}
use graphrag_agent.Base.Text.{codes, str_eq, elem}
use graphrag_agent.Queue.Store.{Message}
use graphrag_agent.Queue.Jobs.{Config, claimed, pop_index_job, recover_expired_jobs}
use graphrag_agent.Queue.Delivery.{pop_index_job_lem}
use graphrag_agent.Queue.Recovery.{recover_expired_jobs_lem, retries}
use graphrag_agent.Queue.Attempts.{Op, enqueue, pop, ack, recover, run, IsBounded, run-IsBounded}
use graphrag_agent.Queue.Locks.{holder}
use graphrag_agent.Queue.SharedLocks
use graphrag_agent.Queue.Exclusion.{Call, acquires, releases, shared_run, shared_acquire_excludes}
use graphrag_agent.Queue.Heartbeat.{Stored, seen}
use graphrag_agent.Queue.Model.{redis, codec, keys, encode, decode}
use graphrag_agent.Queue.Model

abbrev cfg : Config
cfg = record { lease_seconds = 330; max_recoveries = 2; owner_lock_seconds = 660 }

abbrev job : Message
job = record { job_id = codes "job_1"; attempt = 0; fields = (codes "doc_id", codes "d1") ∷ [] }

abbrev later_job : Message
later_job = record { job_id = codes "job_2"; attempt = 1; fields = [] }

abbrev empty_store : Model.Store
empty_store = record { items = []; leases = [] }

abbrev waiting : Model.Store
waiting = record { items = encode later_job ∷ encode job ∷ []; leases = [] }

abbrev leased : Model.Store
leased = record { items = []; leases = (encode job, 330) ∷ (encode later_job, 900) ∷ [] }

pop_index_job_lem_example : (pop_index_job redis codec cfg 10 waiting).0 ≡ claimed job (encode job)
unfolding encode decode
pop_index_job_lem_example =
    (pop_index_job_lem redis codec cfg 10 waiting (encode later_job ∷ []) (encode job) job [] refl
      refl refl).0

recover_expired_jobs_lem_example :
    redis.queue (recover_expired_jobs redis codec cfg 400 leased).1
    ≡ encode (record job { attempt = 1 }) ∷ []
unfolding encode decode retries elem str_eq
recover_expired_jobs_lem_example = (recover_expired_jobs_lem redis codec cfg 400 leased []).1

IsBounded-start : IsBounded redis codec cfg empty_store
IsBounded-start = record { queued = tt; leased = λ y h. ground arith }

abbrev history : List Op
history = enqueue job ∷ pop 10 ∷ recover 400 ∷ pop 410 ∷ ack none ∷ []

run-IsBounded_example : IsBounded redis codec cfg (run redis codec cfg empty_store history)
run-IsBounded_example =
    run-IsBounded redis codec cfg history empty_store (omega arith) IsBounded-start

waiting-IsBounded : IsBounded redis codec cfg waiting
unfolding encode decode
waiting-IsBounded = record { queued = (omega arith); leased = λ y h. ground arith }

abbrev other_calls : List Call
other_calls = acquires (codes "k") (codes "b") ∷ releases (codes "k") (codes "c") ∷ []

shared_acquire_excludes_example :
    (SharedLocks.acquire keys cfg (codes "k") (codes "b") (
      shared_run keys cfg
        (omega arith)
        (SharedLocks.acquire keys cfg (codes "k") (codes "a") []).1
        other_calls)).0
    ≡ false
unfolding SharedLocks.acquire str_eq holder
shared_acquire_excludes_example =
    (shared_acquire_excludes keys cfg (omega arith) (codes "k") (codes "a") (codes "b") []
      other_calls refl (refl, (refl, tt)) refl).4

abbrev beat : Stored
beat = record { worker_id = codes "w1"; version = codes "1.0"; last_seen = seen (pos 1000) }
