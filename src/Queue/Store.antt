-- ===== src/Queue/Store.antt =====
-- What queue_repository.py relies on and does not implement: the Redis commands of its scripts, as
-- they are documented, over the list of queued texts and the sorted set of leased ones; and the two
-- JSON codecs, Python's and the one of Redis's scripts.
use graphrag_agent.Base.{
  ℕ, ◌≤◌, ◌≡◌, Bool, true, false, Option, none, some, List, [], ◌∷◌, ◌++◌, if◌then◌else◌, All,
}
use graphrag_agent.Base.Text.{Str, str_eq, elem}

abbrev pub is_some {ℓ} : {A : Type ℓ} → Option A → Bool
is_some none = false
is_some (some a) = true

-- Texts that differ pairwise.
abbrev pub Distinct : List Str → Type 0
Distinct [] = Unit {0}
Distinct (x ∷ xs) = (elem x xs ≡ false) × Distinct xs

pub record Redis : Type 1 where
  pub State : Type 0
  -- the list at INDEX_QUEUE_KEY from left to right, and the scores at INDEX_PROCESSING_KEY
  pub queue : State → List Str
  pub lease : State → Str → Option ℕ
  pub lpush : Str → State → State
  pub rpop : State → Option Str × State
  pub zadd : ℕ → Str → State → State
  pub zrem : Str → State → Bool × State
  -- ZRANGEBYSCORE key -inf bound LIMIT 0 count
  pub zrangebyscore : ℕ → ℕ → State → List Str
  pub queue-lpush : (x : Str) (s : State) → queue (lpush x s) ≡ x ∷ queue s
  pub lease-lpush : (x y : Str) (s : State) → lease (lpush x s) y ≡ lease s y
  pub rpop_empty : (s : State) → queue s ≡ [] → ((rpop s).0 ≡ none) × (queue (rpop s).1 ≡ [])
  pub rpop_last :
      (xs : List Str) (x : Str) (s : State)
      → queue s ≡ xs ++ x ∷ []
      → ((rpop s).0 ≡ some x) × (queue (rpop s).1 ≡ xs)
  pub lease-rpop : (y : Str) (s : State) → lease (rpop s).1 y ≡ lease s y
  pub queue-zadd : (t : ℕ) (x : Str) (s : State) → queue (zadd t x s) ≡ queue s
  pub lease-zadd :
      (t : ℕ) (x y : Str) (s : State)
      → lease (zadd t x s) y ≡ (if str_eq x y then some t else lease s y)
  pub zrem_found : (x : Str) (s : State) → (zrem x s).0 ≡ is_some (lease s x)
  pub queue-zrem : (x : Str) (s : State) → queue (zrem x s).1 ≡ queue s
  pub lease-zrem :
      (x y : Str) (s : State) → lease (zrem x s).1 y ≡ (if str_eq x y then none else lease s y)
  pub zrangebyscore_due :
      (bound count : ℕ) (s : State)
      → All (λ x. (t : ℕ) × (lease s x ≡ some t) × (t ≤ bound)) (zrangebyscore bound count s)
  pub zrangebyscore_distinct :
      (bound count : ℕ) (s : State) → Distinct (zrangebyscore bound count s)

-- A queue message: the job, the deliveries that have failed, and its other fields.
pub record Message : Type 0 where
  pub job_id : Str
  pub attempt : ℕ
  pub fields : List (Str × Str)

pub record Codec : Type 0 where
  pub dumps : Message → Str
  pub loads : Str → Option Message
  pub cjson_encode : Message → Str
  pub cjson_decode : Str → Option Message
  pub loads-dumps : (m : Message) → loads (dumps m) ≡ some m
  pub loads-cjson_encode : (m : Message) → loads (cjson_encode m) ≡ some m
  pub cjson_decode-dumps : (m : Message) → cjson_decode (dumps m) ≡ some m
  pub cjson_decode-cjson_encode : (m : Message) → cjson_decode (cjson_encode m) ≡ some m
