-- ===== src/Lightrag/Sharing.antt =====
-- The workers that share the cache of instances of adapters.py. A step is one block under the cache
-- guard, or the release of a lock; the steps of the workers come in any order.
use graphrag_agent.Base.{ℕ, ◌+◌, ◌≡◌, Bool, true, false, ◌&&◌, none, some, List, [], ◌∷◌, ◌++◌, All}
use graphrag_agent.Base.Text.{Str, str_eq}
use graphrag_agent.Base.Dict.{get, put}
use graphrag_agent.Lightrag.Instances.{
  Cache, active_of, look_up, touch_found, with_lock, settle, or_unlocked, enter_lease, leave_lease,
  evict_instances,
}

-- Where a worker stands that has a lease on a workspace: before `_instance`, before its creation
-- lock, with the lock and no instance, and with the instance.
pub data Worker (R : Type 0) : Type 0 where
  entered waiting creating : Str → Worker R
  holding : Str → R → Worker R

pub record System (R : Type 0) : Type 0 where
  pub cache : Cache R
  pub workers : List (Worker R)

abbrev pub one_if : Bool → ℕ
one_if true = 1
one_if false = 0

module _ {R : Type 0} where
  abbrev pub workspace_of : Worker R → Str
  workspace_of (entered ws) = ws
  workspace_of (waiting ws) = ws
  workspace_of (creating ws) = ws
  workspace_of (holding ws rag) = ws

  abbrev pub is_creating : Worker R → Bool
  is_creating (creating ws) = true
  is_creating other = false

  abbrev pub is_locked : Str → Cache R → Bool
  is_locked ws c = or_unlocked (get ws c.locks)

  abbrev pub system : Cache R → List (Worker R) → System R
  system c workers = record { cache = c; workers = workers }

  abbrev pub with_usage_lock : Str → Bool → Cache R → Cache R
  with_usage_lock ws locked c = record c { usage_locks = put ws locked c.usage_locks }

  pub data Step : System R → System R → Type 0 where
    enter :
        (now : ℕ) (ws : Str) (c : Cache R) (us : List (Worker R))
        → Step (system c us) (system (enter_lease now ws c) (entered ws ∷ us))
    find :
        (now : ℕ) (ws : Str) (rag : R) (c : Cache R) (xs ys : List (Worker R))
        → (look_up now ws c).1 ≡ some rag
        → Step
            (system c (xs ++ entered ws ∷ ys))
            (system (look_up now ws c).0 (xs ++ holding ws rag ∷ ys))
    miss :
        (now : ℕ) (ws : Str) (c : Cache R) (xs ys : List (Worker R))
        → (look_up now ws c).1 ≡ none
        → Step
            (system c (xs ++ entered ws ∷ ys))
            (system (look_up now ws c).0 (xs ++ waiting ws ∷ ys))
    find_late :
        (now : ℕ) (ws : Str) (rag : R) (c : Cache R) (xs ys : List (Worker R))
        → is_locked ws c ≡ false
        → get ws c.instances ≡ some rag
        → Step
            (system c (xs ++ waiting ws ∷ ys))
            (system (touch_found now ws (some rag) c) (xs ++ holding ws rag ∷ ys))
    lock :
        (ws : Str) (c : Cache R) (xs ys : List (Worker R))
        → is_locked ws c ≡ false
        → get ws c.instances ≡ none
        → Step
            (system c (xs ++ waiting ws ∷ ys))
            (system (with_lock ws true c) (xs ++ creating ws ∷ ys))
    create :
        (now : ℕ) (ws : Str) (created : R) (c : Cache R) (xs ys : List (Worker R))
        → Step (system c (xs ++ creating ws ∷ ys)) (
            system
              (with_lock ws false (settle now ws created c).0)
              (xs ++ holding ws (settle now ws created c).1 ∷ ys))
    fail :
        (now : ℕ) (ws : Str) (c : Cache R) (xs ys : List (Worker R))
        → Step
            (system c (xs ++ creating ws ∷ ys))
            (system (leave_lease now ws (with_lock ws false c)) (xs ++ ys))
    leave :
        (now : ℕ) (u : Worker R) (c : Cache R) (xs ys : List (Worker R))
        → is_creating u ≡ false
        → Step (system c (xs ++ u ∷ ys)) (system (leave_lease now (workspace_of u) c) (xs ++ ys))
    use_model :
        (ws : Str) (locked : Bool) (c : Cache R) (us : List (Worker R))
        → Step (system c us) (system (with_usage_lock ws locked c) us)
    evict :
        (excluded : List Str) (now ttl limit : ℕ) (c : Cache R) (us : List (Worker R))
        → Step (system c us) (system (evict_instances excluded now ttl limit c) us)

  pub data Steps : System R → System R → Type 0 where
    stay : (s : System R) → Steps s s
    after : (s t u : System R) → Step s t → Steps t u → Steps s u

  -- How many leases there are on a workspace.
  abbrev pub leases : Str → List (Worker R) → ℕ
  leases ws [] = 0
  leases ws (u ∷ us) = one_if (str_eq (workspace_of u) ws) + leases ws us

  -- How many workers create the instance of a workspace.
  abbrev pub creates : Worker R → Str → Bool
  creates u ws = is_creating u && str_eq (workspace_of u) ws

  abbrev pub creators : Str → List (Worker R) → ℕ
  creators ws [] = 0
  creators ws (u ∷ us) = one_if (creates u ws) + creators ws us

  -- A worker that has an instance has the one that is cached; for one that creates, none is.
  abbrev pub IsHeld : Cache R → Worker R → Type 0
  IsHeld c (holding ws rag) = get ws c.instances ≡ some rag
  IsHeld c (creating ws) = get ws c.instances ≡ none
  IsHeld c other = Unit {0}

  pub record IsShared (s : System R) : Type 0 where
    pub counted : (ws : Str) → active_of ws s.cache ≡ leases ws s.workers
    pub exclusive : (ws : Str) → creators ws s.workers ≡ one_if (is_locked ws s.cache)
    pub held : All (IsHeld s.cache) s.workers
