-- ===== src/Queue/Model.antt =====
-- A store and a codec that satisfy what the queue's theorems assume of Redis and of JSON: lists of
-- texts and of leases, and texts with a length in front of each part.
use graphrag_agent.Queue.Exclusion.{holder-assign, holder-remove}
use graphrag_agent.Queue.Locks.{Table, holder, assign, remove}
use graphrag_agent.Base.{
  ℕ, zero, suc, ◌≤◌, ◌≡◌, refl, ap, ◌∙◌, Bool, true, false, Option, none, some, List, [], ◌∷◌, ◌++◌,
  if◌then◌else◌, arith, leb, length, take, drop, All, All-take,
}
use mathlib.Core.Option
use graphrag_agent.Base.Text.{Str, codes, str_eq, str_eq_iff, elem}
use graphrag_agent.Queue.Store.{Redis, Codec, Message, is_some, Distinct}
use graphrag_agent.Queue.SharedLocks.{Keys}

module _ {ℓ} {A : Type ℓ} where
  take-length-append : (xs ys : List A) → take (length xs) (xs ++ ys) ≡ xs
  take-length-append [] ys = refl
  take-length-append (x ∷ xs) ys = ap (λ (l : List A). x ∷ l) (take-length-append xs ys)

  drop-length-append : (xs ys : List A) → drop (length xs) (xs ++ ys) ≡ ys
  drop-length-append [] ys = refl
  drop-length-append (x ∷ xs) ys = drop-length-append xs ys

  -- The list without its last element, and that element.
  abbrev pub but_last : List A → List A
  but_last [] = []
  but_last (x ∷ []) = []
  but_last (x ∷ y ∷ xs) = x ∷ but_last (y ∷ xs)

  abbrev pub last? : List A → Option A
  last? [] = none
  last? (x ∷ []) = some x
  last? (x ∷ y ∷ xs) = last? (y ∷ xs)

  pub last_snoc :
      (xs : List A) (x : A) → (last? (xs ++ x ∷ []) ≡ some x) × (but_last (xs ++ x ∷ []) ≡ xs)
  last_snoc [] x = (refl, refl)
  last_snoc (y ∷ []) x = (refl, refl)
  last_snoc (y ∷ z ∷ xs) x =
      ((last_snoc (z ∷ xs) x).0, ap (λ (l : List A). y ∷ l) (last_snoc (z ∷ xs) x).1)

abbrev pub Leases : Type 0
Leases = List (Str × ℕ)

pub record Store : Type 0 where
  pub items : List Str
  pub leases : Leases

abbrev pub score : Leases → Str → Option ℕ
score [] y = none
score ((x, t) ∷ l) y = if str_eq x y then some t else score l y

abbrev pub without : Str → Leases → Leases
without x [] = []
without x ((y, t) ∷ l) = if str_eq y x then without x l else (y, t) ∷ without x l

pub score-without :
    (x y : Str) (l : Leases) → score (without x l) y ≡ (if str_eq x y then none else score l y)
score-without x y [] = ground arith
score-without x y ((z, t) ∷ l) =
    ground (arith, score-without x y l, str_eq_iff z x, str_eq_iff z y, str_eq_iff x y)

abbrev pub is_due : ℕ → Option ℕ → Bool
is_due bound none = false
is_due bound (some t) = leb t bound

-- The texts with a due lease in `all`, each once.
abbrev pub due_of : ℕ → Leases → Leases → List Str
due_of bound all [] = []
due_of bound all ((x, t) ∷ l) =
    let rest = due_of bound all l in
    if elem x rest then rest else if is_due bound (score all x) then x ∷ rest else rest

abbrev pub Due : ℕ → Leases → Str → Type 0
Due bound all x = (t : ℕ) × (score all x ≡ some t) × (t ≤ bound)

pub due_found :
    (bound : ℕ) (o : Option ℕ) → is_due bound o ≡ true → (t : ℕ) × (o ≡ some t) × (t ≤ bound)
due_found bound none h = absurd (ground arith)
due_found bound (some t) h = (t, refl, ground arith)

pub due_of-Due : (bound : ℕ) (all l : Leases) → All (Due bound all) (due_of bound all l)
due_of-Due bound all [] = tt
due_of-Due bound all ((x, t) ∷ l) =
    ground (arith, due_of-Due bound all l, due_found bound (score all x))

pub due_of-Distinct : (bound : ℕ) (all l : Leases) → Distinct (due_of bound all l)
due_of-Distinct bound all [] = tt
due_of-Distinct bound all ((x, t) ∷ l) = ground (arith, due_of-Distinct bound all l)

pub elem-take : (x : Str) (n : ℕ) (l : List Str) → elem x l ≡ false → elem x (take n l) ≡ false
unfolding elem
elem-take x zero l h = refl
elem-take x (suc n) [] h = refl
elem-take x (suc n) (y ∷ l) h = ground (arith, elem-take x n l)

pub Distinct-take : (n : ℕ) (l : List Str) → Distinct l → Distinct (take n l)
Distinct-take zero l d = tt
Distinct-take (suc n) [] d = tt
Distinct-take (suc n) (x ∷ l) d = (elem-take x n l d.0, Distinct-take n l d.1)

abbrev pub redis : Redis
redis = record {
  State = Store;
  queue = λ s. s.items;
  lease = λ s y. score s.leases y;
  lpush = λ x s. record s { items = x ∷ s.items };
  rpop = λ s. (last? s.items, record s { items = but_last s.items });
  zadd = λ t x s. record s { leases = (x, t) ∷ s.leases };
  zrem = λ x s. (is_some (score s.leases x), record s { leases = without x s.leases });
  zrangebyscore = λ bound count s. take count (due_of bound s.leases s.leases);
  queue-lpush = λ x s. refl;
  lease-lpush = λ x y s. refl;
  rpop_empty = λ s e. (ap last? e, ap but_last e);
  rpop_last = λ xs x s e. (ap last? e ∙ (last_snoc xs x).0, ap but_last e ∙ (last_snoc xs x).1);
  lease-rpop = λ y s. refl;
  queue-zadd = λ t x s. refl;
  lease-zadd = λ t x y s. refl;
  zrem_found = λ x s. refl;
  queue-zrem = λ x s. refl;
  lease-zrem = λ x y s. score-without x y s.leases;
  zrangebyscore_due =
      λ bound count s. All-take (Due bound s.leases) count _ (due_of-Due bound s.leases s.leases);
  zrangebyscore_distinct =
      λ bound count s. Distinct-take count _ (due_of-Distinct bound s.leases s.leases);
}

-- A text behind its length.
abbrev put : Str → Str → Str
put s rest = length s ∷ s ++ rest

abbrev put_fields : List (Str × Str) → Str
put_fields [] = []
put_fields ((k, v) ∷ fields) = put k (put v (put_fields fields))

get_part : Str → Option (Str × Str)
get_part [] = none
get_part (n ∷ s) = some (take n s, drop n s)

get_part-put : (s rest : Str) → get_part (put s rest) ≡ some (s, rest)
unfolding get_part
get_part-put s rest = rw (take-length-append s rest, drop-length-append s rest)

get_fields : ℕ → Str → Option (List (Str × Str))
get_fields zero s = some []
get_fields (suc n) s = elim (get_part s) [
  | none ↦ none
  | some (k, r) ↦ elim (get_part r) [
    | none ↦ none
    | some (v, r') ↦ Option.map (λ (l : List (Str × Str)). (k, v) ∷ l) (get_fields n r')
  ]
]

unfoldable pub encode : Message → Str
encode m = m.attempt ∷ length m.fields ∷ put m.job_id (put_fields m.fields)

message_of : ℕ → ℕ → Option (Str × Str) → Option Message
message_of a n none = none
message_of a n (some (job, r)) =
    Option.map (λ (l : List (Str × Str)). record { job_id = job; attempt = a; fields = l })
      (get_fields n r)

unfoldable pub decode : Str → Option Message
unfolding message_of get_part get_fields
decode [] = none
decode (a ∷ []) = none
decode (a ∷ n ∷ s) = message_of a n (get_part s)

get-put_fields :
    (fields : List (Str × Str)) → get_fields (length fields) (put_fields fields) ≡ some fields
unfolding get_fields
get-put_fields [] = refl
get-put_fields ((k, v) ∷ fields) = ground (
  arith,
  get_part-put k (put v (put_fields fields)),
  get_part-put v (put_fields fields),
  get-put_fields fields,
)

pub decode-encode : (m : Message) → decode (encode m) ≡ some m
unfolding encode decode
decode-encode m =
    ground (arith, get_part-put m.job_id (put_fields m.fields), get-put_fields m.fields)

abbrev pub codec : Codec
codec = record {
  dumps = encode;
  loads = decode;
  cjson_encode = encode;
  cjson_decode = decode;
  loads-dumps = decode-encode;
  loads-cjson_encode = decode-encode;
  cjson_decode-dumps = decode-encode;
  cjson_decode-cjson_encode = decode-encode;
}

abbrev pub set_free : Option Str → Str → Str → Table → Option Str × Table
set_free none k v t = (some (codes "OK"), assign k v t)
set_free (some old) k v t = (none, t)

pub set_reply :
    (o : Option Str) (k v : Str) (t : Table)
    → (set_free o k v t).0 ≡ (if is_some o then none else some (codes "OK"))
set_reply none k v t = refl
set_reply (some old) k v t = refl

pub value-set :
    (o : Option Str) (k v : Str) (t : Table) (j : Str)
    → holder j (set_free o k v t).1
      ≡ (if str_eq k j then (if is_some o then holder j t else some v) else holder j t)
value-set none k v t j = holder-assign k v j t
value-set (some old) k v t j = ground arith

abbrev pub keys : Keys
keys = record {
  State = Table;
  value = λ t k. holder k t;
  set_nx_ex = λ k v seconds t. set_free (holder k t) k v t;
  del = λ k t. remove k t;
  expire = λ k seconds t. t;
  pass = λ n t. [];
  set_nx_ex_reply = λ k v seconds t. set_reply (holder k t) k v t;
  value-set_nx_ex = λ k v seconds t j. value-set (holder k t) k v t j;
  value-del = λ k t j. holder-remove k j t;
  value-expire = λ k seconds t j h. refl;
}
