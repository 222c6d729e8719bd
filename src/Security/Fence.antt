-- ===== src/Security/Fence.antt =====
-- The replay fence of security.py over time: what other calls do to a consumed nonce.
use graphrag_agent.Base.{◌≡◌, Bool, true, false, ◌&&◌, ◌||◌, List, [], ◌∷◌, arith}
use graphrag_agent.Base.Int.{ℤ, leb_ℤ, ◌≤ℤ◌}
use graphrag_agent.Base.Text.{Str, str_eq, str_eq_refl}
use graphrag_agent.Security.Nonce.{Cache, holds, purge, consume_begin, consume_finish}

-- What the threads do to the cache, one critical section after the other.
pub data Event : Type 0 where
  begins : Str → ℤ → Event
  finishes : Str → ℤ → Event

unfoldable pub step : Cache → Event → Cache
step items (begins nonce now) = (consume_begin nonce now items).0
step items (finishes nonce expires_at) = (consume_finish nonce expires_at items).0

unfoldable pub run : Cache → List Event → Cache
unfolding step
run items [] = items
run items (e ∷ events) = run (step items e) events

-- No thread's clock has passed `t`.
abbrev pub ClocksUpTo : ℤ → List Event → Type 0
ClocksUpTo t [] = Unit {0}
ClocksUpTo t (begins nonce now ∷ events) = (now ≤ℤ t) × ClocksUpTo t events
ClocksUpTo t (finishes nonce e ∷ events) = ClocksUpTo t events

-- The cache keeps the nonce until `t` at least.
pub held : Str → ℤ → Cache → Bool
held nonce t [] = false
held nonce t (e ∷ items) = (str_eq nonce e.nonce && leb_ℤ t e.expiry) || held nonce t items

pub held→holds :
    (nonce : Str) (t : ℤ) (items : Cache) → held nonce t items ≡ true → holds nonce items ≡ true
unfolding held holds
held→holds nonce t [] h = h
held→holds nonce t (e ∷ items) h = ground (arith, held→holds nonce t items)

pub held-purge :
    (nonce : Str) (t now : ℤ) (items : Cache)
    → now ≤ℤ t
    → held nonce t items ≡ true
    → held nonce t (purge now items) ≡ true
unfolding held purge
held-purge nonce t now [] le h = h
held-purge nonce t now (e ∷ items) le h = ground (arith, held-purge nonce t now items le)

pub held-finish :
    (nonce n : Str) (t e : ℤ) (items : Cache)
    → held nonce t items ≡ true
    → held nonce t (consume_finish n e items).0 ≡ true
unfolding held consume_finish
held-finish nonce n t e items h = ground arith

pub held-run :
    (nonce : Str) (t : ℤ) (events : List Event) (items : Cache)
    → ClocksUpTo t events
    → held nonce t items ≡ true
    → held nonce t (run items events) ≡ true
unfolding run consume_begin
held-run nonce t [] items c h = h
held-run nonce t (begins n now ∷ events) items c h =
    held-run nonce t events (purge now items) c.1 (held-purge nonce t now items c.0 h)
held-run nonce t (finishes n e ∷ events) items c h =
    held-run nonce t events (consume_finish n e items).0 c (held-finish nonce n t e items h)

pub finish-held :
    (nonce : Str) (e : ℤ) (items : Cache)
    → (consume_finish nonce e items).1 ≡ true
    → held nonce e (consume_finish nonce e items).0 ≡ true
unfolding held consume_finish
finish-held nonce e items h = ground (arith, str_eq_refl nonce)

-- Of the threads that consume one nonce, one wins: once a second critical section has accepted the
-- nonce, and while no clock in the cache's critical sections has passed the expiry that was
-- written, every later second critical section refuses it, whatever ran in between.
pub consume_finish_once :
    (nonce : Str) (e later : ℤ) (items : Cache) (events : List Event)
    → (consume_finish nonce e items).1 ≡ true
    → ClocksUpTo e events
    → (consume_finish nonce later (run (consume_finish nonce e items).0 events)).1 ≡ false
unfolding consume_finish
consume_finish_once nonce e later items events won clocks = ground (
  arith,
  held→holds nonce e (run (consume_finish nonce e items).0 events) (
      held-run nonce e events (consume_finish nonce e items).0 clocks
        (finish-held nonce e items won)),
)
