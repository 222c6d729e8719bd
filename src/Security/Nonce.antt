-- ===== src/Security/Nonce.antt =====
-- `NonceReplayCache` of security.py. The two critical sections of `consume` are functions of their
-- own, since other threads may run between them. The reply of the shared store is an argument:
-- `none` stands for a request that failed.
use graphrag_agent.Base.{
  Bool, true, false, not, ◌&&◌, ◌||◌, Option, none, some, List, [], ◌∷◌, if◌then◌else◌,
}
use graphrag_agent.Base.Int.{ℤ, leb_ℤ}
use graphrag_agent.Base.Text.{Str, codes, str_eq, upper, nonempty}
use graphrag_agent.Security.Errors.{
  Checked, passed, failed, nonce_storage_required, nonce_storage_incomplete,
  nonce_storage_unavailable,
}

pub record Entry : Type 0 where
  pub nonce : Str
  pub expiry : ℤ

abbrev pub Cache : Type 0
Cache = List Entry

-- `_distributed_settings`
pub record Settings : Type 0 where
  pub url : Str
  pub token : Str
  pub required : Bool

-- nonce in self._items
unfoldable pub holds : Str → Cache → Bool
holds nonce [] = false
holds nonce (e ∷ items) = str_eq nonce e.nonce || holds nonce items

-- {key: expiry for key, expiry in items if expiry >= now}
unfoldable pub purge : ℤ → Cache → Cache
purge now [] = []
purge now (e ∷ items) = if leb_ℤ now e.expiry then e ∷ purge now items else purge now items

-- `none`: no shared store is configured, and the local cache decides alone.
unfoldable pub consume_distributed : Settings → Option Str → Checked (Option Bool)
consume_distributed s reply =
    if not (nonempty s.url) && not (nonempty s.token)
    then if s.required then failed nonce_storage_required else passed none
    else if not (nonempty s.url) || not (nonempty s.token)
    then failed nonce_storage_incomplete
    else elim reply [
      | none ↦ failed nonce_storage_unavailable
      | some result ↦ passed (some (str_eq (upper result) (codes "OK")))
    ]

-- The first critical section: drop what has expired, and say whether the nonce is still free.
unfoldable pub consume_begin : Str → ℤ → Cache → Cache × Bool
unfolding holds purge
consume_begin nonce now items = (purge now items, not (holds nonce (purge now items)))

-- The second one: the recheck, and the write.
unfoldable pub consume_finish : Str → ℤ → Cache → Cache × Bool
unfolding holds
consume_finish nonce expires_at items =
    if holds nonce items
    then (items, false)
    else (record { nonce = nonce; expiry = expires_at } ∷ items, true)

-- What follows the network request.
abbrev finish_with : Checked (Option Bool) → Str → ℤ → Cache → Cache × Checked Bool
finish_with (failed e) nonce expires_at items = (items, failed e)
finish_with (passed (some false)) nonce expires_at items = (items, passed false)
finish_with (passed r) nonce expires_at items =
    ((consume_finish nonce expires_at items).0, passed (consume_finish nonce expires_at items).1)

-- A whole call. `others` is what other threads make of the cache during the network request.
unfoldable pub consume :
    Settings → Option Str → (Cache → Cache) → Str → ℤ → ℤ → Cache → Cache × Checked Bool
unfolding consume_begin consume_finish consume_distributed
consume s reply others nonce expires_at now items =
    let (live, free) = consume_begin nonce now items in
    if free
    then finish_with (consume_distributed s reply) nonce expires_at (others live)
    else (live, passed false)
