-- ===== src/Client/Cache.antt =====
-- frontend/src/integrations/collector/client.ts: `invalidateCache`, `fetchAllExceptions` and
-- `fetchInstances`, with the short-lived caches between them.
pub mod Paging
pub mod Laws
use jvm_scout.Base.{
  ℕ, zero, suc, ◌+◌, ◌∷◌, [], ◌++◌, List, Option, none, some, Bool, true, false, ◌||◌, length, ltb,
  leb, if◌then◌else◌,
}
use jvm_scout.Client.Rows.{ExceptionListRow}
use jvm_scout.Client.Endpoints.{Endpoint, Instance, Page, exceptions, jvm_instances}
use jvm_scout.Client.Http.{
  Platform, Cached, ClientState, Effect, Error, out_of_fuel, ◌>>=◌, ◌>>◌, pure, throw, need,
  get_now, http, ok,
}

abbrev pub ttl_ms : ℕ
ttl_ms = 4000

abbrev pub page_limit : ℕ
page_limit = 500

unfoldable pub invalidate_cache : {World : Type 0} → ClientState World → ClientState World
invalidate_cache s = record s { exc_cache = none; inst_cache = none }

-- `res.items.length < limit || out.length >= cap || offset >= res.total`, after the page is added.
abbrev pub is_last : ℕ → List ExceptionListRow → ℕ → Page → Bool
is_last most out offset page =
    ltb (length page.items) page_limit || leb most (length out) || leb page.total offset

-- What the cache has, or else the fetch.
abbrev pub serve : {World A : Type 0} → Effect World A → Option A → Effect World A
serve again none = again
serve again (some rows) = pure rows

module _ {World : Type 0} (p : Platform World) where
  -- `cache && Date.now() - cache.at < TTL_MS`; the clock is read only where there is a cache.
  unfoldable pub fresh_rows : {A : Type 0} → Option (Cached A) → Effect World (Option A)
  fresh_rows none = pure none
  fresh_rows (some c) = do
    now ← get_now p
    pure (if ltb now (c.at + ttl_ms) then some c.rows else none)

  -- The `for (;;)` over the pages, on fuel; `most` is `cap`.
  unfoldable pub pages : ℕ → ℕ → List ExceptionListRow → ℕ → Effect World (List ExceptionListRow)
  pages zero most out offset = throw out_of_fuel
  pages (suc fuel) most out offset = do
    res ← http p (exceptions page_limit offset)
    page ← need res
    let all_rows = out ++ page.items
    let next = offset + length page.items
    let more = pages fuel most all_rows next
    if is_last most all_rows next page then pure all_rows else more

  -- A fetch that is not answered by the cache, and the caching of what it yields.
  unfoldable pub refetch_exceptions : ℕ → Effect World (List ExceptionListRow)
  refetch_exceptions most = do
    out ← pages (suc most) most [] 0
    now ← get_now p
    λ s. (ok out, record s { exc_cache = some (record { at = now; rows = out }) })

  unfoldable pub fetch_all_exceptions : ℕ → Effect World (List ExceptionListRow)
  fetch_all_exceptions most s = (fresh_rows s.exc_cache >>= serve (refetch_exceptions most)) s

  unfoldable pub refetch_instances : Effect World (Option (List Instance))
  refetch_instances = do
    rows ← http p jvm_instances
    now ← get_now p
    λ s. (ok rows, record s { inst_cache = some (record { at = now; rows = rows }) })

  unfoldable pub fetch_instances : Effect World (Option (List Instance))
  fetch_instances s = (fresh_rows s.inst_cache >>= serve refetch_instances) s

-- The default value of `cap`, which every caller takes.
abbrev pub default_cap : ℕ
default_cap = 2000
