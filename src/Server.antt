-- ===== src/Server.antt =====
-- src/server.rs: the rate limiter of the gateway. An `Instant` is in milliseconds from an origin
-- before the first request, so that `-` may stop at 0: no request is older.
pub mod Window
pub mod Gateway
pub mod Orchestrate
pub mod Traffic
pub mod Delegation
pub mod Handlers
mod Tests
use zeptopm.Base.{
  ℕ, ◌-◌, ◌%◌, String, Option, Bool, true, false, if◌then◌else◌, ltb, leb, List, [], ◌∷◌, ◌++◌,
  filter, length, u32_mod,
}
use zeptopm.Types.{Time}

-- The gateway's settings with the key resolved.
pub record ResolvedGatewayConfig : Type 0 where
  pub enabled : Bool
  pub api_key : Option String
  pub rate_limit : Option ℕ

pub record RateLimitBucket : Type 0 where
  pub window : List Time
  pub limit : ℕ

unfoldable pub new : ℕ → RateLimitBucket
new limit = record { window = []; limit = limit }

-- `while front < one_minute_ago { pop_front }`
unfoldable pub drop_old : Time → List Time → List Time
drop_old one_minute_ago [] = []
drop_old one_minute_ago (t ∷ window) =
    let rest = drop_old one_minute_ago window in if ltb t one_minute_ago then rest else t ∷ window

-- The bucket after a request at `now`, and whether the request is let through.
unfoldable pub check_and_record : Time → RateLimitBucket → RateLimitBucket × Bool
check_and_record now b =
    let window = drop_old (now - 60000) b.window in
    if leb b.limit (length window % u32_mod)
    then (record b { window = window }, false)
    else (record b { window = window ++ now ∷ [] }, true)

-- `saturating_sub` is `-` on the natural numbers.
unfoldable pub remaining : Time → RateLimitBucket → ℕ
remaining now b =
    let active = length (filter (λ t. leb (now - 60000) t) b.window) % u32_mod in b.limit - active

-- The times of the requests that are let through, for requests at the given times.
unfoldable pub accepted : List Time → RateLimitBucket → List Time
accepted [] b = []
accepted (now ∷ calls) b =
    let (b', ok) = check_and_record now b in
    let rest = accepted calls b' in if ok then now ∷ rest else rest
