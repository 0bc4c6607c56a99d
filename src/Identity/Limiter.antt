-- ===== src/Identity/Limiter.antt =====
-- `SignInLimiter` of src/identity.ts: the failed sign-ins of each address in a window of time. A map
-- keeps its entries in the order in which they were set.
pub mod Laws
pub mod Guesses
pub mod Room
pub mod Held
use instacloud_oss.Base.{
  ℕ, ◌+◌, String, Bool, true, false, List, [], ◌∷◌, ◌++◌, Option, none, some, Map, get, put, del,
  string_instance, not, if◌then◌else◌, ltb, leb, filter, length, get_or,
}

pub record SignInLimiter : Type 0 where
  pub failures : Map String (List ℕ)

pub record LimiterConfig : Type 0 where
  pub window_ms : ℕ
  pub max : ℕ
  pub max_ips : ℕ

-- The defaults of the constructor.
abbrev pub default_config : LimiterConfig
default_config = record { window_ms = 900000; max = 10; max_ips = 10000 }

-- The whole list is stale if its last time is.
unfoldable pub is_stale : LimiterConfig → ℕ → List ℕ → Bool
is_stale cfg now [] = true
is_stale cfg now (t ∷ []) = leb (t + cfg.window_ms) now
is_stale cfg now (t ∷ u ∷ ts) = is_stale cfg now (u ∷ ts)

-- The `while` loop of `prune`: the entry that was set first goes.
unfoldable pub cap_ips : LimiterConfig → Map String (List ℕ) → Map String (List ℕ)
cap_ips cfg [] = []
cap_ips cfg (e ∷ m) =
    let rest = cap_ips cfg m in if ltb cfg.max_ips (length (e ∷ m)) then rest else e ∷ m

unfoldable pub prune : LimiterConfig → ℕ → SignInLimiter → SignInLimiter
prune cfg now l = record {
  failures = cap_ips cfg (filter (λ e. not (is_stale cfg now e.1)) l.failures);
}

-- `now - t < windowMs`
unfoldable pub recent : LimiterConfig → ℕ → String → SignInLimiter → List ℕ
recent cfg now ip l = filter (λ t. ltb now (t + cfg.window_ms)) (get_or (get ip l.failures) [])

unfoldable pub blocked : LimiterConfig → ℕ → String → SignInLimiter → Bool
blocked cfg now ip l = leb cfg.max (length (recent cfg now ip l))

unfoldable pub fail : LimiterConfig → ℕ → String → SignInLimiter → SignInLimiter
fail cfg now ip l =
    let list = recent cfg now ip l ++ (now ∷ []) in
    prune cfg now (record { failures = put ip list (del ip l.failures) })

unfoldable pub clear : String → SignInLimiter → SignInLimiter
clear ip l = record { failures = del ip l.failures }
