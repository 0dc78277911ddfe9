-- ===== src/Server/TokenRoutes/Lifetime.antt =====
-- dashboard/src/server.js: how long an enrollment token is good for.
use swiftlm_platform.Base.{◌⊎◌, ℕ, ◌≤◌, ◌<◌, ◌≡◌, refl, arith}
use swiftlm_platform.Store.{Store}
use swiftlm_platform.Server.TokenRoutes.{Minutes, missing, below_zero, milliseconds, ttl_ms}

-- The time that is asked for, where it is a minute at least and an hour at most, and the nearer of the
-- two where it is not; ten minutes where none is asked for.
abbrev pub IsLifetime : Minutes → ℕ → Type 0
IsLifetime missing ms = ms ≡ 600000
IsLifetime below_zero ms = ms ≡ 60000
IsLifetime (milliseconds n) ms =
    (60000 ≤ ms)
    × (ms ≤ 3600000)
    × ((ms ≡ n) ⊎ (((n < ms) × (ms ≡ 60000)) ⊎ ((ms < n) × (ms ≡ 3600000))))

pub ttl_ms-IsLifetime : (m : Minutes) → IsLifetime m (ttl_ms m)
ttl_ms-IsLifetime missing = refl
ttl_ms-IsLifetime below_zero = refl
ttl_ms-IsLifetime (milliseconds ms) = grind arith
