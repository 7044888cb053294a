-- ===== src/Health.antt =====
-- The watchdog's test of the two heartbeats (include/cec-health.h).
use cec_controller.Common.{
  ℕ, ◌+◌, ◌≤◌, ◌<◌, ◌≡◌, ◌↔◌, ◌⊎◌, Bool, true, ◌&&◌, ◌||◌, ltb, sub32, u32, arith,
}

unfoldable pub cec_health_fresh : ℕ → ℕ → ℕ → ℕ → Bool
cec_health_fresh now boot cec parser =
    ltb (sub32 now boot) 10000 || (ltb (sub32 now cec) 3000 && ltb (sub32 now parser) 3000)

-- The clock of 32 bits may wrap round: for times of the true clock that lie within 2^32 ms of now, the
-- test passes exactly in the first ten seconds, or when both tasks have reported within three.
pub cec_health_fresh_iff :
    (now boot cec parser : ℕ)
    → boot ≤ now
    → now < boot + 4294967296
    → cec ≤ now
    → now < cec + 4294967296
    → parser ≤ now
    → now < parser + 4294967296
    → (cec_health_fresh (u32 now) (u32 boot) (u32 cec) (u32 parser) ≡ true)
      ↔ ((now < boot + 10000) ⊎ ((now < cec + 3000) × (now < parser + 3000)))
unfolding cec_health_fresh
cec_health_fresh_iff now boot cec parser a b c d e f = (λ h. ground arith, λ h. ground arith)
