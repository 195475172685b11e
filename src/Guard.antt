-- ===== src/Guard.antt =====
-- src/cq_guard.c: the monotonic guard over the server's timestamps. A `long long` is an integer.
pub mod History
mod Tests
use casquinha.Prelude.{Bool, true, false, ◌&&◌, if◌then◌else◌}
use casquinha.Prelude.Int.{ℤ, pos, ltb_ℤ, ◌≤ℤ◌}

-- `cq_guard`
pub record Guard : Type 0 where
  pub last_ts : ℤ

-- `cq_guard_init`
unfoldable pub init : Guard
init = record { last_ts = pos 0 }

-- `cq_guard_accept_ts`: the guard after the call, and the verdict (`true` adopts).
unfoldable pub accept_ts : Guard → ℤ → Guard × Bool
accept_ts g ts =
    if ltb_ℤ ts (pos 1)
    then (g, true)
    else if ltb_ℤ (pos 0) g.last_ts && ltb_ℤ ts g.last_ts
    then (g, false)
    else (record g { last_ts = ts }, true)

-- `cq_guard_reset`
unfoldable pub reset : Guard → Guard
reset g = record g { last_ts = pos 0 }
