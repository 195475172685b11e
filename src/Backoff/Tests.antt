-- ===== src/Backoff/Tests.antt =====
-- Runs of the backoff, with the cadence of the app: 120 ticks, at most 1800.
use casquinha.Prelude.{◌-◌, ◌^◌, ◌≡◌, refl, arith}
use casquinha.Prelude.Int.{pos, ◌+ℤ◌}
use casquinha.Backoff.{Backoff, init, interval, interval_seeded, mix, fail}
use casquinha.Backoff.Bounds.{IsValid, fails}

abbrev app : Backoff
app = record { base = pos 120; cap = pos 1800; current = pos 120 }

init-app : init (pos 120) (pos 1800) ≡ app
unfolding init
init-app = refl

app-IsValid : IsValid app
app-IsValid = omega arith

five : interval (fails 5 app) ≡ pos 1800
unfolding interval fail
five = refl

-- A cap near the top of `long`: the doubled interval wraps below zero.
abbrev huge : Backoff
huge = record { base = pos 1; cap = pos (2 ^ 31 - 1); current = pos (2 ^ 30) }

seeded : interval_seeded app 7 ≡ pos 128
unfolding interval_seeded mix ◌+ℤ◌
seeded = refl
