-- ===== src/Backoff/Bounds.antt =====
-- The interval stays between the healthy cadence and the cap.
use native.Mathlib.Nat.{pow-suc}
use casquinha.Prelude.{dec_lt, zero, suc, ◌<◌, ◌∙◌, refl, ap, ℕ, ◌*◌, ◌^◌, min, ◌≡◌, arith}
use casquinha.Prelude.Int.{ℤ, pos, pos_part, ◌+ℤ◌, ◌≤ℤ◌, ◌<ℤ◌, quot}
use casquinha.Backoff.{Backoff, init, interval, interval_seeded, ok, fail}

-- What `cq_backoff_init` establishes: a positive cadence, at most the cap, which fits a `long`.
pub record IsValid (b : Backoff) : Type 0 where
  pub base_pos : pos 1 ≤ℤ b.base
  pub base_le : b.base ≤ℤ b.current
  pub capped : b.current ≤ℤ b.cap
  pub fits : b.cap <ℤ pos (2 ^ 31)

pub init-IsValid :
    (base cap : ℤ) → base <ℤ pos (2 ^ 31) → cap <ℤ pos (2 ^ 31) → IsValid (init base cap)
unfolding init
init-IsValid base cap hb hc = ground arith

pub ok-IsValid : {b : Backoff} → IsValid b → IsValid (ok b)
unfolding ok
ok-IsValid v = ground arith

-- A failure doubles the interval up to the cap, also where the doubling overflows.
pub fail-min :
    (b : Backoff)
    → IsValid b
    → (fail b).current ≡ pos (min (2 * pos_part b.current) (pos_part b.cap))
unfolding fail
fail-min b v = ground arith

pub fail-IsValid : {b : Backoff} → IsValid b → IsValid (fail b)
unfolding fail
fail-IsValid v = ground arith

-- The spread of clients after an outage, of a valid backoff: with room in `long` for a quarter above the cap, the seeded
-- interval is never below the plain one nor more than a quarter of it above, whatever the seed.
pub interval_seeded_bounds :
    (b : Backoff) (seed : ℕ)
    → IsValid b
    → b.cap +ℤ quot b.cap 4 <ℤ pos (2 ^ 31)
    → (interval b ≤ℤ interval_seeded b seed)
      × (interval_seeded b seed ≤ℤ interval b +ℤ quot (interval b) 4)
unfolding interval interval_seeded ◌+ℤ◌
interval_seeded_bounds b seed v h = ground arith

-- The interval after `n` failures in a row.
abbrev pub fails : ℕ → Backoff → Backoff
fails zero b = b
fails (suc n) b = fails n (fail b)

min_double : (p c m : ℕ) → 0 < p → min (p * min (2 * c) m) m ≡ min (2 * p * c) m
min_double zero c m h = absurd (omega arith)
min_double (suc q) c m h = elim (dec_lt m (2 * c)) [
  | yes above ↦ rw (least m (2 * c) above) (omega arith)
  | no below ↦ rw (most m (2 * c) below) (omega arith)
]
  where
    least : (x y : ℕ) → x < y → min y x ≡ x
    least x y lt = omega arith

    most : (x y : ℕ) → ¬ (x < y) → min y x ≡ y
    most x y ge = omega arith

pow_pos : (n : ℕ) → 0 < 2 ^ n
pow_pos zero = omega arith
pow_pos (suc n) = omega (arith, pow_pos n, pow-suc 2 n)

fail-cap : (b : Backoff) → (fail b).cap ≡ b.cap
unfolding fail
fail-cap b = refl

fails-current :
    (n : ℕ) (b : Backoff)
    → IsValid b
    → (fails n b).current ≡ pos (min (2 ^ n * pos_part b.current) (pos_part b.cap))
fails-current zero b v = ground arith
fails-current (suc n) b v =
    fails-current n (fail b) (fail-IsValid v)
    ∙ rw (fail-min b v, fail-cap b)
        (ap pos (
          min_double (2 ^ n) (pos_part b.current) (pos_part b.cap) (pow_pos n)
          ∙ rw pow-suc (omega arith)))

fails-base : (n : ℕ) (b : Backoff) → (fails n b).base ≡ b.base
unfolding fail
fails-base zero b = refl
fails-base (suc n) b = fails-base n (fail b)

-- Of a valid backoff: from a healthy reply on, `n` failures in a row give the base cadence times 2 ^ n, at most the cap;
-- the next healthy reply gives the base cadence again, at once.
pub fails-ok :
    (n : ℕ) (b : Backoff)
    → IsValid b
    → (interval (fails n (ok b)) ≡ pos (min (2 ^ n * pos_part b.base) (pos_part b.cap)))
      × (interval (ok (fails n (ok b))) ≡ b.base)
unfolding interval ok
fails-ok n b v = (
  fails-current n (record b { current = b.base }) (ok_valid v),
  fails-base n (record b { current = b.base }),
)
  where
    ok_valid : IsValid b → IsValid (record b { current = b.base })
    ok_valid v = ground arith
