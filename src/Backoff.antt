-- ===== src/Backoff.antt =====
-- src/cq_backoff.c: exponential poll backoff. `long` has the 32 bits of the Mac OS 9 target; where a
-- signed product or sum leaves them the model wraps, which C leaves undefined and the overflow
-- guard of `cq_backoff_fail` expects.
pub mod Bounds
mod Tests
use casquinha.Prelude.{ℕ, ◌+◌, ◌*◌, ◌%◌, ◌^◌, if◌then◌else◌}
use casquinha.Prelude.Int.{ℤ, pos, pos_part, ltb_ℤ, ◌+ℤ◌, ◌*ℤ◌, wrap32, quot}

-- `cq_backoff`
pub record Backoff : Type 0 where
  pub base : ℤ
  pub cap : ℤ
  pub current : ℤ

-- `cq_backoff_init`
pub init : ℤ → ℤ → Backoff
init base cap =
    let base' = if ltb_ℤ base (pos 1) then pos 1 else base in
    let cap' = if ltb_ℤ cap base' then base' else cap in
    record { base = base'; cap = cap'; current = base' }

-- `cq_backoff_interval`
unfoldable pub interval : Backoff → ℤ
interval b = b.current

-- `unsigned long mix = seed * 2654435761UL + 40503UL`
unfoldable pub mix : ℕ → ℕ
mix seed = (seed * 2654435761 + 40503) % 2 ^ 32

-- `cq_backoff_interval_seeded`; `(unsigned long)(span + 1)` is taken of a positive span.
unfoldable pub interval_seeded : Backoff → ℕ → ℤ
interval_seeded b seed =
    let span = quot b.current 4 in
    if ltb_ℤ span (pos 1)
    then b.current
    else wrap32 (b.current +ℤ pos (mix seed % (pos_part span + 1)))

-- `cq_backoff_ok`
unfoldable pub ok : Backoff → Backoff
ok b = record b { current = b.base }

-- `cq_backoff_fail`
unfoldable pub fail : Backoff → Backoff
unfolding ◌*ℤ◌
fail b =
    let doubled = wrap32 (b.current *ℤ pos 2) in
    let capped = if ltb_ℤ b.cap doubled then b.cap else doubled in
    let next = if ltb_ℤ capped b.current then b.cap else capped in record b { current = next }
