-- ===== src/Debounce.antt =====
-- src/cq_debounce.c: the one-slot coalescer before the wire. A pending value is the string that the
-- slot owns; NULL is `none`.
pub mod Slot
mod Tests
use casquinha.Prelude.{Bool, true, false, Option, none, some, Bytes}
use casquinha.Alloc.{Memory, dup_or_null}

-- `cq_debounce`
pub record Debounce : Type 0 where
  pub pending : Option Bytes

-- `cq_debounce_init`
unfoldable pub init : Debounce
init = record { pending = none }

-- `cq_debounce_set`: the copy replaces whatever was pending, also when it is NULL.
unfoldable pub set : Memory → Debounce → Option Bytes → Debounce × Memory
unfolding dup_or_null
set m d value = let (nv, m') = dup_or_null m value in (record d { pending = nv }, m')

-- `cq_debounce_has`
unfoldable pub has : Debounce → Bool
has d = elim d.pending [ none ↦ false | some v ↦ true ]

-- `cq_debounce_take`: the value goes to the caller and the slot is empty.
unfoldable pub take : Debounce → Debounce × Option Bytes
take d = (record d { pending = none }, d.pending)

-- `cq_debounce_free`
pub free : Debounce → Debounce
free d = record d { pending = none }
