-- ===== src/Alloc.antt =====
-- The C allocator, as far as the source can tell: each `malloc` or `realloc` succeeds or returns
-- NULL. A `Memory` is the script of the outcomes to come; past its end every request is granted, so
-- that `[]` is plenty of memory and every pattern of failures of a run is some script.
use casquinha.Prelude.{
  ◌≡◌, refl, ◌≡◌, Bool, true, List, [], ◌∷◌, Option, none, some, Bytes, if◌then◌else◌,
}

abbrev pub Memory : Type 0
Memory = List Bool

-- One request: whether it is granted, and the script after it.
abbrev pub malloc : Memory → Bool × Memory
malloc [] = (true, [])
malloc (granted ∷ m) = (granted, m)

-- `dup_str` and `dup_or_null`, which four files of the source repeat: NULL stays NULL, and a copy
-- that is not granted is NULL too.
unfoldable pub dup_or_null : Memory → Option Bytes → Option Bytes × Memory
dup_or_null m none = (none, m)
dup_or_null m (some s) =
    let (granted, m') = malloc m in if granted then (some s, m') else (none, m')

pub dup_or_null-plenty : (o : Option Bytes) → dup_or_null [] o ≡ (o, [])
unfolding dup_or_null
dup_or_null-plenty none = refl
dup_or_null-plenty (some s) = refl
