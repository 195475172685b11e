-- ===== src/Cache/Shift.antt =====
-- The two loops of cq_cache.c, place by place.
use casquinha.Prelude.{
  ℕ, zero, suc, ◌+◌, ◌-◌, ◌<◌, ◌≤◌, ◌&&◌, List, ◌==◌, ltb, leb, if◌then◌else◌, length, get_or, set,
  length-set, get_or-set_self, get_or-set_ne, ◌≡◌, refl, arith, ◌∙◌,
}
use casquinha.Cache.{Slot, empty_slot, shift_from}

get_or-set :
    {A : Type 0} (xs : List A) (i j : ℕ) (v d : A)
    → i < length xs
    → get_or (set xs i v) j d ≡ (if i == j then v else get_or xs j d)
get_or-set xs i j v d h = ground (arith, get_or-set_self xs i v d, get_or-set_ne xs i j v d)

module _ {V : Type 0} where
  pub length-shift_from : (xs : List (Slot V)) (i n : ℕ) → length (shift_from xs i n) ≡ length xs
  unfolding shift_from
  length-shift_from xs i zero = refl
  length-shift_from xs i (suc n) =
      length-shift_from (set xs (i - 1) (get_or xs i (empty_slot V))) (suc i) n
      ∙ length-set xs (i - 1) (get_or xs i (empty_slot V))

  -- After the loop from `i` for `n` rounds, place `j` holds what place `j + 1` held if the loop
  -- wrote it, and what it held otherwise.
  pub get_or-shift_from :
      (xs : List (Slot V)) (i n j : ℕ)
      → 0 < i
      → i + n ≤ length xs
      → get_or (shift_from xs i n) j (empty_slot V) ≡ (
          if leb i (suc j) && ltb (suc j) (i + n)
          then get_or xs (suc j) (empty_slot V)
          else get_or xs j (empty_slot V))
  unfolding shift_from
  get_or-shift_from xs i zero j p h = ground arith
  get_or-shift_from xs i (suc n) j p h =
      let xs' = set xs (i - 1) (get_or xs i (empty_slot V)) in
      ground (
        arith,
        get_or-shift_from xs' (suc i) n j,
        length-set xs (i - 1) (get_or xs i (empty_slot V)),
        get_or-set xs (i - 1) j (get_or xs i (empty_slot V)) (empty_slot V),
        get_or-set xs (i - 1) (suc j) (get_or xs i (empty_slot V)) (empty_slot V),
      )
