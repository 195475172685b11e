-- ===== src/Cache/Tests.antt =====
-- Runs of the cache, with numbers for payloads.
use mathlib.Core.List.{Perm}
use casquinha.Prelude.{ℕ, true, false, Option, none, some, [], ◌∷◌, ◌++◌, ◌≡◌, refl, arith, Bytes}
use casquinha.Cache.{
  Cache, Slot, init, has, get, put, key_copy, key_find, find_from, append, shift_out_oldest,
  shift_from,
}
use casquinha.Cache.Refine.{view, IsValid, put_refines}
use casquinha.Cache.Residence.{puts, opt, payloads, put-conserves}
use casquinha.Cache.Fifo

abbrev key : ℕ → Option Bytes
key n = some (n ∷ [])

abbrev entry : ℕ → Slot ℕ
entry n = record { key = n ∷ []; val = some n }

-- Eight albums, the cache full.
abbrev full : Cache ℕ
full = record {
  slots =
      entry 1
      ∷ entry 2
      ∷ entry 3
      ∷ entry 4
      ∷ entry 5
      ∷ entry 6
      ∷ entry 7
      ∷ record { key = 8 ∷ []; val = none }
      ∷ [];
  used = 8;
}

full-IsValid : IsValid full
full-IsValid = omega arith

fill :
    puts init ((key 1, some 1) ∷ (key 2, some 2) ∷ (key 1, some 9) ∷ []) ≡ record (init {V = ℕ}) {
      used = 2;
      slots =
          record { key = 1 ∷ []; val = some 9 }
          ∷ entry 2
          ∷ record { key = []; val = none }
          ∷ record { key = []; val = none }
          ∷ record { key = []; val = none }
          ∷ record { key = []; val = none }
          ∷ record { key = []; val = none }
          ∷ record { key = []; val = none }
          ∷ [];
    }
unfolding init put key_find find_from key_copy append
fill = refl

put-evicts : (put full (key 9) (some 9)).1 ≡ some 1
unfolding put key_find find_from key_copy append shift_out_oldest shift_from
put-evicts = refl

-- Tried with no image: known, and no payload.
negative : (has full (key 8) ≡ true) × (get full (key 8) ≡ none) × (has full (key 9) ≡ false)
unfolding has get key_find find_from key_copy
negative = (refl, refl, refl)

put_refines_example :
    (view (put full (key 9) (some 9)).0 ≡ (Fifo.put (view full) (key_copy (key 9)) (some 9)).0)
    × ((put full (key 9) (some 9)).1 ≡ (Fifo.put (view full) (key_copy (key 9)) (some 9)).1)
    × IsValid (put full (key 9) (some 9)).0
put_refines_example = put_refines full (key 9) (some 9) full-IsValid

put-conserves_example :
    Perm
      (opt (put full (key 9) (some 9)).1 ++ payloads (view (put full (key 9) (some 9)).0))
      (9 ∷ payloads (view full))
put-conserves_example = put-conserves full (key 9) (some 9) full-IsValid
