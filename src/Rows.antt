-- ===== src/Rows.antt =====
-- The loop that src/cq_track.c and src/cq_reflist.c share in shape: rows `<prefix>.<i>.<suffix>` of a
-- document from index 0 on, up to the first index whose leading key is absent. The two loops differ
-- in the key that leads a row and in the row that they read, which are the section's parameters.
pub mod Gap
pub mod Scan
use casquinha.Prelude.{
  ℕ, zero, suc, ◌-◌, ◌*◌, ◌%◌, ◌^◌, Option, none, some, List, [], ◌∷◌, ◌++◌, ◌==◌, if◌then◌else◌,
  length, take, Bytes,
}
use casquinha.Prelude.Decimal.{decimal}
use casquinha.Alloc.{Memory, malloc}

-- `snprintf(key, size, "%s.%lu.%s", prefix, i, suffix)`: at most `size - 1` bytes, and the index as
-- an `unsigned long` of 32 bits.
abbrev pub row_key : ℕ → Bytes → ℕ → Bytes → Bytes
row_key size prefix i suffix =
    take (size - 1) (prefix ++ (b'.' ∷ (decimal (i % 2 ^ 32) ++ (b'.' ∷ suffix))))

-- `cq_track_list` and `cq_ref_list`: `count` is the length of `items`.
pub record RowList (A : Type 0) : Type 0 where
  pub items : List A
  pub cap : ℕ

abbrev pub no_rows : {A : Type 0} → RowList A
no_rows = record { items = []; cap = 0 }

module _ {A : Type 0} where
  -- The growth of `items` before an append; `none` if the `realloc` fails.
  pub grow : Memory → RowList A → Option (RowList A) × Memory
  grow m l =
      let ncap = if l.cap == 0 then 8 else l.cap * 2 in
      let (granted, m') = malloc m in
      if length l.items == l.cap
      then (if granted then (some (record l { cap = ncap }), m') else (none, m'))
      else (some l, m)

  -- The loop from row `i` on, on fuel for its rounds; `none` if they do not suffice. `lead i` is the
  -- value under the key that leads row `i`, and `read` reads the row.
  pub scan :
      (ℕ → Option Bytes)
      → (Memory → ℕ → Bytes → A × Memory)
      → ℕ
      → Memory
      → ℕ
      → RowList A
      → Option (RowList A × Memory)
  scan lead read zero m i l = none
  scan lead read (suc n) m i l = elim (lead i) [
    | none ↦ some (l, m)
    | some value ↦
        let (grown, m') = grow m l in
        elim grown [
          | none ↦ some (l, m')
          | some l' ↦
              let (item, m'') = read m' i value in
              scan lead read n m'' (suc i) (record l' { items = l'.items ++ item ∷ [] })
        ]
  ]
