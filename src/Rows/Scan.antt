-- ===== src/Rows/Scan.antt =====
-- The loop ends, at the first gap, with exactly the rows before it.
use native.Mathlib.Nat.{add-zero}
use casquinha.Prelude.{
  ℕ, zero, suc, ◌+◌, ◌*◌, ◌<◌, ◌≤◌, Option, none, some, List, [], ◌∷◌, ◌++◌, ◌==◌, if◌then◌else◌,
  length, length-append, Bytes, ◌≡◌, refl, ◌≢◌, arith, ap, sym, ◌∙◌, append-nil, append_assoc,
  Bool-cases, inl, inr,
}
use casquinha.Alloc.{Memory}
use casquinha.Rows.{RowList, grow, scan}

grow-items :
    {A : Type 0} (m m' : Memory) (l l' : RowList A) → grow m l ≡ (some l', m') → l'.items ≡ l.items
unfolding grow
grow-items m m' l l' e = ground arith

-- Whatever the memory, the scan ends within one round more than there are rows before the gap.
module _ {A : Type 0} (lead : ℕ → Option Bytes) (read : Memory → ℕ → Bytes → A × Memory) where
  abbrev pub Ends : ℕ → ℕ → Memory → ℕ → RowList A → Type 0
  Ends n fuel m i l =
      (r : RowList A × Memory) × (scan lead read fuel m i l ≡ some r)
      × (length r.0.items ≤ length l.items + n)

  scan-step :
      (n fuel : ℕ) (m : Memory) (i : ℕ) (l : RowList A) (uri : Bytes)
      → lead i ≡ some uri
      → ((m' : Memory) (l' : RowList A) → Ends n fuel m' (suc i) l')
      → (g : Option (RowList A) × Memory) → grow m l ≡ g
      → Ends (suc n) (suc fuel) m i l
  unfolding scan
  scan-step n fuel m i l uri e rest (none, m') eg = ((l, m'), ground (arith, e, eg), omega arith)
  scan-step n fuel m i l uri e rest (some l', m') eg =
      let row = read m' i uri in
      let l'' : RowList A = record l' { items = l'.items ++ row.0 ∷ [] } in
      let (r, run, len) = rest row.1 l'' in
      (
        r,
        ground (arith, e, eg, run),
        omega
            (arith, len, length-append l'.items (row.0 ∷ []), ap length (grow-items m m' l l' eg)),
      )

  pub scan-Ends :
      (n fuel : ℕ) (m : Memory) (i : ℕ) (l : RowList A)
      → n < fuel
      → lead (i + n) ≡ none
      → Ends n fuel m i l
  unfolding scan
  scan-Ends n zero m i l h gap = absurd (omega arith)
  scan-Ends zero (suc fuel) m i l h gap =
      let here : lead i ≡ none = rw (add-zero i) at gap in
      ((l, m), ground (arith, here), omega arith)
  scan-Ends (suc n) (suc fuel) m i l h gap =
      go (lead i) refl (λ m' l'. scan-Ends n fuel m' (suc i) l' (omega arith) gap')
    where
      gap' : lead (suc i + n) ≡ none
      gap' = let same : suc i + n ≡ i + suc n = omega arith in rw same gap

      go :
          (o : Option Bytes)
          → lead i ≡ o
          → ((m' : Memory) (l' : RowList A) → Ends n fuel m' (suc i) l')
          → Ends (suc n) (suc fuel) m i l
      go none e rest = ((l, m), ground (arith, e), omega arith)
      go (some uri) e rest = scan-step n fuel m i l uri e rest (grow m l) refl

grow-plenty :
    {A : Type 0} (l : RowList A)
    → (l' : RowList A) × (grow [] l ≡ (some l', [])) × (l'.items ≡ l.items)
unfolding grow
grow-plenty l = elim (Bool-cases (length l.items == l.cap)) [
  | inl full ↦ (record l { cap = if l.cap == 0 then 8 else l.cap * 2 }, ground arith, refl)
  | inr room ↦ (l, ground arith, refl)
]

-- Rows `i` to `i + n - 1`.
abbrev pub rows : {A : Type 0} → (ℕ → A) → ℕ → ℕ → List A
rows row i zero = []
rows row i (suc n) = row i ∷ rows row (suc i) n

module _ {A : Type 0} (lead : ℕ → Option Bytes) (read : Memory → ℕ → Bytes → A × Memory)
    (row : ℕ → A)
    (reads : (i : ℕ) (value : Bytes) → lead i ≡ some value → read [] i value ≡ (row i, [])) where
  abbrev pub Reads : ℕ → ℕ → ℕ → RowList A → Type 0
  Reads n fuel i l =
      (r : RowList A) × (scan lead read fuel [] i l ≡ some (r, []))
      × (r.items ≡ l.items ++ rows row i n)

  pub scan-Reads :
      (n fuel i : ℕ) (l : RowList A)
      → n < fuel
      → ((j : ℕ) → j < n → lead (i + j) ≢ none)
      → lead (i + n) ≡ none
      → Reads n fuel i l
  unfolding scan
  scan-Reads n zero i l h filled gap = absurd (omega arith)
  scan-Reads zero (suc fuel) i l h filled gap =
      let here : lead i ≡ none = rw (add-zero i) at gap in
      (l, ground (arith, here), sym (append-nil l.items))
  scan-Reads (suc n) (suc fuel) i l h filled gap = go (lead i) refl (λ l'.
      scan-Reads n fuel (suc i) l' (omega arith)
        (λ j lt absent. filled (suc j) (omega arith) (rw (same j) at absent)) (rw (same n) gap))
    where
      same : (j : ℕ) → suc i + j ≡ i + suc j
      same j = omega arith

      go :
          (o : Option Bytes)
          → lead i ≡ o
          → ((l' : RowList A) → Reads n fuel (suc i) l')
          → Reads (suc n) (suc fuel) i l
      go none e rest = absurd (filled 0 (omega arith) (rw (add-zero i) e))
      go (some uri) e rest =
          let (grown, eg, kept) = grow-plenty l in
          let next : RowList A = record grown { items = grown.items ++ row i ∷ [] } in
          let (r, run, items) = rest next in
          (
            r,
            ground (arith, e, eg, run, reads i uri e),
            items ∙ rw kept (append_assoc l.items (row i ∷ []) (rows row (suc i) n)),
          )
