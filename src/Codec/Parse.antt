-- ===== src/Codec/Parse.antt =====
-- `cq_fields_parse` against a document's lines.
use casquinha.Prelude.{
  subst, ℕ, zero, suc, ◌-◌, ◌<◌, Option, none, some, List, [], ◌∷◌, ◌==◌, ltb, if◌then◌else◌,
  length, take, Bytes, bytes_eq, ◌≡◌, refl, arith, ap, sym, ◌∙◌,
}
use casquinha.Alloc.{Memory}
use casquinha.Codec.{Fields, take_line, strip_cr, split_tab, put_line, parse_lines, parse, get}
use casquinha.Codec.Lookup.{
  IsNulFree, get-fields_put, fields_put-memory, fields_put-IsValid, IsValid,
}

-- The lines of a document: what stands between its LFs, the last line included.
abbrev cons_line : ℕ → List Bytes → List Bytes
cons_line c [] = (c ∷ []) ∷ []
cons_line c (l ∷ ls) = (c ∷ l) ∷ ls

abbrev pub lines : Bytes → List Bytes
lines [] = [] ∷ []
lines (c ∷ cs) = if c == b'\n' then [] ∷ lines cs else cons_line c (lines cs)

-- The document line by line, with no buffer.
abbrev pub fold_lines : Memory → Fields → List Bytes → Fields × Memory
fold_lines m f [] = (f, m)
fold_lines m f (l ∷ ls) = let (f', m') = put_line m f l in fold_lines m' f' ls

abbrev Splits : Bytes → Bytes × Option Bytes → Type 0
Splits doc (l, none) = lines doc ≡ l ∷ []
Splits doc (l, some r) = (lines doc ≡ l ∷ lines r) × (length r < length doc)

take_line-Splits : (doc : Bytes) → Splits doc (take_line doc)
unfolding take_line
take_line-Splits [] = refl
take_line-Splits (c ∷ cs) = ground (arith, take_line-Splits cs)

parse_lines-fold :
    (n : ℕ) (m : Memory) (f : Fields) (doc : Bytes)
    → length doc < n
    → parse_lines n m f doc ≡ fold_lines m f (lines doc)
unfolding parse_lines
parse_lines-fold zero m f doc h = absurd (omega arith)
parse_lines-fold (suc n) m f doc h =
    go (take_line doc) (take_line-Splits doc) refl (λ m' f' r lt. parse_lines-fold n m' f' r lt)
  where
    go :
        (t : Bytes × Option Bytes)
        → Splits doc t
        → take_line doc ≡ t
        → ((m' : Memory) (f' : Fields) (r : Bytes)
            → length r < n
            → parse_lines n m' f' r ≡ fold_lines m' f' (lines r))
        → parse_lines (suc n) m f doc ≡ fold_lines m f (lines doc)
    go (l, none) s e ih = ground (arith, e, s)
    go (l, some r) s e ih = ground (arith, e, s, ih (put_line m f l).1 (put_line m f l).0 r)

-- Enough fuel: the parser goes through every line of the document, in order, and stops. An empty
-- document leaves the fields alone.
pub parse-fold :
    (m : Memory) (f : Fields) (doc : Bytes) → parse m f doc ≡ fold_lines m f (lines doc)
unfolding parse
parse-fold m f [] = unfold put_line strip_cr split_tab in refl
parse-fold m f (c ∷ cs) = ground (arith, parse_lines-fold (suc (length (c ∷ cs))) m f (c ∷ cs))

-- What a line says, if anything: the key before its first TAB and the value after it, with one
-- trailing CR stripped; nothing if there is no TAB or no key.
abbrev pub entry : Bytes → Option (Bytes × Bytes)
entry line = elim (split_tab (strip_cr line)) [
  | none ↦ none
  | some (k, v) ↦ if ltb 0 (length k) then some (k, v) else none
]

-- What a line changes of the value under `k`.
abbrev pub override : Bytes → Option Bytes → Option (Bytes × Bytes) → Option Bytes
override k before none = before
override k before (some (j, v)) = if bytes_eq j k then some v else before

-- The value of the last line that has key `k`, or what was read before.
abbrev pub last_value : Bytes → Option Bytes → List Bytes → Option Bytes
last_value k before [] = before
last_value k before (l ∷ ls) = last_value k (override k before (entry l)) ls

abbrev pub AllNulFree : List Bytes → Type 0
AllNulFree [] = Unit
AllNulFree (l ∷ ls) = IsNulFree l × AllNulFree ls

lines-AllNulFree : (doc : Bytes) → IsNulFree doc → AllNulFree (lines doc)
lines-AllNulFree [] h = (tt, tt)
lines-AllNulFree (c ∷ cs) h = go (lines cs) (lines-AllNulFree cs h.1)
  where
    go :
        (ls : List Bytes)
        → AllNulFree ls
        → AllNulFree (if c == b'\n' then [] ∷ ls else cons_line c ls)
    go [] a = ground arith
    go (l ∷ ls) a = ground arith

take-IsNulFree : (n : ℕ) (l : Bytes) → IsNulFree l → IsNulFree (take n l)
take-IsNulFree zero l h = tt
take-IsNulFree (suc n) [] h = tt
take-IsNulFree (suc n) (c ∷ cs) h = (h.0, take-IsNulFree n cs h.1)

strip_cr-IsNulFree : (l : Bytes) → IsNulFree l → IsNulFree (strip_cr l)
unfolding strip_cr
strip_cr-IsNulFree l h = ground (arith, take-IsNulFree (length l - 1) l h)

abbrev PairNulFree : Option (Bytes × Bytes) → Type 0
PairNulFree none = Unit
PairNulFree (some (k, v)) = IsNulFree k × IsNulFree v

split_tab-NulFree : (l : Bytes) → IsNulFree l → PairNulFree (split_tab l)
unfolding split_tab
split_tab-NulFree [] h = tt
split_tab-NulFree (c ∷ cs) h = ground (arith, split_tab-NulFree cs h.1)

put_line-get :
    (f : Fields) (l k : Bytes)
    → IsNulFree l
    → ((put_line [] f l).1 ≡ []) × (get (put_line [] f l).0 k ≡ override k (get f k) (entry l))
unfolding put_line
put_line-get f l k h =
    go (split_tab (strip_cr l)) (split_tab-NulFree (strip_cr l) (strip_cr-IsNulFree l h)) refl
  where
    go :
        (o : Option (Bytes × Bytes))
        → PairNulFree o
        → split_tab (strip_cr l) ≡ o
        → ((put_line [] f l).1 ≡ []) × (get (put_line [] f l).0 k ≡ override k (get f k) (entry l))
    go none p e = ground (arith, e)
    go (some (j, v)) p e =
        ground (arith, e, fields_put-memory f j v, get-fields_put f j v k p.0 p.1)

fold_lines-get :
    (f : Fields) (ls : List Bytes) (k : Bytes)
    → AllNulFree ls
    → get (fold_lines [] f ls).0 k ≡ last_value k (get f k) ls
fold_lines-get f [] k h = refl
fold_lines-get f (l ∷ ls) k h =
    let step = put_line-get f l k h.0 in
    let f' = (put_line [] f l).0 in
    subst (λ m'. get (fold_lines m' f' ls).0 k ≡ last_value k (get f k) (l ∷ ls)) (sym step.0)
      (fold_lines-get f' ls k h.1 ∙ ap (λ before. last_value k before ls) step.1)

-- With memory at hand, what is read under a key after parsing a document without NULs is the value
-- of the last line with that key, and what was there before if no line has it.
pub get-parse :
    (f : Fields) (doc k : Bytes)
    → IsNulFree doc
    → get (parse [] f doc).0 k ≡ last_value k (get f k) (lines doc)
get-parse f doc k h =
    rw (parse-fold [] f doc) (fold_lines-get f (lines doc) k (lines-AllNulFree doc h))

put_line-memory : (f : Fields) (l : Bytes) → (put_line [] f l).1 ≡ []
put_line-memory f l = go (split_tab (strip_cr l)) refl
  where
    go : (o : Option (Bytes × Bytes)) → split_tab (strip_cr l) ≡ o → (put_line [] f l).1 ≡ []
    go none e = unfold put_line in ground (arith, e)
    go (some (k, v)) e = unfold put_line in ground (arith, e, fields_put-memory f k v)

fold_lines-memory : (f : Fields) (ls : List Bytes) → (fold_lines [] f ls).1 ≡ []
fold_lines-memory f [] = refl
fold_lines-memory f (l ∷ ls) =
    subst (λ m. (fold_lines m (put_line [] f l).0 ls).1 ≡ []) (sym (put_line-memory f l))
      (fold_lines-memory (put_line [] f l).0 ls)

pub parse-memory : (f : Fields) (doc : Bytes) → (parse [] f doc).1 ≡ []
parse-memory f doc = ap (λ r. r.1) (parse-fold [] f doc) ∙ fold_lines-memory f (lines doc)

fold_lines-IsValid :
    (m : Memory) (f : Fields) (ls : List Bytes) → IsValid f → IsValid (fold_lines m f ls).0
fold_lines-IsValid m f [] h = h
fold_lines-IsValid m f (l ∷ ls) h =
    fold_lines-IsValid (put_line m f l).1 (put_line m f l).0 ls (step (split_tab (strip_cr l)) refl)
  where
    step : (o : Option (Bytes × Bytes)) → split_tab (strip_cr l) ≡ o → IsValid (put_line m f l).0
    step none e = unfold put_line in ground (arith, e)
    step (some (k, v)) e = unfold put_line in ground (arith, e, fields_put-IsValid m f k v h)

-- Whatever the document holds and whichever requests for memory fail, the parser keeps the fields
-- within their allocation.
pub parse-IsValid : (m : Memory) (f : Fields) (doc : Bytes) → IsValid f → IsValid (parse m f doc).0
parse-IsValid m f doc h = rw (parse-fold m f doc) (fold_lines-IsValid m f (lines doc) h)
