-- ===== src/Rows/Gap.antt =====
-- Indexed keys: there is a first index whose key is absent, since different rows have different keys.
use native.Mathlib.Nat.{add-zero}
use mathlib.Core.List.{append_cancel_left, append_cancel_right}
use casquinha.Prelude.{
  ℕ, zero, suc, ◌+◌, ◌-◌, ◌%◌, ◌^◌, ◌<◌, ◌≤◌, Option, none, some, List, [], ◌∷◌, ◌++◌, ◌≢◌,
  if◌then◌else◌, length, length-append, take, Bytes, bytes_eq, bytes_eq_iff, ◌≡◌, refl, arith, ap,
  sym, ◌∙◌,
}
use casquinha.Prelude.Decimal.{length-decimal, decimal, decimal_inj}
use casquinha.Rows.{row_key}
use casquinha.Codec.{Field, get_from}

abbrev remove : Bytes → List Field → List Field
remove k [] = []
remove k (e ∷ es) = if bytes_eq e.key k then remove k es else e ∷ remove k es

length-remove : (k : Bytes) (es : List Field) → length (remove k es) ≤ length es
length-remove k [] = omega arith
length-remove k (e ∷ es) = ground (arith, length-remove k es)

length-remove_found :
    (k : Bytes) (es : List Field) → get_from es k ≢ none → length (remove k es) < length es
unfolding get_from
length-remove_found k [] h = absurd (h refl)
length-remove_found k (e ∷ es) h = ground (arith, length-remove k es, length-remove_found k es)

get_from-remove : (k j : Bytes) (es : List Field) → k ≢ j → get_from (remove k es) j ≡ get_from es j
unfolding get_from
get_from-remove k j [] h = refl
get_from-remove k j (e ∷ es) h =
    ground (arith, bytes_eq_iff e.key k, bytes_eq_iff e.key j, get_from-remove k j es h)

-- Row `i` is the first one, from row `start` on, whose key is absent.
pub record FirstGap (es : List Field) (key : ℕ → Bytes) (start n : ℕ) : Type 0 where
  pub bounded : n ≤ length es
  pub gap : get_from es (key (start + n)) ≡ none
  pub filled : (j : ℕ) → j < n → get_from es (key (start + j)) ≢ none

-- Keys that differ from index to index below a limit.
abbrev pub DiffersBelow : (ℕ → Bytes) → ℕ → Type 0
DiffersBelow key limit = (i j : ℕ) → i < limit → j < limit → key i ≡ key j → i ≡ j

pub first_gap :
    (fuel : ℕ) (es : List Field) (key : ℕ → Bytes) (start limit : ℕ)
    → length es < fuel
    → DiffersBelow key limit
    → start + fuel ≤ limit
    → (n : ℕ) × FirstGap es key start n
first_gap zero es key start limit h inj fits = absurd (omega arith)
first_gap (suc fuel) es key start limit h inj fits =
    go (get_from es (key start)) refl
      (λ es' lt. first_gap fuel es' key (suc start) limit lt inj (omega arith))
  where
    same : (j : ℕ) → suc start + j ≡ start + suc j
    same j = omega arith

    apart : (j : ℕ) → j < fuel → key start ≢ key (start + suc j)
    apart j lt e = let eq = inj start (start + suc j) (omega arith) (omega arith) e in omega arith

    kept :
        (j : ℕ)
        → j < fuel
        → get_from (remove (key start) es) (key (suc start + j)) ≡ get_from es (key (start + suc j))
    kept j lt = rw (same j) (get_from-remove (key start) (key (start + suc j)) es (apart j lt))

    later :
        (v : Bytes)
        → get_from es (key start) ≡ some v
        → (n : ℕ) × FirstGap (remove (key start) es) key (suc start) n
        → (n : ℕ) × FirstGap es key start n
    later v e (n, g) = (
      suc n,
      record {
        bounded = omega (arith, g.bounded, shorter);
        gap = sym (kept n below) ∙ g.gap;
        filled = filled;
      },
    )
      where
        found : get_from es (key start) ≢ none
        found absent = cc

        shorter : length (remove (key start) es) < length es
        shorter = length-remove_found (key start) es found

        below : n < fuel
        below = omega (arith, g.bounded, shorter)

        filled : (j : ℕ) → j < suc n → get_from es (key (start + j)) ≢ none
        filled zero lt absent = found (rw (add-zero start) at absent)
        filled (suc j) lt absent = g.filled j (omega arith) (kept j (omega (arith, below)) ∙ absent)

    go :
        (o : Option Bytes)
        → get_from es (key start) ≡ o
        → ((es' : List Field) → length es' < fuel → (n : ℕ) × FirstGap es' key (suc start) n)
        → (n : ℕ) × FirstGap es key start n
    go none e rest = (
      0,
      record {
        bounded = omega arith;
        gap = rw (add-zero start) e;
        filled = λ j lt. absurd (omega arith);
      },
    )
    go (some v) e rest = later v e (
        rest (remove (key start) es)
          (omega (arith, length-remove_found (key start) es (λ absent. cc))))

take-all : (n : ℕ) (xs : Bytes) → length xs ≤ n → take n xs ≡ xs
take-all zero [] h = refl
take-all zero (x ∷ xs) h = absurd (omega arith)
take-all (suc n) [] h = refl
take-all (suc n) (x ∷ xs) h = ap (◌∷◌ x) (take-all n xs (omega arith))

row_key-length :
    (prefix suffix : Bytes) (i : ℕ)
    → length (prefix ++ (b'.' ∷ (decimal (i % 2 ^ 32) ++ (b'.' ∷ suffix))))
      ≤ length prefix + length suffix + 12
row_key-length prefix suffix i = omega (
  arith,
  length-append prefix (b'.' ∷ (decimal (i % 2 ^ 32) ++ (b'.' ∷ suffix))),
  length-append (decimal (i % 2 ^ 32)) (b'.' ∷ suffix),
  length-decimal 10 (i % 2 ^ 32),
)

-- Where the buffer holds the whole key, different rows have different keys.
pub row_key-DiffersBelow :
    (size : ℕ) (prefix suffix : Bytes)
    → length prefix + length suffix + 13 ≤ size
    → DiffersBelow (λ i. row_key size prefix i suffix) (2 ^ 32)
row_key-DiffersBelow size prefix suffix h i j hi hj e =
    let d =
      append_cancel_right (decimal (i % 2 ^ 32)) (decimal (j % 2 ^ 32)) (b'.' ∷ suffix)
        (tail_eq (append_cancel_left prefix (body i) (body j) (sym (all i) ∙ e ∙ all j))) in
    omega (arith, decimal_inj (i % 2 ^ 32) (j % 2 ^ 32) d)
  where
    body : ℕ → Bytes
    body n = b'.' ∷ (decimal (n % 2 ^ 32) ++ (b'.' ∷ suffix))

    all : (n : ℕ) → row_key size prefix n suffix ≡ prefix ++ body n
    all n = take-all (size - 1) (prefix ++ body n) (omega (arith, row_key-length prefix suffix n))

    tail_eq :
        body i ≡ body j
        → decimal (i % 2 ^ 32) ++ (b'.' ∷ suffix) ≡ decimal (j % 2 ^ 32) ++ (b'.' ∷ suffix)
    tail_eq e = cc
