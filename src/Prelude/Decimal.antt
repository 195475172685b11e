-- ===== src/Prelude/Decimal.antt =====
-- Decimal notation: what `%lu` prints of a number, and the value that digits stand for.
use casquinha.Prelude.Int.{ℤ, pos, negsuc}
use casquinha.Prelude.Tests.{Bytes, if◌then◌else◌, ltb}
use Prim.Native.Nat.{ℕ, zero, suc, ◌+◌, ◌-◌, ◌*◌, ◌/◌, ◌%◌, ◌^◌, ◌<◌, ◌≤◌}
use mathlib.Core.Logic.{◌≢◌}
use mathlib.Core.Path.{◌≡◌, refl, ap, sym, ◌∙◌}
use mathlib.Core.List.{[], ◌∷◌, ◌++◌}
use native.Mathlib.Nat.{pow-suc}
use native.Mathlib.Omega.{arith}
use casquinha.Prelude.Lists.{length, length-append}

-- The digits of `n`, most significant first, on fuel for their number.
abbrev pub decimal_fuel : ℕ → ℕ → Bytes
decimal_fuel zero n = []
decimal_fuel (suc f) n =
    let front = decimal_fuel f (n / 10) in
    if ltb n 10 then (b'0' + n) ∷ [] else front ++ (b'0' + n % 10) ∷ []

-- A number has fewer digits than `n + 1`.
unfoldable pub decimal : ℕ → Bytes
decimal n = decimal_fuel (suc n) n

-- `%d` of `printf`
unfoldable pub print_int : ℤ → Bytes
print_int (pos n) = decimal n
print_int (negsuc n) = b'-' ∷ decimal (n + 1)

abbrev pub AllDigits : Bytes → Type 0
AllDigits [] = Unit
AllDigits (c ∷ cs) = (b'0' ≤ c) × (c ≤ b'9') × AllDigits cs

abbrev pub value : ℕ → Bytes → ℕ
value v [] = v
value v (c ∷ cs) = value (v * 10 + (c - b'0')) cs

AllDigits-snoc : (xs : Bytes) (d : ℕ) → AllDigits xs → d < 10 → AllDigits (xs ++ (b'0' + d) ∷ [])
AllDigits-snoc [] d h lt = omega arith
AllDigits-snoc (x ∷ xs) d h lt = (h.0, h.1, AllDigits-snoc xs d h.2 lt)

value-snoc : (v : ℕ) (xs : Bytes) (c : ℕ) → value v (xs ++ c ∷ []) ≡ value v xs * 10 + (c - b'0')
value-snoc v [] c = refl
value-snoc v (x ∷ xs) c = value-snoc (v * 10 + (x - b'0')) xs c

decimal_fuel-digits : (f n : ℕ) → n < f → AllDigits (decimal_fuel f n)
decimal_fuel-digits zero n h = absurd (omega arith)
decimal_fuel-digits (suc f) n h =
    ground
      (arith, decimal_fuel-digits f (n / 10), AllDigits-snoc (decimal_fuel f (n / 10)) (n % 10))

decimal_fuel-value : (f n : ℕ) → n < f → value 0 (decimal_fuel f n) ≡ n
decimal_fuel-value zero n h = absurd (omega arith)
decimal_fuel-value (suc f) n h =
    ground
      (arith, decimal_fuel-value f (n / 10), value-snoc 0 (decimal_fuel f (n / 10)) (b'0' + n % 10))

pub decimal-digits : (n : ℕ) → AllDigits (decimal n)
unfolding decimal
decimal-digits n = decimal_fuel-digits (suc n) n (omega arith)

pub value-decimal : (n : ℕ) → value 0 (decimal n) ≡ n
unfolding decimal
value-decimal n = decimal_fuel-value (suc n) n (omega arith)

-- Different numbers are printed differently.
pub decimal_inj : (a b : ℕ) → decimal a ≡ decimal b → a ≡ b
decimal_inj a b e = sym (value-decimal a) ∙ ap (value 0) e ∙ value-decimal b

snoc-ne-nil : (xs : Bytes) (c : ℕ) → xs ++ c ∷ [] ≢ []
snoc-ne-nil [] c e = cc
snoc-ne-nil (x ∷ xs) c e = cc

pub decimal-ne-nil : (n : ℕ) → decimal n ≢ []
unfolding decimal
decimal-ne-nil n = ground (arith, snoc-ne-nil (decimal_fuel n (n / 10)) (b'0' + n % 10))

length-snoc : (xs : Bytes) (c : ℕ) → length (xs ++ c ∷ []) ≡ suc (length xs)
length-snoc xs c = omega (arith, length-append xs (c ∷ []))

decimal_fuel-length : (f k n : ℕ) → n < f → n < 10 ^ suc k → length (decimal_fuel f n) ≤ suc k
decimal_fuel-length zero k n h b = absurd (omega arith)
decimal_fuel-length (suc f) zero n h b = ground arith
decimal_fuel-length (suc f) (suc k) n h b = ground (
  arith,
  decimal_fuel-length f k (n / 10),
  length-snoc (decimal_fuel f (n / 10)) (b'0' + n % 10),
  smaller,
)
  where
    smaller : n / 10 < 10 ^ suc k
    smaller = omega (arith, pow-suc 10 (suc k))

-- A number below 10 ^ k has at most `k` digits.
pub length-decimal : (k n : ℕ) → 0 < k → n < 10 ^ k → length (decimal n) ≤ k
unfolding decimal
length-decimal zero n p h = absurd (omega arith)
length-decimal (suc k) n p h = decimal_fuel-length (suc n) k n (omega arith) h
