-- ===== src/Codec/Number.antt =====
-- `cq_parse_ll` reads back printed integers.
use casquinha.Prelude.{
  ℕ, ◌+◌, ◌-◌, ◌*◌, ◌%◌, ◌^◌, ◌<◌, ◌≤◌, true, false, some, [], ◌∷◌, ◌++◌, Bytes, ◌≡◌, refl, arith,
}
use casquinha.Prelude.Int.{pos, sub_ℕ, signed64, ◌-ℤ◌}
use casquinha.Prelude.Decimal.{
  decimal, AllDigits, value, decimal-digits, value-decimal, decimal-ne-nil,
}
use casquinha.Codec.{is_space, skip_spaces, is_digit, digits_from, parse_sign, parse_ll}

-- What follows a number: nothing, or a byte that is no digit.
abbrev pub StopsDigits : Bytes → Type 0
StopsDigits [] = Unit
StopsDigits (c ∷ cs) = is_digit c ≡ false

abbrev pub AllSpaces : Bytes → Type 0
AllSpaces [] = Unit
AllSpaces (c ∷ cs) = (is_space c ≡ true) × AllSpaces cs

digits_from-value :
    (v : ℕ) (ds rest : Bytes)
    → AllDigits ds
    → StopsDigits rest
    → digits_from (v % 2 ^ 64) (ds ++ rest) ≡ value v ds % 2 ^ 64
unfolding digits_from is_digit
digits_from-value v [] [] d s = refl
digits_from-value v [] (c ∷ rest) d s = ground arith
digits_from-value v (c ∷ ds) rest d s =
    ground (arith, digits_from-value (v * 10 + (c - b'0')) ds rest d.2 s)

skip_spaces-append : (sp t : Bytes) → AllSpaces sp → skip_spaces (sp ++ t) ≡ skip_spaces t
unfolding skip_spaces
skip_spaces-append [] t h = refl
skip_spaces-append (c ∷ sp) t h = ground (arith, skip_spaces-append sp t h.1)

digits_start :
    (c : ℕ) (cs : Bytes)
    → b'0' ≤ c
    → c ≤ b'9'
    → (skip_spaces (c ∷ cs) ≡ c ∷ cs) × (parse_sign (c ∷ cs) ≡ (false, c ∷ cs))
unfolding skip_spaces is_space parse_sign
digits_start c cs lo hi = (ground arith, ground arith)

minus_start :
    (t : Bytes) → (skip_spaces (b'-' ∷ t) ≡ b'-' ∷ t) × (parse_sign (b'-' ∷ t) ≡ (true, t))
unfolding skip_spaces is_space parse_sign
minus_start t = (refl, refl)

digits_run :
    (n : ℕ) (rest : Bytes)
    → n < 2 ^ 63
    → StopsDigits rest
    → signed64 (digits_from 0 (decimal n ++ rest)) ≡ pos n
digits_run n rest h s =
    ground (arith, digits_from-value 0 (decimal n) rest (decimal-digits n) s, value-decimal n)

-- A number that fits `long long` is read back from its decimal digits, behind any whitespace, with
-- or without a minus sign, up to the first byte that is no digit.
pub parse_ll-decimal :
    (sp rest : Bytes) (n : ℕ)
    → AllSpaces sp
    → StopsDigits rest
    → n < 2 ^ 63
    → (parse_ll (some (sp ++ (decimal n ++ rest))) ≡ pos n)
      × (parse_ll (some (sp ++ (b'-' ∷ (decimal n ++ rest)))) ≡ sub_ℕ 0 n)
unfolding parse_ll ◌-ℤ◌
parse_ll-decimal sp rest n hsp hrest hn = (plain (decimal n) refl (decimal-digits n), negative)
  where
    run : signed64 (digits_from 0 (decimal n ++ rest)) ≡ pos n
    run = digits_run n rest hn hrest

    plain :
        (ds : Bytes)
        → decimal n ≡ ds
        → AllDigits ds
        → parse_ll (some (sp ++ (decimal n ++ rest))) ≡ pos n
    plain [] e d = absurd (decimal-ne-nil n e)
    plain (c ∷ cs) e d = ground (
      arith,
      e,
      run,
      skip_spaces-append sp (decimal n ++ rest) hsp,
      digits_start c (cs ++ rest) d.0 d.1,
    )

    negative : parse_ll (some (sp ++ (b'-' ∷ (decimal n ++ rest)))) ≡ sub_ℕ 0 n
    negative = ground (
      arith,
      run,
      skip_spaces-append sp (b'-' ∷ (decimal n ++ rest)) hsp,
      minus_start (decimal n ++ rest),
    )
