-- ===== src/Ot/Quads.antt =====
-- `parse_dotted_quad` reads back printed addresses.
use casquinha.Ot.Address.{dot, parse_dotted_quad, part_from, part}
use casquinha.Prelude.{
  length-append, ◌==◌, ◌≢◌, ◌-◌, ◌*◌, arith, ◌^◌, length, ◌&&◌, ◌<◌, ◌%◌, leb, Bytes, ◌++◌, ◌+◌,
  ◌≡◌, ◌∷◌, refl, false, [], some, ℕ,
}
use casquinha.Prelude.Decimal.{
  decimal, AllDigits, value, decimal-digits, value-decimal, decimal-ne-nil,
}

-- What follows a part: nothing, or a byte that is no digit.
abbrev StopsPart : Bytes → Type 0
StopsPart [] = Unit
StopsPart (c ∷ cs) = (leb b'0' c && leb c b'9') ≡ false

part_from-value :
    (v : ℕ) (ds rest : Bytes)
    → AllDigits ds
    → StopsPart rest
    → part_from (v % 2 ^ 32) (ds ++ rest) ≡ (value v ds % 2 ^ 32, rest)
unfolding part_from
part_from-value v [] [] d s = refl
part_from-value v [] (c ∷ rest) d s = rw s refl
part_from-value v (c ∷ ds) rest d s =
    ground (arith, part_from-value (v * 10 + (c - b'0')) ds rest d.2 s)

longer : (ds rest : Bytes) → ds ≢ [] → (length rest == length (ds ++ rest)) ≡ false
longer [] rest e = absurd (e refl)
longer (c ∷ ds) rest e = ground (arith, length-append ds rest)

part-decimal :
    (n : ℕ) (rest : Bytes) → n < 256 → StopsPart rest → part (decimal n ++ rest) ≡ some (n, rest)
unfolding part
part-decimal n rest h s =
    let run : part_from 0 (decimal n ++ rest) ≡ (n, rest) =
      ground (arith, part_from-value 0 (decimal n) rest (decimal-digits n) s, value-decimal n) in
    rw (run, longer (decimal n) rest (decimal-ne-nil n), part) (ground arith)

abbrev pub print_quad : ℕ → ℕ → ℕ → ℕ → Bytes
print_quad a b c d =
    decimal a ++ b'.' ∷ (decimal b ++ b'.' ∷ (decimal c ++ b'.' ∷ (decimal d ++ [])))

-- Four numbers below 256, printed with dots between them, are read back as the address of 32 bits
-- that has them as its bytes, the first one highest.
pub parse_dotted_quad-print :
    (a b c d : ℕ)
    → a < 256
    → b < 256
    → c < 256
    → d < 256
    → parse_dotted_quad (print_quad a b c d) ≡ some (a * 2 ^ 24 + b * 2 ^ 16 + c * 2 ^ 8 + d)
unfolding parse_dotted_quad dot
parse_dotted_quad-print a b c d ha hb hc hd =
    rw
      (
        part-decimal a (b'.' ∷ (decimal b ++ b'.' ∷ (decimal c ++ b'.' ∷ (decimal d ++ [])))) ha
            refl,
        parse_dotted_quad,
      )
      (rw (part-decimal b (b'.' ∷ (decimal c ++ b'.' ∷ (decimal d ++ []))) hb refl) (
        rw (part-decimal c (b'.' ∷ (decimal d ++ [])) hc refl) (rw (part-decimal d [] hd tt) refl)))
