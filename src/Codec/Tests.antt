-- ===== src/Codec/Tests.antt =====
-- Runs of the codec.
use casquinha.Prelude.{true, false, none, some, List, [], ◌∷◌, ◌++◌, ◌≡◌, refl, arith, codes, Bytes}
use casquinha.Prelude.Int.{pos, negsuc, ◌-ℤ◌, sub_ℕ}
use casquinha.Prelude.Decimal.{decimal}
use casquinha.Codec.{
  Fields, init, fields_put, parse, parse_lines, take_line, strip_cr, split_tab, put_line, has_key,
  overwrite, grow, append_field, dup_range, get, parse_ll, skip_spaces, is_space, parse_sign,
  digits_from, is_digit,
}
use casquinha.Codec.Number.{parse_ll-decimal}
use casquinha.Codec.Document.{crlf, AllPairs, render, get-parse-render}

-- A truncated document: a repeated key, a line with no TAB, one with no key, and no final LF.
abbrev doc : Bytes
doc = codes "state\tplaying\r\n.\n\tjunk\nts\t5\nts\t1\t2\nvol"

abbrev fresh : Fields
fresh = record { items = []; cap = 0 }

parse-doc : (parse [] fresh doc).0 ≡ record {
  items =
      record { key = codes "state"; value = codes "playing" }
      ∷ record { key = codes "ts"; value = codes "1\t2" }
      ∷ [];
  cap = 8;
}
unfolding parse parse_lines take_line strip_cr split_tab put_line fields_put has_key overwrite grow
    append_field dup_range
parse-doc = refl

-- The second request for memory fails: the first field is lost, and the rest stands.
parse-no_memory :
    (parse (true ∷ false ∷ []) fresh (codes "a\t1\nb\t2")).0.items
    ≡ record { key = codes "b"; value = codes "2" } ∷ []
unfolding parse parse_lines take_line strip_cr split_tab put_line fields_put has_key overwrite grow
    append_field dup_range
parse-no_memory = refl

numbers :
    (parse_ll (some (codes "  -42x")) ≡ negsuc 41)
    × (parse_ll none ≡ pos 0)
    × (parse_ll (some (codes "+ 7")) ≡ pos 0)
unfolding parse_ll skip_spaces is_space parse_sign digits_from is_digit ◌-ℤ◌
numbers = (refl, refl, refl)

parse_ll-decimal_example :
    (parse_ll (some (codes "  " ++ (decimal 42 ++ codes " ms"))) ≡ pos 42)
    × (parse_ll (some (codes "  " ++ (b'-' ∷ (decimal 42 ++ codes " ms")))) ≡ sub_ℕ 0 42)
unfolding is_space is_digit
parse_ll-decimal_example =
    parse_ll-decimal (codes "  ") (codes " ms") 42 (refl, (refl, tt)) refl (omega arith)

abbrev pairs : List (Bytes × Bytes)
pairs =
    (codes "state", codes "playing")
    ∷ (codes "ts", codes "5")
    ∷ (codes "state", codes "paused")
    ∷ []

pairs-AllPairs : AllPairs pairs
pairs-AllPairs = ground arith

get-parse-render_example :
    get (parse [] init (render crlf pairs)).0 (codes "state") ≡ some (codes "paused")
get-parse-render_example = get-parse-render crlf pairs (codes "state") pairs-AllPairs
