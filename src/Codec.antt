-- ===== src/Codec.antt =====
-- src/cq_codec.c: the tolerant tab-separated document codec. A `char *` that the source owns is the
-- C string in it, without its NUL; a buffer with a length is the list of its bytes, and a pointer
-- into it is the rest of the list from there. A NULL buffer is the empty one: both return at once.
pub mod Lookup
pub mod Parse
pub mod Number
pub mod Document
mod Tests
use casquinha.Prelude.{
  ℕ, zero, suc, ◌+◌, ◌-◌, ◌*◌, ◌%◌, ◌^◌, Bool, true, false, not, ◌&&◌, ◌||◌, Option, none, some,
  List, [], ◌∷◌, ◌++◌, ◌==◌, if◌then◌else◌, ltb, leb, length, get_or, take, Bytes, bytes_eq,
}
use casquinha.Prelude.Int.{ℤ, pos, signed64, wrap64, ◌-ℤ◌}
use casquinha.Alloc.{Memory, malloc}

-- `cq_field`
pub record Field : Type 0 where
  pub key : Bytes
  pub value : Bytes

-- `cq_fields`: `count` is the length of `items`, and `cap` the elements allocated.
pub record Fields : Type 0 where
  pub items : List Field
  pub cap : ℕ

-- `cq_fields_init`
unfoldable pub init : Fields
init = record { items = []; cap = 0 }

-- `cq_fields_free`
pub free : Fields → Fields
free f = record { items = []; cap = 0 }

-- The C string that starts a range: an embedded NUL ends it.
abbrev pub c_string : Bytes → Bytes
c_string [] = []
c_string (c ∷ cs) = if c == 0 then [] else c ∷ c_string cs

-- `dup_range`
unfoldable pub dup_range : Memory → Bytes → Option Bytes × Memory
dup_range m p =
    let (granted, m') = malloc m in if granted then (some (c_string p), m') else (none, m')

-- The test of the scan in `fields_put`, over all the fields: some stored key has the length and the
-- bytes of the range `k`.
unfoldable pub has_key : List Field → Bytes → Bool
has_key [] k = false
has_key (e ∷ es) k = if bytes_eq e.key k then true else has_key es k

-- The first such field takes the new value.
unfoldable pub overwrite : List Field → Bytes → Bytes → List Field
overwrite [] k vc = []
overwrite (e ∷ es) k vc =
    if bytes_eq e.key k then record e { value = vc } ∷ es else e ∷ overwrite es k vc

-- The growth of `items` before an append; `none` if the `realloc` fails.
unfoldable pub grow : Memory → Fields → Option Fields × Memory
grow m f =
    let ncap = if f.cap == 0 then 8 else f.cap * 2 in
    let (granted, m') = malloc m in
    if length f.items == f.cap
    then (if granted then (some (record f { cap = ncap }), m') else (none, m'))
    else (some f, m)

-- Both copies are asked for before either is looked at.
unfoldable pub append_field : Memory → Fields → Bytes → Bytes → Fields × Memory
append_field m f k v =
    let (kc, m₁) = dup_range m k in
    let (vc, m₂) = dup_range m₁ v in
    elim kc [
      | none ↦ (f, m₂)
      | some key ↦ elim vc [
        | none ↦ (f, m₂)
        | some value ↦
            (record f { items = f.items ++ record { key = key; value = value } ∷ [] }, m₂)
      ]
    ]

-- `fields_put`
unfoldable pub fields_put : Memory → Fields → Bytes → Bytes → Fields × Memory
fields_put m f k v =
    if has_key f.items k
    then (let (vc, m') = dup_range m v in
        elim vc [
          | none ↦ (f, m')
          | some value ↦ (record f { items = overwrite f.items k value }, m')
        ])
    else (let (grown, m') = grow m f in
        elim grown [ none ↦ (f, m') | some f' ↦ append_field m' f' k v ])

-- The line at the start of a buffer, and what follows its LF; `none` where the buffer ends it.
unfoldable pub take_line : Bytes → Bytes × Option Bytes
take_line [] = ([], none)
take_line (c ∷ cs) =
    let (line, rest) = take_line cs in if c == b'\n' then ([], some cs) else (c ∷ line, rest)

-- Strip exactly one trailing CR.
unfoldable pub strip_cr : Bytes → Bytes
strip_cr line =
    if ltb 0 (length line) && get_or line (length line - 1) 0 == b'\r'
    then take (length line - 1) line
    else line

-- The bytes before and after the first TAB.
unfoldable pub split_tab : Bytes → Option (Bytes × Bytes)
split_tab [] = none
split_tab (c ∷ cs) =
    let rest = split_tab cs in
    if c == b'\t' then some ([], cs) else elim rest [ none ↦ none | some (k, v) ↦ some (c ∷ k, v) ]

-- One line of the document: `found_tab && tab > 0` guards the put.
unfoldable pub put_line : Memory → Fields → Bytes → Fields × Memory
put_line m f line = elim (split_tab (strip_cr line)) [
  | none ↦ (f, m)
  | some (k, v) ↦ if ltb 0 (length k) then fields_put m f k v else (f, m)
]

-- The `while` loop, on fuel for its rounds.
unfoldable pub parse_lines : ℕ → Memory → Fields → Bytes → Fields × Memory
parse_lines zero m f data' = (f, m)
parse_lines (suc n) m f data' =
    let (line, rest) = take_line data' in
    let (f', m') = put_line m f line in
    elim rest [ none ↦ (f', m') | some r ↦ parse_lines n m' f' r ]

-- `cq_fields_parse`
unfoldable pub parse : Memory → Fields → Bytes → Fields × Memory
parse m f data' = if length data' == 0 then (f, m) else parse_lines (suc (length data')) m f data'

-- The scan of `cq_fields_get`.
unfoldable pub get_from : List Field → Bytes → Option Bytes
get_from [] key = none
get_from (e ∷ es) key = if bytes_eq e.key key then some e.value else get_from es key

-- `cq_fields_get`
unfoldable pub get : Fields → Bytes → Option Bytes
unfolding get_from
get f key = get_from f.items key

-- `cq_data_is_jpeg`
pub data_is_jpeg : Bytes → Bool
data_is_jpeg bytes = leb 2 (length bytes) && get_or bytes 0 0 == 0xff && get_or bytes 1 0 == 0xd8

-- Whitespace as `cq_parse_ll` skips it.
unfoldable pub is_space : ℕ → Bool
is_space c = c == b' ' || c == b'\t' || c == b'\n' || c == b'\r' || c == 11 || c == 12

unfoldable pub skip_spaces : Bytes → Bytes
skip_spaces [] = []
skip_spaces (c ∷ cs) = if is_space c then skip_spaces cs else c ∷ cs

unfoldable pub is_digit : ℕ → Bool
is_digit c = leb b'0' c && leb c b'9'

-- The digit loop on the 64-bit pattern of `v`, which wraps (signed overflow is undefined in C).
unfoldable pub digits_from : ℕ → Bytes → ℕ
digits_from v [] = v
digits_from v (c ∷ cs) =
    let rest = digits_from ((v * 10 + (c - b'0')) % 2 ^ 64) cs in if is_digit c then rest else v

unfoldable pub parse_sign : Bytes → Bool × Bytes
parse_sign [] = (false, [])
parse_sign (c ∷ cs) = if c == b'+' || c == b'-' then (c == b'-', cs) else (false, c ∷ cs)

-- `cq_parse_ll`; NULL is `none`.
unfoldable pub parse_ll : Option Bytes → ℤ
parse_ll none = pos 0
parse_ll (some s) =
    let (neg, t) = parse_sign (skip_spaces s) in
    let v = signed64 (digits_from 0 t) in if neg then wrap64 (pos 0 -ℤ v) else v
