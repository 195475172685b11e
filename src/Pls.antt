-- ===== src/Pls.antt =====
-- src/cq_pls.c: the stream URL of a playlist. A string is the list of its bytes before the NUL.
pub mod Choice
mod Tests
use casquinha.Prelude.{
  ℕ, ◌+◌, ◌-◌, ◌^◌, min, Bool, true, false, not, ◌&&◌, ◌||◌, Option, none, some, List, [], ◌∷◌,
  if◌then◌else◌, Bytes, codes, ltb, leb, ◌==◌, take, drop, length,
}
use casquinha.Prelude.Decimal.{value}
use casquinha.Alloc.{Memory, malloc}

-- `is_ws`
abbrev pub is_ws : ℕ → Bool
is_ws c = c == b' ' || c == 9 || c == 13 || c == 10 || c == 11 || c == 12

-- `lc`
abbrev pub lc : ℕ → ℕ
lc c = if leb b'A' c && leb c b'Z' then c - b'A' + b'a' else c

-- `starts_ci`
pub starts_ci : Bytes → Bytes → Bool
starts_ci s [] = true
starts_ci [] (p ∷ ps) = false
starts_ci (c ∷ cs) (p ∷ ps) = lc c == lc p && starts_ci cs ps

-- `all_digits`
abbrev pub all_digits : Bytes → Bool
all_digits [] = true
all_digits (c ∷ cs) = leb b'0' c && leb c b'9' && all_digits cs

abbrev pub put_front : ℕ → List Bytes → List Bytes
put_front c [] = (c ∷ []) ∷ []
put_front c (l ∷ ls) = (c ∷ l) ∷ ls

-- The lines of a text: each up to the next CR or LF, or the end.
pub lines : Bytes → List Bytes
lines [] = [] ∷ []
lines (c ∷ cs) = let rest = lines cs in if c == 13 || c == 10 then [] ∷ rest else put_front c rest

-- White space dropped at the front, at the end, and both within the bounded line buffer.
abbrev pub trim_front : Bytes → Bytes
trim_front [] = []
trim_front (c ∷ cs) = let rest = trim_front cs in if is_ws c then rest else c ∷ cs

abbrev pub trim_step : ℕ → Bytes → Bytes
trim_step c [] = if is_ws c then [] else c ∷ []
trim_step c (d ∷ ds) = c ∷ d ∷ ds

abbrev pub trim_end : Bytes → Bytes
trim_end [] = []
trim_end (c ∷ cs) = trim_step c (trim_end cs)

pub trim : Bytes → Bytes
trim l = take 1023 (trim_end (trim_front l))

abbrev pub push_key : ℕ → Option (Bytes × Bytes) → Option (Bytes × Bytes)
push_key c none = none
push_key c (some (key, val)) = some (c ∷ key, val)

-- `strchr(line, '=')`: what stands before the first one and after it.
abbrev pub split_eq : Bytes → Option (Bytes × Bytes)
split_eq [] = none
split_eq (c ∷ cs) = let rest = split_eq cs in if c == b'=' then some ([], cs) else push_key c rest

-- `strtol` of digits, which stops at LONG_MAX; no digits and 0 count as 1.
abbrev pub index_of : Bytes → ℕ
index_of [] = 1
index_of (c ∷ cs) = let idx = min (value 0 (c ∷ cs)) (2 ^ 31 - 1) in if idx == 0 then 1 else idx

abbrev pub entry_of : Option (Bytes × Bytes) → Option (ℕ × Bytes)
entry_of none = none
entry_of (some (key, val)) =
    if leb 4 (length key) && all_digits (drop 4 key)
    then some (index_of (drop 4 key), trim_front val)
    else none

-- A line `File<n>=value`: its index and its value.
pub file_entry : Bytes → Option (ℕ × Bytes)
file_entry line = if starts_ci line (codes "file") then entry_of (split_eq line) else none

-- A bare URL that is not a comment.
abbrev pub is_comment : Bytes → Bool
is_comment [] = false
is_comment (c ∷ cs) = c == b'#'

pub is_bare : Bytes → Bool
is_bare line =
    not (is_comment line) && (starts_ci line (codes "http://") || starts_ci line (codes "https://"))

-- The locals of `cq_pls_first_url`: `best_pls` with `best_idx`, and `first_bare`.
pub record Found : Type 0 where
  pub best : Option (ℕ × Bytes)
  pub bare : Option Bytes

-- The index beats the best so far.
abbrev pub beats : ℕ → Option (ℕ × Bytes) → Bool
beats idx none = true
beats idx (some (i, v)) = ltb idx i

abbrev pub is_empty : Bytes → Bool
is_empty [] = true
is_empty (c ∷ cs) = false

-- A file entry replaces the best when a copy of its value is granted.
pub offer : Memory → Found → ℕ → Bytes → Found × Memory
offer m s idx val =
    if not (is_empty val) && beats idx s.best
    then (let (granted, m') = malloc m in
        (if granted then record s { best = some (idx, val) } else s, m'))
    else (s, m)

pub offer_bare : Memory → Found → Bytes → Found × Memory
offer_bare m s line = elim s.bare [
  | some url ↦ (s, m)
  | none ↦
      let (granted, m') = malloc m in (if granted then record s { bare = some line } else s, m')
]

-- One trimmed line.
pub step : Memory → Found → Bytes → Found × Memory
step m s line = elim (file_entry line) [
  | some (idx, val) ↦ offer m s idx val
  | none ↦ if is_bare line then offer_bare m s line else (s, m)
]

-- The loop over the lines.
pub scan : Memory → Found → List Bytes → Found × Memory
scan m s [] = (s, m)
scan m s (l ∷ ls) = let (s', m') = step m s (trim l) in scan m' s' ls

abbrev pub url_of : Found → Option Bytes
url_of s = elim s.best [ some (idx, url) ↦ some url | none ↦ s.bare ]

-- `cq_pls_first_url`
pub first_url : Memory → Bytes → Option Bytes × Memory
first_url m text =
    let (s, m') = scan m (record { best = none; bare = none }) (lines text) in (url_of s, m')
