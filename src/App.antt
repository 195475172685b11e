-- ===== src/App.antt =====
-- os9/casquinha.c: the pure helpers of the application, and src/cq_mp3dec.c, the guarded call of the
-- decoder. The globals that a helper reads are its arguments.
pub mod Fits
pub mod Scene
mod Tests
use casquinha.Prelude.{
  ℕ, zero, suc, ◌+◌, ◌-◌, ◌*◌, ◌/◌, ◌%◌, Bool, true, false, not, ◌&&◌, ◌||◌, Option, none, some,
  List, [], ◌∷◌, ◌++◌, if◌then◌else◌, Bytes, bytes_eq, codes, ltb, leb, ◌==◌, length, get_or, take,
  drop,
}
use casquinha.Prelude.Int.{ℤ, pos, negsuc, sub_ℕ, pos_part, ltb_ℤ, wrap32}
use casquinha.Prelude.Decimal.{decimal, value}
use casquinha.DecRing.{Decoded}
use casquinha.Track.{TrackItem}

abbrev pub is_safe : Bool → ℕ → Bool
is_safe keep_colon c =
    leb b'A' c && leb c b'Z'
    || leb b'a' c && leb c b'z'
    || leb b'0' c && leb c b'9'
    || c == b'-'
    || c == b'_'
    || c == b'.'
    || c == b'~'
    || keep_colon && c == b':'

abbrev pub hex : ℕ → ℕ
hex d = get_or (codes "0123456789ABCDEF") d 0

-- The loop of `EscInto` with `o` bytes written.
unfoldable pub esc_from : ℕ → Bool → ℕ → Bytes → Bytes
esc_from max keep_colon o [] = []
esc_from max keep_colon o (c ∷ cs) =
    let one = esc_from max keep_colon (o + 1) cs in
    let three = esc_from max keep_colon (o + 3) cs in
    if not (ltb (o + 3) max)
    then []
    else if is_safe keep_colon c
    then c ∷ one
    else b'%' ∷ hex (c / 16) ∷ hex (c % 16) ∷ three

-- `EscInto`
unfoldable pub esc_into : Bytes → ℕ → Bool → Bytes
esc_into s max keep_colon = esc_from max keep_colon 0 s

-- `strchr`: the bytes before the first `c`, and those from it on.
pub find_char : ℕ → Bytes → Option (Bytes × Bytes)
find_char c [] = none
find_char c (d ∷ ds) =
    let rest = find_char c ds in
    if d == c
    then some ([], d ∷ ds)
    else elim rest [ none ↦ none | some (before, at) ↦ some (d ∷ before, at) ]

-- `atoi`: the decimal number at the start of a string; its overflow is undefined in C.
pub leading_digits : Bytes → Bytes
leading_digits [] = []
leading_digits (c ∷ cs) =
    let rest = leading_digits cs in if leb b'0' c && leb c b'9' then c ∷ rest else []

pub atoi_sign : Bytes → ℤ
atoi_sign [] = pos 0
atoi_sign (c ∷ cs) =
    if c == b'-'
    then sub_ℕ 0 (value 0 (leading_digits cs))
    else if c == b'+'
    then pos (value 0 (leading_digits cs))
    else pos (value 0 (leading_digits (c ∷ cs)))

pub atoi : Bytes → ℤ
atoi [] = pos 0
atoi (c ∷ cs) =
    let rest = atoi cs in
    if c == b' ' || leb 9 c && leb c 13 then rest else wrap32 (atoi_sign (c ∷ cs))

-- `strncmp(url, prefix, n) == 0` and what follows the prefix.
pub after_prefix : Bytes → Bytes → Option Bytes
after_prefix [] s = some s
after_prefix (p ∷ ps) [] = none
after_prefix (p ∷ ps) (c ∷ cs) = let rest = after_prefix ps cs in if c == p then rest else none

-- The host and the port before the path: a colon counts before the first slash only.
pub host_port : Bytes → Bytes × ℤ
host_port authority = elim (find_char b':' authority) [
  | none ↦ (authority, pos 80)
  | some (host, colon) ↦ (host, atoi (drop 1 colon))
]

-- `ParseHttpUrl`: host, port and path, when they fit their buffers.
pub parse_http_url : Bytes → ℕ → ℕ → Option (Bytes × ℤ × Bytes)
parse_http_url url hcap pcap = elim (after_prefix (codes "http://") url) [
  | none ↦ none
  | some p ↦ elim (find_char b'/' p) [
    | none ↦ none
    | some (authority, path) ↦
        let (host, port) = host_port authority in
        if length host == 0 || leb hcap (length host) || leb pcap (length path)
        then none
        else if ltb_ℤ port (pos 1) || not (ltb_ℤ port (pos 65536))
        then none
        else some (host, port, path)
  ]
]

-- `cq_row_kind`, with the index into the row's own list.
pub data RowKind : Type 0 where
  no_row back : RowKind
  artist album track : ℕ → RowKind

-- `ResultKindAt`: the rows of the search, or of an artist's albums below the way back.
pub result_kind_at : Bool → ℕ → ℕ → ℕ → ℕ → ℤ → RowKind
result_kind_at browse artist_albums artists albums tracks (negsuc n) = no_row
result_kind_at true artist_albums artists albums tracks (pos zero) = back
result_kind_at true artist_albums artists albums tracks (pos (suc r)) =
    if ltb r artist_albums then album r else no_row
result_kind_at false artist_albums artists albums tracks (pos r) =
    if ltb r artists
    then artist r
    else if ltb (r - artists) albums
    then album (r - artists)
    else if ltb (r - artists - albums) tracks
    then track (r - artists - albums)
    else no_row

-- What follows the last colon: `strrchr(u, ':') + 1`.
unfoldable pub after_colon : Bytes → Option Bytes
after_colon [] = none
after_colon (c ∷ cs) = elim (after_colon cs) [
  | some id ↦ some id
  | none ↦ if c == b':' then some cs else none
]

unfoldable pub is_track : Option Bytes → Bytes → Bool
is_track none id = false
is_track (some u) id = elim (after_colon u) [ none ↦ false | some t ↦ bytes_eq t id ]

-- The loop of `QueueNextRow` from row `i` on.
unfoldable pub next_row_from : ℕ → List TrackItem → Bytes → ℤ
next_row_from i [] id = pos 0
next_row_from i (x ∷ xs) id =
    let later = next_row_from (i + 1) xs id in
    if is_track x.uri id then (if ltb 0 (length xs) then pos (i + 1) else negsuc 0) else later

-- `QueueNextRow`
unfoldable pub queue_next_row : List TrackItem → Option Bytes → ℤ
queue_next_row [] id = negsuc 0
queue_next_row (x ∷ xs) none = pos 0
queue_next_row (x ∷ xs) (some id) = next_row_from 0 (x ∷ xs) id

-- `FmtTime` of a time that is not negative: minutes and two digits of seconds, in 16 bytes.
pub fmt_time : ℕ → Bytes
fmt_time ms =
    let s = ms / 1000 in
    take 15 (decimal (s / 60) ++ b':' ∷ (b'0' + s % 60 / 10) ∷ (b'0' + s % 60 % 10) ∷ [])

-- `cq_mp3dec_frame` around a call of the decoder on a buffer that is not empty.
pub mp3dec_frame : {W : Type 0} → (W → Bytes → Decoded × W) → W → Bytes → Decoded × W
mp3dec_frame decode w buf =
    let nothing : Decoded = record {
      samples = pos 0;
      channels = 0;
      consumed = pos 0;
      sound = [];
    } in
    if length buf == 0 then (nothing, w) else decode w buf
