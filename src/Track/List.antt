-- ===== src/Track/List.antt =====
-- The track list of a document: it is complete and the scan ends.
use casquinha.Prelude.{
  List, ℕ, suc, ◌<◌, ◌≤◌, ◌^◌, Option, some, [], length, Bytes, codes, ◌≡◌, arith,
}
use casquinha.Alloc.{Memory, dup_or_null-plenty}
use casquinha.Codec
use casquinha.Codec.{Fields}
use casquinha.Rows.{row_key, no_rows}
use casquinha.Rows.Gap.{FirstGap, first_gap, row_key-DiffersBelow}
use casquinha.Rows.Scan.{scan-Ends, scan-Reads, rows}
use casquinha.Track.{TrackItem, TrackList, field_for, read_row, from_fields}

abbrev pub uri_key : ℕ → Bytes
uri_key i = row_key 64 (codes "item") i (codes "uri")

abbrev lead : Fields → ℕ → Option Bytes
lead f i = field_for f i (codes "uri")

-- The first index with no `uri`, which is at most the number of fields.
gap_of : (f : Fields) → length f.items < 2 ^ 32 → (n : ℕ) × FirstGap f.items uri_key 0 n
gap_of f h =
    first_gap (suc (length f.items)) f.items uri_key 0 (2 ^ 32) (omega arith)
      (row_key-DiffersBelow 64 (codes "item") (codes "uri") (omega arith)) (omega arith)

-- The scan ends whatever the document and whichever requests for memory fail, and yields no more
-- rows than there are fields: some row's `uri` is absent.
pub from_fields-total :
    (m : Memory) (f : Fields)
    → length f.items < 2 ^ 32
    → (r : TrackList × Memory) × (from_fields m f ≡ some r) × (length r.0.items ≤ length f.items)
unfolding from_fields field_for Codec.get
from_fields-total m f h =
    let (n, g) = gap_of f h in
    let (r, run, len) =
      scan-Ends (lead f) (read_row f) n (suc (length f.items)) m 0 no_rows
        (omega (arith, g.bounded)) g.gap in
    (r, run, omega (arith, len, g.bounded))

-- Row `i` of a document, as its fields give it.
abbrev pub row : Fields → ℕ → TrackItem
row f i = record {
  uri = field_for f i (codes "uri");
  track = field_for f i (codes "track");
  artist = field_for f i (codes "artist");
  album_id = field_for f i (codes "album_id");
  duration_ms = Codec.parse_ll (field_for f i (codes "duration_ms"));
}

read_row-plenty :
    (f : Fields) (i : ℕ) (uri : Bytes)
    → field_for f i (codes "uri") ≡ some uri
    → read_row f [] i uri ≡ (row f i, [])
unfolding read_row
read_row-plenty f i uri e = simp (dup_or_null-plenty, e)

abbrev pub rows_of : Fields → ℕ → List TrackItem
rows_of f n = rows (row f) 0 n

-- With memory at hand the list holds exactly the rows before the first index whose `uri` is absent,
-- in order, each with its fields as the document gives them; the length headers are not looked at.
pub from_fields-rows :
    (f : Fields)
    → length f.items < 2 ^ 32
    → (n : ℕ) × (r : TrackList) × FirstGap f.items uri_key 0 n
      × (from_fields [] f ≡ some (r, []))
      × (r.items ≡ rows_of f n)
unfolding from_fields field_for Codec.get
from_fields-rows f h =
    let (n, g) = gap_of f h in
    let (r, run, items) =
      scan-Reads (lead f) (read_row f) (row f) (read_row-plenty f) n (suc (length f.items)) 0
        no_rows (omega (arith, g.bounded)) g.filled g.gap in
    (n, r, g, run, items)
