-- ===== src/RefList/List.antt =====
-- The reference list of a document: it is complete and the scan ends, for prefixes that fit the key
-- buffer.
use casquinha.Prelude.{ℕ, suc, ◌<◌, ◌≤◌, ◌^◌, Option, some, [], length, Bytes, codes, ◌≡◌, arith}
use casquinha.Alloc.{Memory, dup_or_null-plenty}
use casquinha.Codec
use casquinha.Codec.{Fields}
use casquinha.Rows.{row_key, no_rows}
use casquinha.Rows.Gap.{FirstGap, first_gap, row_key-DiffersBelow}
use casquinha.Rows.Scan.{scan-Ends, scan-Reads, rows}
use casquinha.RefList.{RefItem, RefList, field_for, read_row, from_fields}

module _ (prefix : Bytes) where
  abbrev pub id_key : ℕ → Bytes
  id_key i = row_key 80 prefix i (codes "id")

  abbrev lead : Fields → ℕ → Option Bytes
  lead f i = field_for f prefix i (codes "id")

  gap_of :
      (f : Fields)
      → length prefix ≤ 65
      → length f.items < 2 ^ 32
      → (n : ℕ) × FirstGap f.items id_key 0 n
  gap_of f p h =
      first_gap (suc (length f.items)) f.items id_key 0 (2 ^ 32) (omega arith)
        (row_key-DiffersBelow 80 prefix (codes "id") (omega arith)) (omega arith)

  -- For a prefix of at most 65 bytes the scan ends whatever the document and whichever requests for
  -- memory fail, and yields no more rows than there are fields.
  pub from_fields_ids-total :
      (m : Memory) (f : Fields)
      → length prefix ≤ 65
      → length f.items < 2 ^ 32
      → (r : RefList × Memory) × (from_fields m f prefix ≡ some r)
        × (length r.0.items ≤ length f.items)
  unfolding from_fields field_for Codec.get
  from_fields_ids-total m f p h =
      let (n, g) = gap_of f p h in
      let (r, run, len) =
        scan-Ends (lead f) (read_row f prefix) n (suc (length f.items)) m 0 no_rows
          (omega (arith, g.bounded)) g.gap in
      (r, run, omega (arith, len, g.bounded))

  -- Row `i` of a document, as its fields give it.
  abbrev pub row : Fields → ℕ → RefItem
  row f i = record {
    id = field_for f prefix i (codes "id");
    name = field_for f prefix i (codes "name");
  }

  read_row-plenty :
      (f : Fields) (i : ℕ) (id : Bytes)
      → field_for f prefix i (codes "id") ≡ some id
      → read_row f prefix [] i id ≡ (row f i, [])
  unfolding read_row
  read_row-plenty f i id e = simp (dup_or_null-plenty, e)

  -- With memory at hand, and a prefix of at most 65 bytes, the list holds exactly the rows before
  -- the first index whose `id` is absent, in order.
  pub from_fields-id_rows :
      (f : Fields)
      → length prefix ≤ 65
      → length f.items < 2 ^ 32
      → (n : ℕ) × (r : RefList) × FirstGap f.items id_key 0 n
        × (from_fields [] f prefix ≡ some (r, []))
        × (r.items ≡ rows (row f) 0 n)
  unfolding from_fields field_for Codec.get
  from_fields-id_rows f p h =
      let (n, g) = gap_of f p h in
      let (r, run, items) =
        scan-Reads (lead f) (read_row f prefix) (row f) (read_row-plenty f) n (suc (length f.items))
          0 no_rows (omega (arith, g.bounded)) g.filled g.gap in
      (n, r, g, run, items)
