-- ===== src/RefList.antt =====
-- src/cq_reflist.c: the rows `<prefix>.<i>.{id,name}` of a search or a discography.
pub mod List
mod Tests
use casquinha.Prelude.{ℕ, suc, Option, some, length, Bytes, codes}
use casquinha.Alloc.{Memory, dup_or_null}
use casquinha.Codec
use casquinha.Codec.{Fields}
use casquinha.Rows.{row_key, RowList, no_rows, scan}

-- `cq_ref_item`
pub record RefItem : Type 0 where
  pub id : Option Bytes
  pub name : Option Bytes

-- `cq_ref_list`
abbrev pub RefList : Type 0
RefList = RowList RefItem

-- `field_for`
pub field_for : Fields → Bytes → ℕ → Bytes → Option Bytes
field_for f prefix i suffix = Codec.get f (row_key 80 prefix i suffix)

-- Row `i`, whose id was found.
pub read_row : Fields → Bytes → Memory → ℕ → Bytes → RefItem × Memory
read_row f prefix m i id =
    let (id', m₁) = dup_or_null m (some id) in
    let (name, m₂) = dup_or_null m₁ (field_for f prefix i (codes "name")) in
    (record { id = id'; name = name }, m₂)

-- `cq_ref_list_from_fields`, with fuel for one round more than there are fields; `none` if the fuel
-- ran out.
pub from_fields : Memory → Fields → Bytes → Option (RefList × Memory)
from_fields m f prefix =
    scan (λ i. field_for f prefix i (codes "id")) (read_row f prefix) (suc (length f.items)) m 0
      no_rows

-- `cq_ref_list_from_response`
pub from_response : Memory → Bytes → Bytes → Option (RefList × Memory)
from_response m bytes prefix =
    let (f, m') = Codec.parse m Codec.init bytes in from_fields m' f prefix

-- `cq_ref_list_free`
pub free : RefList → RefList
free l = no_rows
