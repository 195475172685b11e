-- ===== src/Codec/Lookup.antt =====
-- `cq_fields_get` after `fields_put`: a map whose last value wins.
use casquinha.Prelude.{
  true, false, some, List, [], ◌∷◌, ◌++◌, ◌≢◌, ◌≤◌, if◌then◌else◌, length, length-append, Bytes,
  bytes_eq, bytes_eq_iff, bytes_eq_refl, ◌≡◌, refl, arith,
}
use casquinha.Alloc.{Memory}
use casquinha.Codec.{
  init, Field, Fields, c_string, dup_range, has_key, overwrite, grow, append_field, fields_put,
  get_from, get,
}

-- A range with no NUL in it.
abbrev pub IsNulFree : Bytes → Type 0
IsNulFree [] = Unit
IsNulFree (c ∷ cs) = (c ≢ 0) × IsNulFree cs

pub c_string-IsNulFree : (p : Bytes) → IsNulFree p → c_string p ≡ p
c_string-IsNulFree [] h = refl
c_string-IsNulFree (c ∷ cs) h = ground (arith, c_string-IsNulFree cs h.1)

get_from-overwrite :
    (es : List Field) (k v j : Bytes)
    → has_key es k ≡ true
    → get_from (overwrite es k v) j ≡ (if bytes_eq k j then some v else get_from es j)
unfolding has_key overwrite get_from
get_from-overwrite [] k v j h = absurd (cc)
get_from-overwrite (e ∷ es) k v j h = ground (
  arith,
  bytes_eq_iff e.key k,
  bytes_eq_iff e.key j,
  bytes_eq_iff k j,
  bytes_eq_refl j,
  bytes_eq_refl k,
  get_from-overwrite es k v j,
)

get_from-append :
    (es : List Field) (k v j : Bytes)
    → has_key es k ≡ false
    → get_from (es ++ record { key = k; value = v } ∷ []) j
      ≡ (if bytes_eq k j then some v else get_from es j)
unfolding has_key get_from
get_from-append [] k v j h = refl
get_from-append (e ∷ es) k v j h = ground (
  arith,
  bytes_eq_iff e.key k,
  bytes_eq_iff e.key j,
  bytes_eq_iff k j,
  bytes_eq_refl j,
  bytes_eq_refl k,
  get_from-append es k v j,
)

-- With memory at hand, a put of a key and a value without NULs succeeds: reading that key gives the
-- new value, and every other key reads as before.
pub get-fields_put :
    (f : Fields) (k v j : Bytes)
    → IsNulFree k
    → IsNulFree v
    → get (fields_put [] f k v).0 j ≡ (if bytes_eq k j then some v else get f j)
unfolding get fields_put grow append_field dup_range
get-fields_put f k v j hk hv = ground (
  arith,
  c_string-IsNulFree k hk,
  c_string-IsNulFree v hv,
  get_from-overwrite f.items k v j,
  get_from-append f.items k v j,
)

pub fields_put-memory : (f : Fields) (k v : Bytes) → (fields_put [] f k v).1 ≡ []
unfolding fields_put grow append_field dup_range
fields_put-memory f k v = ground arith

-- What the fields hold never exceeds what was allocated for them.
pub record IsValid (f : Fields) : Type 0 where
  pub within : length f.items ≤ f.cap

length-overwrite : (es : List Field) (k v : Bytes) → length (overwrite es k v) ≡ length es
unfolding overwrite
length-overwrite [] k v = refl
length-overwrite (e ∷ es) k v = ground (arith, length-overwrite es k v)

pub fields_put-IsValid :
    (m : Memory) (f : Fields) (k v : Bytes) → IsValid f → IsValid (fields_put m f k v).0
unfolding fields_put grow append_field dup_range
fields_put-IsValid m f k v h = ground (
  arith,
  length-overwrite f.items k (c_string v),
  length-append f.items (record { key = c_string k; value = c_string v } ∷ []),
)

c_string-nul : (k junk : Bytes) → IsNulFree k → c_string (k ++ 0 ∷ junk) ≡ k
c_string-nul [] junk h = refl
c_string-nul (c ∷ k) junk h = ground (arith, c_string-nul k junk h.1)

-- A key with an embedded NUL is stored as the part before it, and is read as that key: on a fresh
-- set the value of a junk line that begins with a known key and a NUL is that key's value.
pub get-fields_put_nul :
    (k junk v : Bytes)
    → IsNulFree k
    → IsNulFree v
    → get (fields_put [] init (k ++ 0 ∷ junk) v).0 k ≡ some v
unfolding get fields_put grow append_field dup_range init has_key get_from
get-fields_put_nul k junk v hk hv =
    ground (arith, c_string-nul k junk hk, c_string-IsNulFree v hv, bytes_eq_refl k)
