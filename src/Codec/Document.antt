-- ===== src/Codec/Document.antt =====
-- Reading back a document that a server writes.
use casquinha.Prelude.{
  append-nil, ℕ, suc, ◌-◌, Option, none, some, List, [], ◌∷◌, ◌++◌, ◌≢◌, if◌then◌else◌, length,
  length-append, get_or, take, Bytes, bytes_eq, ◌≡◌, refl, arith, ap, ◌∙◌, append_assoc,
}
use casquinha.Codec.{get_from, init, strip_cr, split_tab, parse, get}
use casquinha.Codec.Lookup.{IsNulFree}
use casquinha.Codec.Parse.{override, lines, entry, last_value, get-parse}

abbrev pub Without : ℕ → Bytes → Type 0
Without b [] = Unit
Without b (c ∷ cs) = (c ≢ b) × Without b cs

-- The byte at the end, or 0.
abbrev pub last_byte : Bytes → ℕ
last_byte [] = 0
last_byte (c ∷ []) = c
last_byte (c ∷ d ∷ cs) = last_byte (d ∷ cs)

-- A key and a value that a line can carry.
pub record IsPair (p : Bytes × Bytes) : Type 0 where
  pub named : p.0 ≢ []
  pub key_tab : Without b'\t' p.0
  pub key_line : Without b'\n' p.0
  pub key_nul : IsNulFree p.0
  pub value_line : Without b'\n' p.1
  pub value_nul : IsNulFree p.1
  pub value_end : last_byte p.1 ≢ b'\r'

abbrev pub AllPairs : List (Bytes × Bytes) → Type 0
AllPairs [] = Unit
AllPairs (p ∷ ps) = IsPair p × AllPairs ps

-- How a line ends: LF, or CR LF.
pub data Ending : Type 0 where
  lf crlf : Ending

abbrev pub mark : Ending → Bytes
mark lf = []
mark crlf = b'\r' ∷ []

abbrev pub render : Ending → List (Bytes × Bytes) → Bytes
render e [] = []
render e ((k, v) ∷ ps) = (k ++ (b'\t' ∷ (v ++ mark e))) ++ (b'\n' ∷ render e ps)

-- The value of the last pair with key `k`.
abbrev pub lookup_last : Option Bytes → Bytes → List (Bytes × Bytes) → Option Bytes
lookup_last before k [] = before
lookup_last before k ((j, v) ∷ ps) = lookup_last (if bytes_eq j k then some v else before) k ps

lines-append : (l rest : Bytes) → Without b'\n' l → lines (l ++ (b'\n' ∷ rest)) ≡ l ∷ lines rest
lines-append [] rest h = refl
lines-append (c ∷ l) rest h = ground (arith, lines-append l rest h.1)

last_at : (c : ℕ) (l : Bytes) → get_or (c ∷ l) (length l) 0 ≡ last_byte (c ∷ l)
last_at c [] = refl
last_at c (d ∷ l) = last_at d l

get_or-last : (l : Bytes) → get_or l (length l - 1) 0 ≡ last_byte l
get_or-last [] = refl
get_or-last (c ∷ l) = let e : suc (length l) - 1 ≡ length l = omega arith in rw e (last_at c l)

take-append_self : (l t : Bytes) → take (length l) (l ++ t) ≡ l
take-append_self [] [] = refl
take-append_self [] (c ∷ t) = refl
take-append_self (c ∷ l) t = ap (◌∷◌ c) (take-append_self l t)

last_byte-append : (l : Bytes) (c : ℕ) → last_byte (l ++ c ∷ []) ≡ c
last_byte-append [] c = refl
last_byte-append (x ∷ []) c = refl
last_byte-append (x ∷ y ∷ l) c = last_byte-append (y ∷ l) c

split_tab-append : (k v : Bytes) → Without b'\t' k → split_tab (k ++ (b'\t' ∷ v)) ≡ some (k, v)
unfolding split_tab
split_tab-append [] v h = refl
split_tab-append (c ∷ k) v h = ground (arith, split_tab-append k v h.1)

strip_cr-cr : (l : Bytes) → strip_cr (l ++ b'\r' ∷ []) ≡ l
unfolding strip_cr
strip_cr-cr l = ground (
  arith,
  get_or-last (l ++ b'\r' ∷ []),
  last_byte-append l b'\r',
  length-append l (b'\r' ∷ []),
  length_less l,
  take-append_self l (b'\r' ∷ []),
)
  where
    length_less : (l : Bytes) → length (l ++ b'\r' ∷ []) - 1 ≡ length l
    length_less l = omega (arith, length-append l (b'\r' ∷ []))

strip_cr-other : (l : Bytes) → last_byte l ≢ b'\r' → strip_cr l ≡ l
unfolding strip_cr
strip_cr-other l h = ground (arith, get_or-last l)

last_byte-tab : (k v : Bytes) → last_byte v ≢ b'\r' → last_byte (k ++ (b'\t' ∷ v)) ≢ b'\r'
last_byte-tab [] [] h = omega arith
last_byte-tab [] (c ∷ v) h = h
last_byte-tab (c ∷ []) v h = last_byte-tab [] v h
last_byte-tab (c ∷ d ∷ k) v h = last_byte-tab (d ∷ k) v h

-- A line of a rendered document says its pair, however it ends.
entry-render :
    (e : Ending) (k v : Bytes) → IsPair (k, v) → entry (k ++ (b'\t' ∷ (v ++ mark e))) ≡ some (k, v)
entry-render lf [] v p = absurd (p.named refl)
entry-render lf (c ∷ k) v p = ground (
  arith,
  append-nil v,
  strip_cr-other ((c ∷ k) ++ (b'\t' ∷ v)) (last_byte-tab (c ∷ k) v p.value_end),
  split_tab-append (c ∷ k) v p.key_tab,
)
entry-render crlf [] v p = absurd (p.named refl)
entry-render crlf (c ∷ k) v p = ground (
  arith,
  append_assoc (c ∷ k) (b'\t' ∷ v) (b'\r' ∷ []),
  strip_cr-cr ((c ∷ k) ++ (b'\t' ∷ v)),
  split_tab-append (c ∷ k) v p.key_tab,
)

Without-append : (b : ℕ) (xs ys : Bytes) → Without b xs → Without b ys → Without b (xs ++ ys)
Without-append b [] ys h k = k
Without-append b (x ∷ xs) ys h k = (h.0, Without-append b xs ys h.1 k)

line-Without :
    (e : Ending) (k v : Bytes) → IsPair (k, v) → Without b'\n' (k ++ (b'\t' ∷ (v ++ mark e)))
line-Without e k v p =
    Without-append b'\n' k (b'\t' ∷ (v ++ mark e)) p.key_line
      (omega arith, Without-append b'\n' v (mark e) p.value_line (ending e))
  where
    ending : (e : Ending) → Without b'\n' (mark e)
    ending lf = tt
    ending crlf = (omega arith, tt)

line-IsNulFree :
    (e : Ending) (k v : Bytes) → IsPair (k, v) → IsNulFree (k ++ (b'\t' ∷ (v ++ mark e)))
line-IsNulFree e k v p =
    Without-append 0 k (b'\t' ∷ (v ++ mark e)) p.key_nul
      (omega arith, Without-append 0 v (mark e) p.value_nul (ending e))
  where
    ending : (e : Ending) → Without 0 (mark e)
    ending lf = tt
    ending crlf = (omega arith, tt)

render-IsNulFree : (e : Ending) (ps : List (Bytes × Bytes)) → AllPairs ps → IsNulFree (render e ps)
render-IsNulFree e [] h = tt
render-IsNulFree e ((k, v) ∷ ps) h =
    Without-append 0 (k ++ (b'\t' ∷ (v ++ mark e))) (b'\n' ∷ render e ps) (line-IsNulFree e k v h.0)
      (omega arith, render-IsNulFree e ps h.1)

last_value-render :
    (e : Ending) (ps : List (Bytes × Bytes)) (k : Bytes) (before : Option Bytes)
    → AllPairs ps
    → last_value k before (lines (render e ps)) ≡ lookup_last before k ps
last_value-render e [] k before h = unfold strip_cr split_tab in refl
last_value-render e ((j, v) ∷ ps) k before h =
    rw (lines-append (j ++ (b'\t' ∷ (v ++ mark e))) (render e ps) (line-Without e j v h.0)) (
      ap (λ said. last_value k (override k before said) (lines (render e ps)))
        (entry-render e j v h.0)
      ∙ last_value-render e ps k (if bytes_eq j k then some v else before) h.1)

-- Round trip, with memory at hand: of a document written from pairs, one to a line, whose keys are not
-- empty and have no TAB, LF or NUL and whose values have no LF or NUL and do not end in CR, the parser
-- reads under each key the value of the last pair with that key and nothing under any other, whether
-- the lines end in LF or in CR LF.
pub get-parse-render :
    (e : Ending) (ps : List (Bytes × Bytes)) (k : Bytes)
    → AllPairs ps
    → get (parse [] init (render e ps)).0 k ≡ lookup_last none k ps
unfolding init get get_from
get-parse-render e ps k h =
    get-parse (record { items = []; cap = 0 }) (render e ps) k (render-IsNulFree e ps h)
    ∙ last_value-render e ps k none h
