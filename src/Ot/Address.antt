-- ===== src/Ot/Address.antt =====
-- src/cq_transport_ot.c: the address of the host.
use casquinha.Prelude.{
  ltb, leb, none, some, ◌&&◌, ◌^◌, [], ◌∷◌, ◌%◌, ◌-◌, ◌+◌, ◌||◌, ◌*◌, ◌==◌, length, if◌then◌else◌,
  Option, Bytes, ℕ,
}

-- The digits of one part: the value in 32 bits, and what follows.
unfoldable pub part_from : ℕ → Bytes → ℕ × Bytes
part_from v [] = (v, [])
part_from v (c ∷ cs) =
    let rest = part_from ((v * 10 + (c - b'0')) % 2 ^ 32) cs in
    if leb b'0' c && leb c b'9' then rest else (v, c ∷ cs)

-- One round of the loop of `parse_dotted_quad`, without the dot.
unfoldable pub part : Bytes → Option (ℕ × Bytes)
part s =
    let (v, rest) = part_from 0 s in
    if length rest == length s || ltb 255 v then none else some (v, rest)

-- The early returns of the parser.
infixl 5 ◌>>=◌
abbrev pub ◌>>=◌ {ℓ κ} : {A : Type ℓ} {B : Type κ} → Option A → (A → Option B) → Option B
none >>= k = none
some a >>= k = k a

-- The dot after a part.
unfoldable pub dot : Bytes → Option Bytes
dot [] = none
dot (c ∷ cs) = if c == b'.' then some cs else none

-- `parse_dotted_quad`: `|` of shifted parts is their sum, since each is below 256.
unfoldable pub parse_dotted_quad : Bytes → Option ℕ
parse_dotted_quad s = do
  (a, s₀) ← part s
  s₁ ← dot s₀
  (b, s₂) ← part s₁
  s₃ ← dot s₂
  (c, s₄) ← part s₃
  s₅ ← dot s₄
  (d, s₆) ← part s₅
  if length s₆ == 0 then some (a * 2 ^ 24 + b * 2 ^ 16 + c * 2 ^ 8 + d) else none

-- `resolve_host`
unfoldable pub resolve_host : Option ℕ → Bytes → Option ℕ
resolve_host services host = elim (parse_dotted_quad host) [
  | some ip ↦ some ip
  | none ↦ elim services [ none ↦ none | some a ↦ if a == 0 then none else some a ]
]
