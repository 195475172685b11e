-- ===== src/Transport/Buffer.antt =====
-- The receive buffer.
use casquinha.Prelude.{
  take, take-append-drop, length-take, min, ℕ, zero, suc, ◌+◌, ◌*◌, ◌≡◌, ◌≤◌, ◌<◌, refl, arith,
  Bool-cases, inl, inr, ltb, some, none, Bytes, length, length-append, ◌++◌, ◌==◌, ◌⊎◌,
  if◌then◌else◌,
}
use casquinha.Alloc.{Memory, malloc}
use casquinha.Transport.{drain, Transport, double_to, append, chunk_size}

double_to-ge :
    (fuel ncap need : ℕ) → 0 < ncap → need ≤ ncap + fuel → need ≤ double_to fuel ncap need
unfolding double_to
double_to-ge zero ncap need p h = omega arith
double_to-ge (suc fuel) ncap need p h = ground (arith, double_to-ge fuel (ncap * 2) need)

-- A granted append adds the bytes at the end, within the allocation.
pub append-cases :
    (m : Memory) (t : Transport) (buf : Bytes)
    → ((append m t buf).0 ≡ none)
      ⊎ ((c : ℕ) × ((append m t buf).0 ≡ some (record t { data' = t.data' ++ buf; cap = c }))
          × (length (t.data' ++ buf) ≤ c))
unfolding append
append-cases m t buf =
    let need = length t.data' + length buf in
    let start = if t.cap == 0 then chunk_size else t.cap in
    let len = length-append t.data' buf in
    let enough = double_to-ge need start need (ground arith) (omega arith) in
    elim (Bool-cases (ltb t.cap need)) [
      | inr fits ↦ rw (fits, append) (inr (t.cap, refl, ground arith))
      | inl grows ↦ elim (Bool-cases (malloc m).0) [
        | inl granted ↦
            rw (grows, granted, append) (inr (double_to need start need, refl, omega arith))
        | inr refused ↦ rw (grows, refused, append) (inl refl)
      ]
    ]

-- A drain splits the buffer.
pub drain_lem :
    (t : Transport) (cap : ℕ)
    → ((drain t cap).1 ++ (drain t cap).0.data' ≡ t.data')
      × (length (drain t cap).1 ≡ min (length t.data') cap)
unfolding drain
drain_lem t cap =
    let n = if ltb (length t.data') cap then length t.data' else cap in
    (take-append-drop n t.data', size n (ground arith))
  where
    size :
        (n : ℕ) → n ≡ min (length t.data') cap → length (take n t.data') ≡ min (length t.data') cap
    size n e = omega (arith, length-take n t.data')
