-- ===== src/DecRing/Wrap.antt =====
-- Byte rings read and written across their end: what `memcpy` in two pieces does to the bytes between
-- two running cursors.
use casquinha.Prelude.{
  Bool-cases, inl, inr, ◌⊎◌, ltb, if◌then◌else◌, length-take, length-drop, take, drop,
  take-append-drop, take-all, drop-all, append_assoc, get_or-set_self, append-nil, ℕ, suc, zero,
  ◌+◌, ◌-◌, ◌%◌, ◌≡◌, ◌≢◌, refl, sym, ap, ap₂, ◌∙◌, ◌≤◌, ◌<◌, arith, Bytes, length, get_or, set,
  window, get_or-set_ne, length-set, [], ◌∷◌, ◌++◌, dec_lt,
}
use native.Mathlib.Nat.{
  mod-mod, add-mod_right, mod-eq_of_lt, mod-add-mod, mod-lt, add-zero, mod-eq-sub-mod, zero-add,
}

-- `memcpy` of a list of bytes into a buffer.
pub write : Bytes → ℕ → Bytes → Bytes
write buf at [] = buf
write buf at (b ∷ bs) = write (set buf at b) (at + 1) bs

-- The `n` bytes of a ring from the running cursor `at` on.
unfoldable pub wrapped : Bytes → ℕ → ℕ → Bytes
wrapped ring at zero = []
wrapped ring at (suc n) = get_or ring (at % length ring) 0 ∷ wrapped ring (at + 1) n

pub length-write : (buf : Bytes) (at : ℕ) (bs : Bytes) → length (write buf at bs) ≡ length buf
unfolding write
length-write buf at [] = refl
length-write buf at (b ∷ bs) = length-write (set buf at b) (at + 1) bs ∙ length-set buf at b

pub length-wrapped : (ring : Bytes) (at n : ℕ) → length (wrapped ring at n) ≡ n
unfolding wrapped
length-wrapped ring at zero = refl
length-wrapped ring at (suc n) = ap suc (length-wrapped ring (at + 1) n)

pub wrapped-append :
    (ring : Bytes) (at m n : ℕ)
    → wrapped ring at (m + n) ≡ wrapped ring at m ++ wrapped ring (at + m) n
unfolding wrapped
wrapped-append ring at zero n = rw (zero-add n, add-zero at) refl
wrapped-append ring at (suc m) n =
    let e : at + suc m ≡ at + 1 + m = omega arith in
    let q : suc m + n ≡ suc (m + n) = omega arith in
    rw (e, q) (ap (◌∷◌ (get_or ring (at % length ring) 0)) (wrapped-append ring (at + 1) m n))

pub wrapped-mod :
    (ring : Bytes) (a b n : ℕ)
    → a % length ring ≡ b % length ring
    → wrapped ring a n ≡ wrapped ring b n
unfolding wrapped
wrapped-mod ring a b zero h = refl
wrapped-mod ring a b (suc n) h = ap₂ ◌∷◌ (ap (λ i. get_or ring i 0) h) (
    wrapped-mod ring (a + 1) (b + 1) n (
      sym (mod-add-mod a (length ring) 1)
      ∙ ap (λ i. (i + 1) % length ring) h
      ∙ mod-add-mod b (length ring) 1))

pub window-wrapped :
    (ring : Bytes) (at n : ℕ) → at + n ≤ length ring → window ring 0 at n ≡ wrapped ring at n
unfolding wrapped
window-wrapped ring at zero h = refl
window-wrapped ring at (suc n) h =
    let inside : at < length ring = omega arith in
    ap₂ ◌∷◌ (ap (λ i. get_or ring i 0) (sym (mod-eq_of_lt inside)))
      (let e : suc at ≡ at + 1 = omega arith in rw e (window-wrapped ring (at + 1) n (omega arith)))

step-ne : (s r d : ℕ) → r < s → 0 < d → d < s → r ≢ (r + d) % s
step-ne s r d lt p h e = elim (dec_lt (r + d) s) [
  | yes q ↦ omega (arith, mod-eq_of_lt q)
  | no q ↦ omega (
    arith,
    mod-eq-sub-mod {n = r + d} {m = s} (omega arith),
    mod-eq_of_lt {n = r + d - s} {m = s} (omega arith),
  )
]

-- Two cursors less than a ring apart stand at different places.
pub mod-ne : (s a d : ℕ) → 0 < d → d < s → a % s ≢ (a + d) % s
mod-ne s a d p h e = step-ne s (a % s) d (mod-lt a (omega arith)) p h (e ∙ sym (mod-add-mod a s d))

wrapped-set :
    (ring : Bytes) (at n j b : ℕ)
    → ((k : ℕ) → k < n → j ≢ (at + k) % length ring)
    → wrapped (set ring j b) at n ≡ wrapped ring at n
unfolding wrapped
wrapped-set ring at zero j b h = refl
wrapped-set ring at (suc n) j b h = rw (length-set ring j b) (
    ap₂ ◌∷◌ (get_or-set_ne ring j (at % length ring) b 0 (here (h 0 (omega arith))))
      (wrapped-set ring (at + 1) n j b (λ k lt. there k (h (suc k) (omega arith)))))
  where
    here : j ≢ (at + 0) % length ring → j ≢ at % length ring
    here f = rw (add-zero at) at f

    there : (k : ℕ) → j ≢ (at + suc k) % length ring → j ≢ (at + 1 + k) % length ring
    there k f = let e : at + 1 + k ≡ at + suc k = omega arith in rw e f

wrapped-set_next :
    (ring : Bytes) (at n j b : ℕ)
    → n < length ring
    → j < length ring
    → j ≡ (at + n) % length ring
    → wrapped (set ring j b) at (n + 1) ≡ wrapped ring at n ++ b ∷ []
unfolding wrapped
wrapped-set_next ring at n j b h lt e =
    wrapped-append (set ring j b) at n 1
    ∙ ap₂ ◌++◌ (wrapped-set ring at n j b (λ k hk. apart k hk))
        (rw (length-set ring j b, ← e, get_or-set_self ring j b 0 lt) refl)
  where
    apart : (k : ℕ) → k < n → j ≢ (at + k) % length ring
    apart k hk f =
        let q : at + n ≡ at + k + (n - k) = omega arith in
        mod-ne (length ring) (at + k) (n - k) (omega arith) (omega arith)
          (sym f ∙ e ∙ ap (λ x. x % length ring) q)

-- A write that does not cross the end, after `n` bytes from `at` on, appends to them.
pub wrapped-write :
    (ring : Bytes) (at n j : ℕ) (bs : Bytes)
    → n + length bs ≤ length ring
    → j + length bs ≤ length ring
    → j % length ring ≡ (at + n) % length ring
    → wrapped (write ring j bs) at (n + length bs) ≡ wrapped ring at n ++ bs
unfolding write
wrapped-write ring at n j [] h fits e = rw (add-zero n, append-nil (wrapped ring at n)) refl
wrapped-write ring at n j (b ∷ bs) h fits e =
    let inside : j < length ring = omega arith in
    let count : n + suc (length bs) ≡ n + 1 + length bs = omega arith in
    rw count (
      wrapped-write (set ring j b) at (n + 1) (j + 1) bs (omega (arith, length-set ring j b))
        (omega (arith, length-set ring j b)) shift
      ∙ ap (λ w. w ++ bs)
          (wrapped-set_next ring at n j b (omega arith) inside (sym (mod-eq_of_lt inside) ∙ e))
      ∙ append_assoc (wrapped ring at n) (b ∷ []) bs)
  where
    shift : (j + 1) % length (set ring j b) ≡ (at + (n + 1)) % length (set ring j b)
    shift =
        let q : at + (n + 1) ≡ at + n + 1 = omega arith in
        rw (length-set ring j b, q)
          (sym (mod-add-mod j (length ring) 1)
            ∙ ap (λ i. (i + 1) % length ring) e
            ∙ mod-add-mod (at + n) (length ring) 1)

-- The bytes before the wrap, of `n` bytes from index `at` on.
abbrev pub before_wrap : ℕ → ℕ → ℕ → ℕ
before_wrap size at n = if ltb n (size - at) then n else size - at

at_start : (s c a : ℕ) → 0 < s → c % s ≡ a % s → 0 % s ≡ (a + (s - c % s)) % s
at_start s c a p e =
    let lt = mod-lt c p in
    let whole : c % s + (s - c % s) ≡ 0 + s = omega (arith, lt) in
    sym (add-mod_right 0 s)
    ∙ sym (ap (λ x. x % s) whole)
    ∙ ap (λ x. (x + (s - c % s)) % s) e
    ∙ mod-add-mod a s (s - c % s)

-- `memcpy` in two pieces, the second to the ring's start, appends as well.
pub wrapped-write_two :
    (ring : Bytes) (at n c : ℕ) (bs : Bytes)
    → 0 < length ring
    → n + length bs ≤ length ring
    → c % length ring ≡ (at + n) % length ring
    → wrapped
        (write
          (write ring
            (c % length ring)
            (take (before_wrap (length ring) (c % length ring) (length bs)) bs))
          0
          (drop (before_wrap (length ring) (c % length ring) (length bs)) bs))
        at
        (n + length bs)
      ≡ wrapped ring at n ++ bs
unfolding write
wrapped-write_two ring at n c bs p h e =
    elim (Bool-cases (ltb (length bs) (length ring - c % length ring))) [
      | inl fits ↦ rw fits (
          ap₂ (λ f t. wrapped (write (write ring (c % length ring) f) 0 t) at (n + length bs))
            (take-all bs) (drop-all bs)
          ∙ wrapped-write ring at n (c % length ring) bs h (ground arith)
              (mod-mod c (length ring) ∙ e))
      | inr over ↦ rw over (two (length ring - c % length ring) refl (ground arith))
    ]
  where
    two :
        (first : ℕ)
        → first ≡ length ring - c % length ring
        → first ≤ length bs
        → wrapped
            (write (write ring (c % length ring) (take first bs)) 0 (drop first bs))
            at
            (n + length bs)
          ≡ wrapped ring at n ++ bs
    two first q le =
        let lt = mod-lt c p in
        let lt_len : length (take first bs) ≡ first = omega (arith, length-take first bs) in
        let ld_len : length (drop first bs) ≡ length bs - first =
          omega (arith, length-drop first bs) in
        let lw = length-write ring (c % length ring) (take first bs) in
        let count : n + length bs ≡ n + length (take first bs) + length (drop first bs) =
          omega arith in
        rw count (
          wrapped-write (write ring (c % length ring) (take first bs)) at
            (n + length (take first bs)) 0 (drop first bs) (omega (arith, lw)) (omega (arith, lw))
            (rw (lw, lt_len, q)
              (at_start (length ring) c (at + n) p e ∙ ap (λ x. x % length ring) (omega arith)))
          ∙ ap (λ w. w ++ drop first bs)
              (wrapped-write ring at n (c % length ring) (take first bs) (omega arith) (omega arith)
                (mod-mod c (length ring) ∙ e))
          ∙ append_assoc (wrapped ring at n) (take first bs) (drop first bs)
          ∙ ap (λ t. wrapped ring at n ++ t) (take-append-drop first bs))

-- Reading in two pieces.
pub window_two :
    (ring : Bytes) (at n : ℕ)
    → 0 < length ring
    → n ≤ length ring
    → window ring 0 (at % length ring) (before_wrap (length ring) (at % length ring) n)
        ++ window ring 0 0 (n - before_wrap (length ring) (at % length ring) n)
      ≡ wrapped ring at n
unfolding wrapped
window_two ring at n p h =
    two (before_wrap (length ring) (at % length ring) n) (ground arith) (ground arith)
      (ground arith)
  where
    two :
        (first : ℕ)
        → first ≤ n
        → at % length ring + first ≤ length ring
        → (first ≡ n) ⊎ (first ≡ length ring - at % length ring)
        → window ring 0 (at % length ring) first ++ window ring 0 0 (n - first) ≡ wrapped ring at n
    two first le fits which =
        let lt = mod-lt at p in
        let count : n ≡ first + (n - first) = omega arith in
        let head =
          window-wrapped ring (at % length ring) first fits
          ∙ wrapped-mod ring (at % length ring) at first (mod-mod at (length ring)) in
        let tail : window ring 0 0 (n - first) ≡ wrapped ring (at + first) (n - first) =
          elim which [
            | inl all ↦ let none_left : n - first ≡ 0 = omega arith in rw none_left refl
            | inr wrap ↦
                window-wrapped ring 0 (n - first) (omega arith)
                ∙ wrapped-mod ring 0 (at + first) (n - first)
                    (rw wrap (at_start (length ring) at at p refl))
          ] in
        ap₂ ◌++◌ head tail
        ∙ sym (wrapped-append ring at first (n - first))
        ∙ ap (wrapped ring at) (omega arith)
