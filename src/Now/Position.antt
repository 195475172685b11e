-- ===== src/Now/Position.antt =====
-- The interpolated position.
use casquinha.Prelude.{
  Bool-cases, inl, inr, not, ◌||◌, ◌&&◌, if◌then◌else◌, ◌≢◌, ◌≡◌, ◌⊎◌, arith, ◌^◌,
}
use casquinha.Prelude.Int.{
  ltb_ℤ, wrap64, negsuc, ℤ, pos, negsuc, ◌≤ℤ◌, ◌+ℤ◌, ◌-ℤ◌, wrap64, wrap64-eq, +ℤ_parts, -ℤ_parts,
}
use casquinha.Now.{is_playing, Now, playing, interpolated_position_ms}

-- While playing with a known timestamp the position is never negative and, with a known duration,
-- never past it, whatever the clocks say.
pub interpolated_position_bounds :
    (n : Now) (now : ℤ)
    → n.state ≡ playing
    → pos 1 ≤ℤ n.ts
    → (pos 0 ≤ℤ interpolated_position_ms n now)
      × ((n.duration_ms ≤ℤ pos 0) ⊎ (interpolated_position_ms n now ≤ℤ n.duration_ms))
unfolding interpolated_position_ms
interpolated_position_bounds n now p h = (ground arith, ground arith)

-- Otherwise it is the reported position, as it was reported.
pub interpolated_position_frozen :
    (n : Now) (now : ℤ)
    → (n.state ≢ playing) ⊎ (n.ts ≤ℤ pos 0)
    → interpolated_position_ms n now ≡ n.position_ms
unfolding interpolated_position_ms
interpolated_position_frozen n now h = ground arith

-- A clock value or a position of fewer than 2 ^ 61 milliseconds either way.
abbrev pub IsTime : ℤ → Type 0
IsTime a = (negsuc (2 ^ 61) ≤ℤ a) × (a ≤ℤ pos (2 ^ 61))

sum_fits :
    (p now ts : ℤ)
    → IsTime p
    → IsTime now
    → IsTime ts
    → wrap64 (p +ℤ wrap64 (now -ℤ ts)) ≡ p +ℤ (now -ℤ ts)
sum_fits p now ts hp hn ht =
    let d : wrap64 (now -ℤ ts) ≡ now -ℤ ts =
      wrap64-eq (now -ℤ ts) (omega (arith, -ℤ_parts)) (omega (arith, -ℤ_parts)) in
    rw d (
      wrap64-eq (p +ℤ (now -ℤ ts)) (omega (arith, -ℤ_parts, +ℤ_parts))
        (omega (arith, -ℤ_parts, +ℤ_parts)))

abbrev clamp : ℤ → ℤ → ℤ
clamp duration est =
    let low = if ltb_ℤ est (pos 0) then pos 0 else est in
    if ltb_ℤ (pos 0) duration && ltb_ℤ duration low then duration else low

clamp_mono : (d a b : ℤ) → a ≤ℤ b → clamp d a ≤ℤ clamp d b
clamp_mono d a b h = ground arith

estimate_mono :
    (p ts a b : ℤ)
    → IsTime p
    → IsTime ts
    → IsTime a
    → IsTime b
    → a ≤ℤ b
    → wrap64 (p +ℤ wrap64 (a -ℤ ts)) ≤ℤ wrap64 (p +ℤ wrap64 (b -ℤ ts))
estimate_mono p ts a b hp ht ha hb h =
    rw (sum_fits p a ts hp ha ht, sum_fits p b ts hp hb ht) (omega (arith, +ℤ_parts, -ℤ_parts))

-- The bar never runs backward between polls: a later clock gives a position that is not smaller.
pub interpolated_position_mono :
    (n : Now) (earlier later : ℤ)
    → IsTime n.position_ms
    → IsTime n.ts
    → IsTime earlier
    → IsTime later
    → earlier ≤ℤ later
    → interpolated_position_ms n earlier ≤ℤ interpolated_position_ms n later
unfolding interpolated_position_ms
interpolated_position_mono n earlier later hp ht he hl h =
    elim (Bool-cases (not (is_playing n.state) || ltb_ℤ n.ts (pos 1))) [
      | inl frozen ↦ rw frozen (omega arith)
      | inr moving ↦ rw moving (
          clamp_mono n.duration_ms (wrap64 (n.position_ms +ℤ wrap64 (earlier -ℤ n.ts)))
            (wrap64 (n.position_ms +ℤ wrap64 (later -ℤ n.ts)))
            (estimate_mono n.position_ms n.ts earlier later hp ht he hl h))
    ]
