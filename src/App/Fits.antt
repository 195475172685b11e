-- ===== src/App/Fits.antt =====
-- What the helpers write fits the buffers that they are given.
use casquinha.Prelude.{
  ◌*◌, ◌≤◌, ℕ, ◌+◌, ◌<◌, arith, Bool, not, ltb, Bytes, [], ◌∷◌, length, inl, inr, Bool-cases,
}
use casquinha.DecRing.{sub32}
use casquinha.View.{render}
use casquinha.View.Bounds.{IsView, render-IsView}
use casquinha.App.Scene.{Globals, build_view_in}
use casquinha.App.{is_safe, esc_from, esc_into}

esc_from-fits :
    (max : ℕ) (keep_colon : Bool) (o : ℕ) (s : Bytes)
    → o < max
    → o + length (esc_from max keep_colon o s) < max
unfolding esc_from
esc_from-fits max keep_colon o [] h = omega arith
esc_from-fits max keep_colon o (c ∷ cs) h = elim (Bool-cases (not (ltb (o + 3) max))) [
  | inl full ↦ rw (full, esc_from) (omega arith)
  | inr room ↦ elim (Bool-cases (is_safe keep_colon c)) [
    | inl safe ↦
        let rest = esc_from-fits max keep_colon (o + 1) cs (ground arith) in
        rw (room, esc_from) (rw safe (omega (arith, rest)))
    | inr unsafe ↦
        let rest = esc_from-fits max keep_colon (o + 3) cs (ground arith) in
        rw (room, esc_from) (rw unsafe (omega (arith, rest)))
  ]
]

-- An escaped string fits its buffer with the NUL.
pub length-esc_into :
    (s : Bytes) (max : ℕ) (keep_colon : Bool) → 0 < max → length (esc_into s max keep_colon) < max
unfolding esc_into
length-esc_into s max keep_colon h = omega (arith, esc_from-fits max keep_colon 0 s h)

-- With no more than the sound ring's 2 MB waiting, what the application draws is in range.
pub render-build_view_in :
    (g : Globals) (now : ℕ)
    → sub32 g.ring_wr g.ring_rd ≤ 2048 * 1024
    → IsView (render (build_view_in g now))
unfolding build_view_in
render-build_view_in g now h = render-IsView (build_view_in g now) (omega arith)
