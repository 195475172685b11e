-- ===== src/Guard/History.antt =====
-- What the guard does over a whole history of replies since the last reset.
use casquinha.Prelude.{true, if◌then◌else◌, inl, inr, List, [], ◌∷◌, ◌≡◌, ◌↔◌, ◌⊎◌, arith}
use casquinha.Prelude.Int.{ℤ, pos, ltb_ℤ, ◌≤ℤ◌}
use casquinha.Guard.{Guard, init, accept_ts, reset}

-- The replies in order: the guard after them, and the timestamps that it adopted.
abbrev pub guard_after : Guard → List ℤ → Guard
guard_after g [] = g
guard_after g (ts ∷ rest) = guard_after (accept_ts g ts).0 rest

abbrev pub adopted : Guard → List ℤ → List ℤ
adopted g [] = []
adopted g (ts ∷ rest) =
    let later = adopted (accept_ts g ts).0 rest in if (accept_ts g ts).1 then ts ∷ later else later

-- The timestamps that a server can have sent, all of them at most `ts`.
abbrev pub AllAtMost : ℤ → List ℤ → Type 0
AllAtMost ts [] = Unit
AllAtMost ts (x ∷ xs) = (x ≤ℤ ts) × AllAtMost ts xs

-- Known timestamps do not fall: each positive one is at least `mark` and every positive one before.
abbrev pub Ascends : ℤ → List ℤ → Type 0
Ascends mark [] = Unit
Ascends mark (x ∷ xs) = if ltb_ℤ x (pos 1) then Ascends mark xs else (mark ≤ℤ x) × Ascends x xs

accept_ts-mark :
    (g : Guard) (ts : ℤ)
    → pos 0 ≤ℤ g.last_ts
    → (g.last_ts ≤ℤ (accept_ts g ts).0.last_ts)
      × (pos 0 ≤ℤ (accept_ts g ts).0.last_ts)
      × (ts ≤ℤ (accept_ts g ts).0.last_ts)
unfolding accept_ts
accept_ts-mark g ts h = ground arith

-- From a guard whose mark is not negative, as that of a fresh or reset one is, the timestamps it
-- adopts never go back: of the positive ones, each is at least the mark and every positive one
-- adopted before it.
pub adopted-Ascends :
    (g : Guard) (history : List ℤ) → pos 0 ≤ℤ g.last_ts → Ascends g.last_ts (adopted g history)
unfolding accept_ts
adopted-Ascends g [] h = tt
adopted-Ascends g (ts ∷ rest) h =
    ground (arith, adopted-Ascends (accept_ts g ts).0 rest, accept_ts-mark g ts)

accept_ts_iff :
    (g : Guard) (ts : ℤ)
    → pos 0 ≤ℤ g.last_ts
    → ((accept_ts g ts).1 ≡ true) ↔ ((ts ≤ℤ pos 0) ⊎ (g.last_ts ≤ℤ ts))
unfolding accept_ts
accept_ts_iff g ts h = ground arith

accept_ts-le :
    (g : Guard) (bound ts : ℤ)
    → pos 1 ≤ℤ bound
    → ((accept_ts g ts).0.last_ts ≤ℤ bound → (g.last_ts ≤ℤ bound) × (ts ≤ℤ bound))
      × ((g.last_ts ≤ℤ bound) × (ts ≤ℤ bound) → (accept_ts g ts).0.last_ts ≤ℤ bound)
unfolding accept_ts
accept_ts-le g bound ts h = (λ p. ground arith, λ p. ground arith)

-- The mark is the highest positive timestamp seen: what bounds it bounds the whole history.
mark-le_iff :
    (g : Guard) (history : List ℤ) (bound : ℤ)
    → pos 1 ≤ℤ bound
    → ((guard_after g history).last_ts ≤ℤ bound) ↔ ((g.last_ts ≤ℤ bound) × AllAtMost bound history)
mark-le_iff g [] bound h = (λ p. (p, tt), λ p. p.0)
mark-le_iff g (ts ∷ rest) bound h =
    let ih = mark-le_iff (accept_ts g ts).0 rest bound h in
    let step = accept_ts-le g bound ts h in
    (
      λ p. let q = ih.0 p in let r = step.0 q.0 in (r.0, (r.1, q.1)),
      λ p. ih.1 (step.1 (p.0, p.1.0), p.1.1),
    )

mark-nonneg :
    (g : Guard) (history : List ℤ) → pos 0 ≤ℤ g.last_ts → pos 0 ≤ℤ (guard_after g history).last_ts
mark-nonneg g [] h = h
mark-nonneg g (ts ∷ rest) h = mark-nonneg (accept_ts g ts).0 rest (accept_ts-mark g ts h).1

-- After any history of replies a fresh guard adopts the next one exactly when its timestamp is
-- unknown (not positive) or at least every timestamp of the history.
pub history_verdict :
    (history : List ℤ) (ts : ℤ)
    → ((accept_ts (guard_after init history) ts).1 ≡ true) ↔ ((ts ≤ℤ pos 0) ⊎ AllAtMost ts history)
unfolding init
history_verdict history ts =
    let start : Guard = record { last_ts = pos 0 } in
    let iff =
      accept_ts_iff (guard_after start history) ts (mark-nonneg start history (omega arith)) in
    (
      λ h. elim (ℤ-split ts) [
        | inl low ↦ inl low
        | inr high ↦ elim (iff.0 h) [
          | inl low ↦ inl low
          | inr above ↦ inr ((mark-le_iff start history ts high).0 above).1
        ]
      ],
      λ c. elim c [
        | inl low ↦ iff.1 (inl low)
        | inr all ↦ elim (ℤ-split ts) [
          | inl low ↦ iff.1 (inl low)
          | inr high ↦ iff.1 (inr ((mark-le_iff start history ts high).1 (omega arith, all)))
        ]
      ],
    )
  where
    ℤ-split : (a : ℤ) → (a ≤ℤ pos 0) ⊎ (pos 1 ≤ℤ a)
    ℤ-split a = omega arith

-- A reset forgets the history: the next reply is adopted whatever its timestamp, and if it is
-- positive it is the new mark.
pub accept_ts-reset :
    (g : Guard) (ts : ℤ)
    → ((accept_ts (reset g) ts).1 ≡ true) × (pos 1 ≤ℤ ts → (accept_ts (reset g) ts).0.last_ts ≡ ts)
unfolding accept_ts reset
accept_ts-reset g ts = (ground arith, λ h. ground arith)
