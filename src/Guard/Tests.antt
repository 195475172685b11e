-- ===== src/Guard/Tests.antt =====
-- Runs of the guard.
use casquinha.Prelude.{true, List, [], ◌∷◌, ◌≡◌, refl, ◌↔◌, ◌⊎◌, arith}
use casquinha.Prelude.Int.{ℤ, pos, negsuc, ◌≤ℤ◌}
use casquinha.Guard.{init, accept_ts}
use casquinha.Guard.History.{
  guard_after, adopted, AllAtMost, Ascends, adopted-Ascends, history_verdict,
}

-- Two replicas, one a second behind the other, and a reply without a timestamp.
abbrev replies : List ℤ
replies = pos 1000 ∷ pos 3000 ∷ pos 2000 ∷ pos 0 ∷ pos 3000 ∷ negsuc 4 ∷ pos 4000 ∷ []

adopted-replies :
    adopted init replies ≡ pos 1000 ∷ pos 3000 ∷ pos 0 ∷ pos 3000 ∷ negsuc 4 ∷ pos 4000 ∷ []
unfolding init accept_ts
adopted-replies = refl

adopted-Ascends_example : Ascends (pos 0) (adopted (record { last_ts = pos 0 }) replies)
adopted-Ascends_example = adopted-Ascends (record { last_ts = pos 0 }) replies (omega arith)

history_verdict_example :
    ((accept_ts (guard_after init replies) (pos 3999)).1 ≡ true)
    ↔ ((pos 3999 ≤ℤ pos 0) ⊎ AllAtMost (pos 3999) replies)
history_verdict_example = history_verdict replies (pos 3999)
