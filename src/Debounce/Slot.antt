-- ===== src/Debounce/Slot.antt =====
-- The slot against what it promises: last value wins, and no value leaves twice.
use casquinha.Prelude.{
  ℕ, ◌+◌, ◌≤◌, if◌then◌else◌, Option, none, some, List, [], ◌∷◌, ◌≡◌, refl, ap, arith, Bytes,
}
use casquinha.Alloc.{Memory}
use casquinha.Debounce.{Debounce, init, set, has, take}

-- What the controller does with a slot.
pub data Op : Type 0 where
  puts : Option Bytes → Op
  takes : Op

-- The values that its calls of `take` return, in order, with their NULLs.
abbrev pub run : Memory → Debounce → List Op → List (Option Bytes)
run m d [] = []
run m d (puts v ∷ ops) = let (d', m') = set m d v in run m' d' ops
run m d (takes ∷ ops) = let (d', v) = take d in v ∷ run m d' ops

-- The specification: a taken value is what the last `set` since the previous `take` put.
abbrev pub spec : Option Bytes → List Op → List (Option Bytes)
spec last [] = []
spec last (puts v ∷ ops) = spec v ops
spec last (takes ∷ ops) = last ∷ spec none ops

-- With memory to copy, the slot is last-value-wins: every `take` returns the argument of the latest
-- `set` since the previous `take`, and NULL if there was none.
pub run-spec : (d : Debounce) (ops : List Op) → run [] d ops ≡ spec d.pending ops
unfolding set take
run-spec d [] = refl
run-spec d (puts none ∷ ops) = run-spec (record { pending = none }) ops
run-spec d (puts (some v) ∷ ops) = run-spec (record { pending = some v }) ops
run-spec d (takes ∷ ops) = ap (◌∷◌ d.pending) (run-spec (record { pending = none }) ops)

abbrev pub sent : List (Option Bytes) → ℕ
sent [] = 0
sent (none ∷ vs) = sent vs
sent (some v ∷ vs) = 1 + sent vs

abbrev pub sets : List Op → ℕ
sets [] = 0
sets (puts v ∷ ops) = 1 + sets ops
sets (takes ∷ ops) = sets ops

abbrev held : Debounce → ℕ
held d = if has d then 1 else 0

held-set : (m : Memory) (d : Debounce) (v : Option Bytes) → held (set m d v).0 ≤ 1
unfolding has set
held-set m d v = ground arith

take-held :
    (m : Memory) (d : Debounce) (vs : List (Option Bytes))
    → sent ((take d).1 ∷ vs) ≡ held d + sent vs
unfolding has take
take-held m d vs = ground arith

sent-le : (m : Memory) (d : Debounce) (ops : List Op) → sent (run m d ops) ≤ held d + sets ops
unfolding has take
sent-le m d [] = omega arith
sent-le m d (puts v ∷ ops) = omega (arith, sent-le (set m d v).1 (set m d v).0 ops, held-set m d v)
sent-le m d (takes ∷ ops) = ground (arith, sent-le m (take d).0 ops)

-- No double send: whatever the interleaving of calls, and whichever copies fail, a fresh slot hands
-- out at most as many values as were put into it.
pub sent-le-sets : (m : Memory) (ops : List Op) → sent (run m init ops) ≤ sets ops
unfolding init has
sent-le-sets m ops = omega (arith, sent-le m (record { pending = none }) ops)
