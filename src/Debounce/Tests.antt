-- ===== src/Debounce/Tests.antt =====
-- Runs of the slot.
use casquinha.Prelude.{true, false, none, some, List, [], ◌∷◌, ◌≡◌, refl, codes}
use casquinha.Debounce.{Debounce, init, set, take}
use casquinha.Debounce.Slot.{Op, puts, takes, run}

-- Three fast taps of Next, and a fourth after the flush.
abbrev taps : List Op
taps =
    puts (some (codes "next/1"))
    ∷ puts (some (codes "next/2"))
    ∷ puts (some (codes "next/3"))
    ∷ takes
    ∷ takes
    ∷ puts (some (codes "prev"))
    ∷ takes
    ∷ []

run-taps : run [] init taps ≡ some (codes "next/3") ∷ none ∷ some (codes "prev") ∷ []
unfolding init set take
run-taps = refl

-- A copy that fails clears the slot: the tap is lost, the earlier one too.
run-no_memory :
    run (true ∷ false ∷ []) init (puts (some (codes "a")) ∷ puts (some (codes "b")) ∷ takes ∷ [])
    ≡ none ∷ []
unfolding init set take
run-no_memory = refl

abbrev empty : Debounce
empty = record { pending = none }
