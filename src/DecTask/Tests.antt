-- ===== src/DecTask/Tests.antt =====
-- Interleavings of the two sides.
use casquinha.Prelude.{inl, arith, ◌≡◌, refl}
use casquinha.DecTask.{
  time_out, late_resetting, IsResetting, System, started, park, run, passing, resetting, task_moves,
  parks, sees, runs, task_turn, turn_at, write_park, see_ack, write_run,
}
use casquinha.DecTask.Protocol.{Run, begins, goes, IsQuiet, resetting-IsQuiet}

-- The first listen: the loop finds the task parked and lets it run; the task reads the command.
abbrev first_pass : System
first_pass = task_turn (write_run (see_ack (write_park started)))

-- A stop during that first pass: the acknowledgement is still that of the parking before it, and the
-- loop resets what the pump works on.
race :
    ((see_ack (write_park first_pass)).main ≡ resetting)
    × ((see_ack (write_park first_pass)).task ≡ passing run)
unfolding task_turn turn_at write_park see_ack write_run started
race = (refl, refl)

-- The wait of that stop ends by the timeout: the loop resets under the pass just as well.
late :
    ((time_out (write_park first_pass)).main ≡ late_resetting)
    × ((time_out (write_park first_pass)).task ≡ passing run)
unfolding task_turn turn_at write_park see_ack write_run time_out started
late = (refl, refl)

-- The task acknowledges its pass, and is parked.
abbrev stopped : System
stopped = see_ack (task_turn (task_turn (write_park (task_turn first_pass))))

resetting-IsQuiet_example : (IsQuiet stopped) × (stopped.cmd ≡ park) × (stopped.ack ≡ park)
unfolding task_turn turn_at write_park see_ack write_run started IsResetting
resetting-IsQuiet_example = resetting-IsQuiet stopped history refl
  where
    first : Run first_pass
    first =
        goes _ _
          (goes _ _
            (goes _ _ (goes _ _ begins (parks started refl) (λ _ _. refl)) (sees _ refl)
              (λ e. absurd (ground (arith, e))))
            (runs _ (inl refl)) (λ e. absurd (ground (arith, e))))
          (task_moves _) (λ _ e. absurd (ground (arith, e)))

    history : Run stopped
    history =
        goes _ _
          (goes _ _
            (goes _ _
              (goes _ _ (goes _ _ first (task_moves _) (λ _ e. absurd (ground (arith, e))))
                (parks _ refl) (λ _ _. refl))
              (task_moves _) (λ e. absurd (ground (arith, e))))
            (task_moves _) (λ e. absurd (ground (arith, e))))
          (sees _ refl) (λ e. absurd (ground (arith, e)))
