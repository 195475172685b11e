-- ===== src/DecTask/Protocol.antt =====
-- When the event loop may reset what the decode task works on.
use casquinha.Prelude.{◌^◌, ap, ◌%◌, ◌∙◌, sym, ◌+◌, ◌≡◌, ◌≢◌, refl, arith}
use casquinha.DecTask.{
  turn_at, Command, TaskPlace, MainPlace, System, Step, park, run, quit, reading, exited, passing,
  elsewhere, waiting, resetting, task_moves, parks, sees, times_out, runs, rests, quits, started,
  task_turn, write_park, see_ack, time_out, write_run, leave_parked, write_quit,
}

-- A run in which the loop parks the task only when the task has acknowledged the last command.
pub data Run : System → Type 0 where
  begins : Run started
  goes :
      (s s' : System)
      → Run s
      → Step s s'
      → (s.main ≡ elsewhere → s'.main ≡ waiting → s.ack ≡ s.cmd)
      → Run s'

-- The task is not in a pass of the pump.
pub IsQuiet : System → Type 0
IsQuiet s = s.task ≢ passing run

record Inv (s : System) : Type 0 where
  settled : s.cmd ≡ park → s.ack ≡ park → IsQuiet s
  asked : s.main ≡ waiting → s.cmd ≡ park
  answered : s.main ≡ resetting → (s.cmd ≡ park) × (s.ack ≡ park)
  unquit : s.task ≢ passing quit

turn_at-Inv :
    (t : TaskPlace) (c : Command) (s : System)
    → s.task ≡ t
    → s.cmd ≡ c
    → Inv s
    → Inv (turn_at t c s)
unfolding turn_at IsQuiet
turn_at-Inv exited c s e f h = h
turn_at-Inv (passing park) c s e f h = record {
  settled = λ _ _ q. absurd (ground (arith, q));
  asked = h.asked;
  answered = λ m. ((h.answered m).0, refl);
  unquit = λ q. absurd (ground (arith, q));
}
turn_at-Inv (passing run) c s e f h = record {
  settled = λ _ a. absurd (ground (arith, a));
  asked = h.asked;
  answered = λ m. absurd (h.settled (h.answered m).0 (h.answered m).1 e);
  unquit = λ q. absurd (ground (arith, q));
}
turn_at-Inv (passing quit) c s e f h = absurd (h.unquit e)
turn_at-Inv reading quit s e f h = record {
  settled = λ d. absurd (ground (arith, d, f));
  asked = h.asked;
  answered = λ m. absurd (ground (arith, (h.answered m).0, f));
  unquit = λ q. absurd (ground (arith, q));
}
turn_at-Inv reading run s e f h = record {
  settled = λ d. absurd (ground (arith, d, f));
  asked = h.asked;
  answered = h.answered;
  unquit = λ q. absurd (ground (arith, q));
}
turn_at-Inv reading park s e f h = record {
  settled = λ _ _ q. absurd (ground (arith, q));
  asked = h.asked;
  answered = h.answered;
  unquit = λ q. absurd (ground (arith, q));
}

see_ack-Inv : (s : System) → s.main ≡ waiting → Inv s → Inv (see_ack s)
unfolding see_ack IsQuiet
see_ack-Inv s w h = record {
  settled = h.settled;
  asked = λ _. h.asked w;
  answered = λ e. (h.asked w, acked s.ack e);
  unquit = h.unquit;
}
  where
    acked :
        (a : Command)
        → (elim a as (λ x. MainPlace) [ park ↦ resetting | run ↦ waiting | quit ↦ waiting ])
          ≡ resetting
        → a ≡ park
    acked park e = refl
    acked run e = absurd (ground (arith, e))
    acked quit e = absurd (ground (arith, e))

Step-Inv :
    {s s' : System}
    → Step s s'
    → (s.main ≡ elsewhere → s'.main ≡ waiting → s.ack ≡ s.cmd)
    → Inv s
    → Inv s'
unfolding task_turn write_park time_out write_run leave_parked write_quit IsQuiet
Step-Inv (task_moves s) p h = turn_at-Inv s.task s.cmd s refl refl h
Step-Inv (sees s w) p h = see_ack-Inv s w h
Step-Inv (parks s m) p h = record {
  settled = λ c a. h.settled (sym (p m refl) ∙ a) a;
  asked = λ _. refl;
  answered = λ e. absurd (ground (arith, e));
  unquit = h.unquit;
}
Step-Inv (times_out s w) p h = record {
  settled = h.settled;
  asked = λ e. absurd (ground (arith, e));
  answered = λ e. absurd (ground (arith, e));
  unquit = h.unquit;
}
Step-Inv (runs s m) p h = record {
  settled = λ e. absurd (ground (arith, e));
  asked = λ e. absurd (ground (arith, e));
  answered = λ e. absurd (ground (arith, e));
  unquit = h.unquit;
}
Step-Inv (rests s m) p h = record {
  settled = h.settled;
  asked = λ e. absurd (ground (arith, e));
  answered = λ e. absurd (ground (arith, e));
  unquit = h.unquit;
}
Step-Inv (quits s m) p h = record {
  settled = λ e. absurd (ground (arith, e));
  asked = λ e. absurd (ground (arith, e));
  answered = λ e. absurd (ground (arith, e));
  unquit = h.unquit;
}

run-Inv : {s : System} → Run s → Inv s
unfolding started IsQuiet
run-Inv begins = record {
  settled = λ _ _ e. absurd (ground (arith, e));
  asked = λ _. refl;
  answered = λ _. (refl, refl);
  unquit = λ q. absurd (ground (arith, q));
}
run-Inv (goes s s' r step patient) = Step-Inv step patient (run-Inv r)

-- In every interleaving of the two sides in which each `ParkDecTask` begins when the task has
-- acknowledged the command before it, and in which some of its waits may end by the timeout, with the
-- resets after that too: while the loop resets the cursors and the decoder after an acknowledgement,
-- the task is in no pass of the pump, and it has read and acknowledged the command to park.
pub resetting-IsQuiet :
    (s : System) → Run s → s.main ≡ resetting → (IsQuiet s) × (s.cmd ≡ park) × (s.ack ≡ park)
resetting-IsQuiet s r m = let h = run-Inv r in let (c, a) = h.answered m in (h.settled c a, c, a)

reads :
    (s : System) → s.task ≡ reading → s.cmd ≡ park → task_turn s ≡ record s { task = passing park }
unfolding task_turn turn_at
reads s e c = at s.task s.cmd e c
  where
    at :
        (t : TaskPlace) (d : Command)
        → t ≡ reading
        → d ≡ park
        → turn_at t d s ≡ record s { task = passing park }
    at t d e c = rw (e, c) refl

acks :
    (d : Command) (s : System)
    → s.task ≡ passing d
    → task_turn s ≡ record s { ack = d; beat = (s.beat + 1) % 2 ^ 32; task = reading }
unfolding task_turn turn_at
acks d s e = rest s.task s.cmd e
  where
    rest :
        (t : TaskPlace) (c : Command)
        → t ≡ passing d
        → turn_at t c s ≡ record s { ack = d; beat = (s.beat + 1) % 2 ^ 32; task = reading }
    rest t c e = rw e refl

-- Wherever a task that has not ended stands when the command to park is written, three of its steps
-- later it has acknowledged it, so the wait ends.
pub park_answered :
    (s : System) → s.cmd ≡ park → s.task ≢ exited → (task_turn (task_turn (task_turn s))).ack ≡ park
unfolding task_turn turn_at
park_answered s c e = three s.task refl
  where
    three : (t : TaskPlace) → s.task ≡ t → (task_turn (task_turn (task_turn s))).ack ≡ park
    three exited f = absurd (e f)
    three reading f =
        ap (λ (x : System). (task_turn (task_turn x)).ack) (reads s f c)
        ∙ ap (λ (x : System). x.ack) (reads _ refl c)
    three (passing d) f =
        ap (λ (x : System). (task_turn (task_turn x)).ack) (acks d s f)
        ∙ ap (λ (x : System). (task_turn x).ack) (reads _ refl c)
