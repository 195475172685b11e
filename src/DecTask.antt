-- ===== src/DecTask.antt =====
-- src/os9/casquinha.c: the preemptive decode task and the commands that the event loop gives it. The
-- two run in any interleaving of their reads and writes of the shared words.
pub mod Protocol
mod Tests
use casquinha.Prelude.{◌⊎◌, ℕ, suc, ◌+◌, ◌%◌, ◌^◌, ◌≡◌, Bool, true, false}

-- `CQ_DEC_PARK`, `CQ_DEC_RUN` and `CQ_DEC_QUIT`
pub data Command : Type 0 where
  park run quit : Command

-- Where `DecodeTaskProc` stands: before it reads the command, in a pass with the command it has read,
-- or after its loop.
pub data TaskPlace : Type 0 where
  reading exited : TaskPlace
  passing : Command → TaskPlace

-- Where the loop stands: elsewhere, in the wait of `ParkDecTask`, in the resets of the caller after the
-- acknowledgement or after the timeout, or after `CQ_DEC_QUIT`.
pub data MainPlace : Type 0 where
  elsewhere waiting resetting late_resetting quitting : MainPlace

-- `gDecCmd`, `gDecAck`, `gDecBeat` and `gMPDecode`, with the two places.
pub record System : Type 0 where
  pub cmd : Command
  pub ack : Command
  pub beat : ℕ
  pub mp_decode : Bool
  pub task : TaskPlace
  pub main : MainPlace

-- `StartDecTask`, when the task is made.
pub started : System
started = record {
  cmd = park;
  ack = park;
  beat = 0;
  mp_decode = true;
  task = reading;
  main = elsewhere;
}

-- The next read or write of `DecodeTaskProc`; a pass with `run` is one of `cq_decring_pump`.
pub turn_at : TaskPlace → Command → System → System
turn_at exited c s = s
turn_at (passing d) c s = record s { ack = d; beat = (s.beat + 1) % 2 ^ 32; task = reading }
turn_at reading quit s = record s { ack = quit; task = exited }
turn_at reading run s = record s { task = passing run }
turn_at reading park s = record s { task = passing park }

pub task_turn : System → System
task_turn s = turn_at s.task s.cmd s

-- `ParkDecTask`: the write before its wait, the test that ends the wait, and its timeout, after which
-- the caller goes on to its resets as well.
pub write_park : System → System
write_park s = record s { cmd = park; main = waiting }

pub see_ack : System → System
see_ack s = record s { main = elim s.ack [ park ↦ resetting | run ↦ waiting | quit ↦ waiting ] }

pub time_out : System → System
time_out s = record s { mp_decode = false; main = late_resetting }

-- `OpenAudioOutput` after its `ParkDecTask`, and then `ServiceAudio`
pub write_run : System → System
write_run s = record s { cmd = run; mp_decode = true; main = elsewhere }

-- The resets, after the acknowledgement or after the timeout.
pub IsResetting : MainPlace → Type 0
IsResetting p = (p ≡ resetting) ⊎ (p ≡ late_resetting)

-- The end of `StopAudio`: the task stays parked.
pub leave_parked : System → System
leave_parked s = record s { main = elsewhere }

-- `QuitDecTask` after its `ParkDecTask`
pub write_quit : System → System
write_quit s = record s { cmd = quit; main = quitting }

-- One step of either side. The event loop parks, waits, resets, with or without the acknowledgement,
-- and then lets the task run, leaves it parked, or ends it.
pub data Step : System → System → Type 0 where
  task_moves : (s : System) → Step s (task_turn s)
  parks : (s : System) → s.main ≡ elsewhere → Step s (write_park s)
  sees : (s : System) → s.main ≡ waiting → Step s (see_ack s)
  times_out : (s : System) → s.main ≡ waiting → Step s (time_out s)
  runs : (s : System) → IsResetting s.main → Step s (write_run s)
  rests : (s : System) → IsResetting s.main → Step s (leave_parked s)
  quits : (s : System) → IsResetting s.main → Step s (write_quit s)
