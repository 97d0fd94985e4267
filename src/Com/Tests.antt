-- ===== src/Com/Tests.antt =====
-- Examples for the code: a program that is loaded, started, and crashes.
use craftec.Prelude.{
  ℕ, ◌≡◌, ◌<◌, ◌⊎◌, refl, arith, List, [], ◌∷◌, ◌++◌, Option, none, some, true, false, replicate,
}
use craftec.Prelude.Assoc.{lookup, insert}
use craftec.Prelude.Result.{ok, err}
use craftec.Com.Scheduler.{
  Text, Scheduler, Outcome, ComError, loaded, running, load_program, launch, start_program,
  stop_program, executing, completed, failed, fuel_exhausted, trap, runs_in, is_running_state,
}
use craftec.Com.Scheduler.Valid.{IsValid}
use craftec.Com.Scheduler.Steps.{Reachable, start, step, load, launched, Reachable-IsValid}
use craftec.Com.Scheduler.Turn.{
  IsLive, IsQuarantined, turns, crashes, is_crash, none_completed, is_completed,
}
use craftec.Com.Scheduler.Loop.{streak-IsQuarantined}
use craftec.Com.Scheduler.Start.{
  startable, found, reload, remains, launched_task, start_program_lem, reload-doubles,
}

abbrev accepts : List ℕ → Option Text
accepts wasm_bytes = none

-- Program 7 was loaded at time 1.
abbrev with_program : Scheduler
with_program = record {
  programs = (7, loaded 7 1) ∷ [];
  task_handles = [];
  crash_counts = [];
  tasks = [];
  next_task = 0;
}

-- It was started at time 2, and its task waits for its agent.
abbrev started : Scheduler
started = record {
  programs = (7, running 7 2) ∷ [];
  task_handles = (7, 0) ∷ [];
  crash_counts = (7, 0) ∷ [];
  tasks =
      (
        0,
        record {
          cid = 7;
          wasm_bytes = 0 ∷ 97 ∷ [];
          local_crash_count = 0;
          phase = executing;
          aborted = false;
        },
      )
      ∷ [];
  next_task = 1;
}

started-Reachable : Reachable started
unfolding load_program launch insert
started-Reachable = step (step start (load accepts 1 7 (0 ∷ 97 ∷ []))) (launched 2 7 (0 ∷ 97 ∷ []))

Reachable-IsValid_example : IsValid started
Reachable-IsValid_example = Reachable-IsValid started-Reachable

started-IsLive : IsLive 0 7 0 started
unfolding lookup insert launch load_program runs_in is_running_state
started-IsLive = record {
  task = record {
    cid = 7;
    wasm_bytes = 0 ∷ 97 ∷ [];
    local_crash_count = 0;
    phase = executing;
    aborted = false;
  };
  there = refl;
  same_cid = refl;
  counts = refl;
  waits = refl;
  kept = refl;
  runs = refl;
}

abbrev crash_run : List Outcome
crash_run = failed (fuel_exhausted 5 5) ∷ replicate 10 (failed (trap []))

streak-IsQuarantined_example :
    IsQuarantined 0 7
      (turns 0 ((failed (trap []) ∷ completed ∷ []) ++ (crash_run ++ (completed ∷ []))) started)
unfolding none_completed is_completed crashes is_crash
streak-IsQuarantined_example =
    streak-IsQuarantined 0 7 0 (failed (trap []) ∷ completed ∷ []) crash_run (completed ∷ [])
      started started-IsLive (omega arith) refl (omega arith)

start_program_lem_example :
    ((startable (lookup 7 with_program.programs) ≡ true)
      × (found (ok (some (0 ∷ []))) ≡ true)
      × ((start_program 2 7 (ok (some (0 ∷ []))) with_program).1 ≡ ok tt)
      × IsLive 0 7 0 (start_program 2 7 (ok (some (0 ∷ []))) with_program).0)
    ⊎ (((startable (lookup 7 with_program.programs) ≡ false) ⊎ (found (ok (some (0 ∷ []))) ≡ false))
        × (e : ComError) × (start_program 2 7 (ok (some (0 ∷ []))) with_program
            ≡ (with_program, err e)))
start_program_lem_example = start_program_lem 2 7 (ok (some (0 ∷ []))) with_program

reload-doubles_example :
    IsLive 0 7 0 (reload accepts 3 7 (0 ∷ []) started)
    × IsLive 1 7 0 (reload accepts 3 7 (0 ∷ []) started)
    × (0 < 1)
    × (lookup 1 (stop_program true 7 [] (reload accepts 3 7 (0 ∷ []) started)).0.tasks
        ≡ remains true (launched_task 7 (0 ∷ [])))
    × (lookup 0 (stop_program true 7 [] (reload accepts 3 7 (0 ∷ []) started)).0.tasks
        ≡ lookup 0 started.tasks)
reload-doubles_example =
    reload-doubles true accepts 3 7 0 0 (0 ∷ []) [] started Reachable-IsValid_example started-IsLive
      refl
