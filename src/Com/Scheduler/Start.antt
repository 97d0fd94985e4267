-- ===== src/Com/Scheduler/Start.antt =====
-- Starting programs, also a second time: crates/craftec-com/src/scheduler.rs.
use craftec.Prelude.{
  ℕ, ◌<◌, ◌≡◌, refl, arith, List, Option, none, some, Bool, true, false, inl, inr, ◌⊎◌, ◌==◌,
  eq_refl, if◌then◌else◌, Bool-cases, ap, ◌∙◌,
}
use craftec.Prelude.Assoc.{lookup, insert, lookup-insert, lookup-remove}
use craftec.Prelude.Result.{Result, ok, err}
use craftec.Com.Scheduler.{
  Text, ComError, Scheduler, Task, ProgramState, loaded, running, stopped, quarantined, executing,
  scheduler_error, binary_not_found, store_error, check_start, fetched, launch, start_program,
  load_program, stop_program, abort_task, abort, is_executing, runs_in, is_running_state,
}
use craftec.Com.Scheduler.Valid.{IsValid}
use craftec.Com.Scheduler.Turn.{IsLive}

launch-IsLive :
    (now cid : ℕ) (wasm_bytes : List ℕ) (s : Scheduler)
    → IsLive s.next_task cid 0 (launch now cid wasm_bytes s)
unfolding launch
launch-IsLive now cid wasm_bytes s =
    let task : Task = record {
      cid = cid;
      wasm_bytes = wasm_bytes;
      local_crash_count = 0;
      phase = executing;
      aborted = false;
    } in
    record {
      task = task;
      there = rw (lookup-insert s.next_task s.next_task task s.tasks, eq_refl s.next_task) refl;
      same_cid = refl;
      counts = refl;
      waits = refl;
      kept = refl;
      runs =
          rw (lookup-insert cid cid (running cid now) s.programs, eq_refl cid)
            (unfold runs_in is_running_state in refl);
    }

-- The program was loaded, or has stopped.
unfoldable pub startable : Option ProgramState → Bool
startable none = false
startable (some (loaded cid at)) = true
startable (some (running cid at)) = false
startable (some (stopped cid reason)) = true
startable (some (quarantined cid crashes e)) = false

check_start-startable :
    (cid : ℕ) (o : Option ProgramState)
    → ((startable o ≡ true) × (check_start cid o ≡ ok tt))
      ⊎ ((startable o ≡ false) × (e : ComError) × (check_start cid o ≡ err e))
unfolding startable check_start
check_start-startable cid none = inr (refl, _, refl)
check_start-startable cid (some (loaded c at)) = inl (refl, refl)
check_start-startable cid (some (running c at)) = inr (refl, _, refl)
check_start-startable cid (some (stopped c reason)) = inl (refl, refl)
check_start-startable cid (some (quarantined c crashes e)) = inr (refl, _, refl)

-- The store has the binary.
unfoldable pub found : Result (Option (List ℕ)) Text → Bool
found (ok (some wasm_bytes)) = true
found (ok none) = false
found (err e) = false

-- A start succeeds exactly where the program was loaded or has stopped and the store has its
-- binary. Then a new task waits for its first agent, with no crash counted, and the program runs;
-- otherwise nothing changes.
pub start_program_lem :
    (now cid : ℕ) (answer : Result (Option (List ℕ)) Text) (s : Scheduler)
    → ((startable (lookup cid s.programs) ≡ true)
        × (found answer ≡ true)
        × ((start_program now cid answer s).1 ≡ ok tt)
        × IsLive s.next_task cid 0 (start_program now cid answer s).0)
      ⊎ (((startable (lookup cid s.programs) ≡ false) ⊎ (found answer ≡ false))
          × (e : ComError) × (start_program now cid answer s ≡ (s, err e)))
unfolding start_program
start_program_lem now cid answer s = elim (check_start-startable cid (lookup cid s.programs)) [
  | inl (h, e) ↦ by_answer h e answer
  | inr (h, x, e) ↦ inr (inl h, x, refused x e)
]
  where
    refused :
        (x : ComError)
        → check_start cid (lookup cid s.programs) ≡ err x
        → start_program now cid answer s ≡ (s, err x)
    refused x e = rw (e, start_program) refl

    by_answer :
        startable (lookup cid s.programs) ≡ true
        → check_start cid (lookup cid s.programs) ≡ ok tt
        → (a : Result (Option (List ℕ)) Text)
        → ((startable (lookup cid s.programs) ≡ true)
            × (found a ≡ true)
            × ((start_program now cid a s).1 ≡ ok tt)
            × IsLive s.next_task cid 0 (start_program now cid a s).0)
          ⊎ (((startable (lookup cid s.programs) ≡ false) ⊎ (found a ≡ false))
              × (e : ComError) × (start_program now cid a s ≡ (s, err e)))
    by_answer h e (ok (some bytes)) = inl (
      h,
      unfold found in refl,
      rw (e, start_program) (unfold fetched in refl),
      rw (e, start_program) (unfold fetched in launch-IsLive now cid bytes s),
    )
    by_answer h e (ok none) = inr (
      inr (unfold found in refl),
      scheduler_error (binary_not_found cid),
      rw (e, start_program) (unfold fetched in refl),
    )
    by_answer h e (err x) = inr (
      inr (unfold found in refl),
      scheduler_error (store_error x),
      rw (e, start_program) (unfold fetched in refl),
    )

launch-keeps :
    (now cid id count : ℕ) (wasm_bytes : List ℕ) (ps : List (ℕ × ProgramState)) (s : Scheduler)
    (l : IsLive id cid count s)
    → id < s.next_task
    → IsLive id cid count (launch now cid wasm_bytes (record s { programs = ps }))
unfolding launch
launch-keeps now cid id count wasm_bytes ps s l below =
    let task : Task = record {
      cid = cid;
      wasm_bytes = wasm_bytes;
      local_crash_count = 0;
      phase = executing;
      aborted = false;
    } in
    let other : (s.next_task == id) ≡ false = ground arith in
    record {
      task = l.task;
      there = rw (lookup-insert s.next_task id task s.tasks, other) l.there;
      same_cid = l.same_cid;
      counts = l.counts;
      waits = l.waits;
      kept = l.kept;
      runs =
          rw (lookup-insert cid cid (running cid now) ps, eq_refl cid)
            (unfold runs_in is_running_state in refl);
    }

-- What an abort leaves of a task that waits for its agent.
abbrev pub remains : Bool → Task → Option Task
remains polled task = if polled then some (record task { aborted = true }) else none

stop-tasks :
    (polled : Bool) (cid : ℕ) (reason : Text) (s : Scheduler) (task : Task) {st : ProgramState}
    {id : ℕ}
    → lookup cid s.programs ≡ some st
    → lookup cid s.task_handles ≡ some id
    → lookup id s.tasks ≡ some task
    → is_executing task.phase ≡ true
    → (j : ℕ)
    → lookup j (stop_program polled cid reason s).0.tasks
      ≡ (if id == j then remains polled task else lookup j s.tasks)
unfolding stop_program abort_task abort
stop-tasks true cid reason s task {id = id} e h t p j =
    rw (e, stop_program, h, abort_task, t, abort, p)
      (lookup-insert id j (record task { aborted = true }) s.tasks)
stop-tasks false cid reason s task {id = id} e h t p j =
    rw (e, stop_program, h, abort_task, t, abort) (lookup-remove id j s.tasks)

-- The task that a launch adds.
abbrev pub launched_task : ℕ → List ℕ → Task
launched_task cid wasm_bytes = record {
  cid = cid;
  wasm_bytes = wasm_bytes;
  local_crash_count = 0;
  phase = executing;
  aborted = false;
}

-- What is left of the tasks when a launched program is stopped.
stop-launch :
    (polled : Bool) (now cid : ℕ) (wasm_bytes : List ℕ) (reason : Text) (s : Scheduler) (id : ℕ)
    → lookup id (stop_program polled cid reason (launch now cid wasm_bytes s)).0.tasks ≡ (
        if s.next_task == id
        then remains polled (launched_task cid wasm_bytes)
        else lookup id s.tasks)
unfolding launch
stop-launch polled now cid wasm_bytes reason s id =
    let task : Task = record {
      cid = cid;
      wasm_bytes = wasm_bytes;
      local_crash_count = 0;
      phase = executing;
      aborted = false;
    } in
    let here : lookup cid (insert cid (running cid now) s.programs) ≡ some (running cid now) =
      rw (lookup-insert cid cid (running cid now) s.programs, eq_refl cid) refl in
    let handle : lookup cid (insert cid s.next_task s.task_handles) ≡ some s.next_task =
      rw (lookup-insert cid cid s.next_task s.task_handles, eq_refl cid) refl in
    let there : lookup s.next_task (insert s.next_task task s.tasks) ≡ some task =
      rw (lookup-insert s.next_task s.next_task task s.tasks, eq_refl s.next_task) refl in
    rw
      (
        stop-tasks polled cid reason (launch now cid wasm_bytes s) task here handle there
            (unfold is_executing in refl) id,
        lookup-insert s.next_task id task s.tasks,
      )
      (elim (Bool-cases (s.next_task == id)) [ inl h ↦ rw h refl | inr h ↦ rw h refl ])

load-fine :
    (compile : List ℕ → Option Text) (now cid : ℕ) (wasm_bytes : List ℕ) (s : Scheduler)
    → compile wasm_bytes ≡ none
    → (load_program compile now cid wasm_bytes s).0
      ≡ record s { programs = insert cid (loaded cid now) s.programs }
unfolding load_program
load-fine compile now cid wasm_bytes s fine = rw (fine, load_program) refl

start-loaded :
    (now cid : ℕ) (wasm_bytes : List ℕ) (s : Scheduler) {c at : ℕ}
    → lookup cid s.programs ≡ some (loaded c at)
    → (start_program now cid (ok (some wasm_bytes)) s).0 ≡ launch now cid wasm_bytes s
unfolding start_program check_start fetched
start-loaded now cid wasm_bytes s e = rw (e, start_program) refl

-- `load_program` and `start_program` in a row, where the store has the loaded bytes.
abbrev pub reload : (List ℕ → Option Text) → ℕ → ℕ → List ℕ → Scheduler → Scheduler
reload compile now cid wasm_bytes s =
    (start_program now cid (ok (some wasm_bytes)) (load_program compile now cid wasm_bytes s).0).0

reload-launch :
    (compile : List ℕ → Option Text) (now cid : ℕ) (wasm_bytes : List ℕ) (s : Scheduler)
    → compile wasm_bytes ≡ none
    → reload compile now cid wasm_bytes s
      ≡ launch now cid wasm_bytes (record s { programs = insert cid (loaded cid now) s.programs })
reload-launch compile now cid wasm_bytes s fine =
    ap (λ t. (start_program now cid (ok (some wasm_bytes)) t).0)
      (load-fine compile now cid wasm_bytes s fine)
    ∙ start-loaded now cid wasm_bytes
        (record s { programs = insert cid (loaded cid now) s.programs }) {c = cid} {at = now}
        (rw (lookup-insert cid cid (loaded cid now) s.programs, eq_refl cid) refl)

below-next :
    (id cid count : ℕ) (s : Scheduler) → IsValid s → IsLive id cid count s → id < s.next_task
below-next id cid count s v l = let below = v.fresh id in rw l.there at below

-- In a valid state, loading a program again while a task of it goes on, with bytes that compile,
-- lets it be started a second time: then two tasks go on for it, and stopping it aborts the later
-- one only: that is gone, or goes away at its next wait where its agent is running already.
pub reload-doubles :
    (polled : Bool) (compile : List ℕ → Option Text) (now cid id count : ℕ) (wasm_bytes : List ℕ)
    (reason : Text) (s : Scheduler)
    → IsValid s
    → IsLive id cid count s
    → compile wasm_bytes ≡ none
    → IsLive id cid count (reload compile now cid wasm_bytes s)
      × IsLive s.next_task cid 0 (reload compile now cid wasm_bytes s)
      × (id < s.next_task)
      × (lookup s.next_task
            (stop_program polled cid reason (reload compile now cid wasm_bytes s)).0.tasks
          ≡ remains polled (launched_task cid wasm_bytes))
      × (lookup id (stop_program polled cid reason (reload compile now cid wasm_bytes s)).0.tasks
          ≡ lookup id s.tasks)
reload-doubles polled compile now cid id count wasm_bytes reason s v l fine =
    let s' : Scheduler = record s { programs = insert cid (loaded cid now) s.programs } in
    let below = below-next id cid count s v l in
    let other : (s.next_task == id) ≡ false = ground arith in
    rw (reload-launch compile now cid wasm_bytes s fine) (
      launch-keeps now cid id count wasm_bytes _ s l below,
      launch-IsLive now cid wasm_bytes s',
      below,
      rw (stop-launch polled now cid wasm_bytes reason s' s.next_task, eq_refl s.next_task) refl,
      rw (stop-launch polled now cid wasm_bytes reason s' id, other) refl,
    )
