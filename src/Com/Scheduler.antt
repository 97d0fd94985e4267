-- ===== src/Com/Scheduler.antt =====
-- The life cycle of programs: crates/craftec-com/src/scheduler.rs and error.rs. Content ids,
-- instants and task ids are numbers, texts are lists of characters. A spawned task is an entry of
-- `tasks`, and stands at one of two points: it waits for its agent, or it sleeps. `finish` and
-- `wake` are what it does from one such point to the next. An abort takes effect where a task next
-- waits: a task that sleeps goes away at once, and so does one whose agent has not begun, but one
-- whose agent is running first does what follows on the agent's end. Which of these holds for a
-- task that waits for its agent is the argument `polled`. Whether bytes compile is a parameter, and
-- what the store and the agent answer are arguments.
pub mod Valid
pub mod Steps
pub mod Turn
pub mod Loop
pub mod Start
use craftec.Prelude.{
  ℕ, ◌+◌, ◌*◌, ◌^◌, min, List, [], ◌∷◌, Option, none, some, Bool, true, false, ◌&&◌, leb, ltb,
  if◌then◌else◌, length,
}
use craftec.Prelude.Result.{Result, ok, err}
use craftec.Prelude.Sort.{sort_by_key}
use craftec.Prelude.Assoc.{lookup, insert, remove}

abbrev pub Text : Type 0
Text = List ℕ

-- The texts that the scheduler formats into its errors.
pub data SchedulerMessage : Type 0 where
  already_running : ℕ → SchedulerMessage
  is_quarantined : ℕ → SchedulerMessage
  store_error : Text → SchedulerMessage
  binary_not_found : ℕ → SchedulerMessage

pub data ComError : Type 0 where
  wasm_compilation_failed : Text → ComError
  fuel_exhausted : ℕ → ℕ → ComError
  host_function_error : Text → Text → ComError
  program_not_found : ℕ → ComError
  scheduler_error : SchedulerMessage → ComError
  runtime_config_error : Text → ComError
  entry_point_not_found : Text → ComError
  trap : Text → ComError
  sql_error : Text → ComError

-- The reason of a quarantine is the number of crashes and the last error.
pub data ProgramState : Type 0 where
  loaded : ℕ → ℕ → ProgramState
  running : ℕ → ℕ → ProgramState
  stopped : ℕ → Text → ProgramState
  quarantined : ℕ → ℕ → ComError → ProgramState

unfoldable pub wasm_cid : ProgramState → ℕ
wasm_cid (loaded cid at) = cid
wasm_cid (running cid at) = cid
wasm_cid (stopped cid reason) = cid
wasm_cid (quarantined cid crashes e) = cid

unfoldable pub is_running_state : ProgramState → Bool
is_running_state (loaded cid at) = false
is_running_state (running cid at) = true
is_running_state (stopped cid reason) = false
is_running_state (quarantined cid crashes e) = false

-- A task waits for its agent, or sleeps for a number of milliseconds.
pub data Phase : Type 0 where
  executing : Phase
  sleeping : ℕ → Phase

pub record Task : Type 0 where
  pub cid : ℕ
  pub wasm_bytes : List ℕ
  pub local_crash_count : ℕ
  pub phase : Phase
  pub aborted : Bool

pub record Scheduler : Type 0 where
  pub programs : List (ℕ × ProgramState)
  pub task_handles : List (ℕ × ℕ)
  pub crash_counts : List (ℕ × ℕ)
  pub tasks : List (ℕ × Task)
  pub next_task : ℕ

abbrev pub crash_quarantine_threshold : ℕ
crash_quarantine_threshold = 10

abbrev pub new : Scheduler
new = record { programs = []; task_handles = []; crash_counts = []; tasks = []; next_task = 0 }

-- `compile` is the error of compiling the bytes, if there is one.
unfoldable pub load_program :
    (List ℕ → Option Text) → ℕ → ℕ → List ℕ → Scheduler → Scheduler × Result (Unit {0}) ComError
load_program compile now cid wasm_bytes s = elim (compile wasm_bytes) [
  | some e ↦ (s, err (wasm_compilation_failed e))
  | none ↦ (record s { programs = insert cid (loaded cid now) s.programs }, ok tt)
]

-- The guard of `start_program`, by the state of the program.
unfoldable pub check_start : ℕ → Option ProgramState → Result (Unit {0}) ComError
check_start cid none = err (program_not_found cid)
check_start cid (some (running c at)) = err (scheduler_error (already_running cid))
check_start cid (some (quarantined c crashes e)) = err (scheduler_error (is_quarantined cid))
check_start cid (some (loaded c at)) = ok tt
check_start cid (some (stopped c reason)) = ok tt

-- What the store answered, as the bytes to run.
unfoldable pub fetched : ℕ → Result (Option (List ℕ)) Text → Result (List ℕ) ComError
fetched cid (err e) = err (scheduler_error (store_error e))
fetched cid (ok none) = err (scheduler_error (binary_not_found cid))
fetched cid (ok (some wasm_bytes)) = ok wasm_bytes

-- `start_program` after its awaits: the program runs, with a new task.
unfoldable pub launch : ℕ → ℕ → List ℕ → Scheduler → Scheduler
launch now cid wasm_bytes s = record s {
  programs = insert cid (running cid now) s.programs;
  crash_counts = insert cid 0 s.crash_counts;
  tasks =
      insert s.next_task
        (record {
          cid = cid;
          wasm_bytes = wasm_bytes;
          local_crash_count = 0;
          phase = executing;
          aborted = false;
        })
        s.tasks;
  task_handles = insert cid s.next_task s.task_handles;
  next_task = s.next_task + 1;
}

-- The whole of `start_program`, with no other step between its check and its end.
unfoldable pub start_program :
    ℕ → ℕ → Result (Option (List ℕ)) Text → Scheduler → Scheduler × Result (Unit {0}) ComError
unfolding check_start fetched lookup
start_program now cid answer s = elim (check_start cid (lookup cid s.programs)) [
  | err e ↦ (s, err e)
  | ok u ↦ elim (fetched cid answer) [
    | err e ↦ (s, err e)
    | ok wasm_bytes ↦ (launch now cid wasm_bytes s, ok tt)
  ]
]

unfoldable pub is_executing : Phase → Bool
is_executing executing = true
is_executing (sleeping delay) = false

-- `JoinHandle::abort`. A task that has ended already is not there.
unfoldable pub abort : Bool → ℕ → Scheduler → Scheduler
unfolding is_executing lookup
abort polled id s = elim (lookup id s.tasks) [
  | none ↦ s
  | some task ↦
      if polled && is_executing task.phase
      then record s { tasks = insert id (record task { aborted = true }) s.tasks }
      else record s { tasks = remove id s.tasks }
]

-- Removes the program's handle, if there is one, and aborts its task.
unfoldable pub abort_task : Bool → ℕ → Scheduler → Scheduler
unfolding abort lookup
abort_task polled cid s = elim (lookup cid s.task_handles) [
  | none ↦ s
  | some id ↦ abort polled id (record s { task_handles = remove cid s.task_handles })
]

-- `polled` says whether the agent of the program's task is running at that moment.
unfoldable pub stop_program : Bool → ℕ → Text → Scheduler → Scheduler × Result (Unit {0}) ComError
unfolding abort_task lookup
stop_program polled cid reason s = elim (lookup cid s.programs) [
  | none ↦ (s, err (program_not_found cid))
  | some st ↦
      let s' = abort_task polled cid s in
      (record s' { programs = insert cid (stopped cid reason) s'.programs }, ok tt)
]

-- How the agent of a task ended.
pub data Outcome : Type 0 where
  completed : Outcome
  failed : ComError → Outcome

unfoldable pub backoff_secs : ℕ → ℕ
backoff_secs local_crash_count = 2 ^ min local_crash_count 6

-- The last arm of the loop's match: the program crashed.
unfoldable pub crash : ℕ → Task → ComError → Scheduler → Scheduler
unfolding backoff_secs
crash id task e s =
    let count = task.local_crash_count + 1 in
    let counted = record s { crash_counts = insert task.cid count s.crash_counts } in
    if leb crash_quarantine_threshold count
    then record counted {
      programs = insert task.cid (quarantined task.cid count e) s.programs;
      tasks = remove id s.tasks;
    }
    else record counted {
      tasks =
          insert id
            (record task {
              local_crash_count = count;
              phase = sleeping (backoff_secs count * 1000);
            })
            s.tasks;
    }

-- The loop's match on the outcome of the agent.
unfoldable pub finish_task : ℕ → Task → Outcome → Scheduler → Scheduler
unfolding crash
finish_task id task completed s = record s {
  crash_counts = insert task.cid 0 s.crash_counts;
  tasks = insert id (record task { local_crash_count = 0; phase = sleeping 1000 }) s.tasks;
}
finish_task id task (failed (fuel_exhausted consumed limit)) s = record s {
  tasks = insert id (record task { phase = sleeping 100 }) s.tasks;
}
finish_task id task (failed e) s = crash id task e s

-- At its next wait a task that was aborted goes away.
unfoldable pub settle : ℕ → Bool → Scheduler → Scheduler
settle id aborted s = if aborted then record s { tasks = remove id s.tasks } else s

-- A task that is not there, or not at this point, does nothing.
unfoldable pub finish : ℕ → Outcome → Scheduler → Scheduler
unfolding finish_task settle lookup
finish id outcome s = elim (lookup id s.tasks) [
  | none ↦ s
  | some task ↦ elim task.phase [
    | executing ↦ settle id task.aborted (finish_task id task outcome s)
    | sleeping delay ↦ s
  ]
]

unfoldable pub runs_in : Option ProgramState → Bool
unfolding is_running_state
runs_in none = false
runs_in (some st) = is_running_state st

unfoldable pub is_running : Scheduler → ℕ → Bool
unfolding runs_in lookup
is_running s cid = runs_in (lookup cid s.programs)

-- The end of the loop's body: the task goes on while its program runs.
unfoldable pub wake : ℕ → Scheduler → Scheduler
unfolding is_running lookup
wake id s = elim (lookup id s.tasks) [
  | none ↦ s
  | some task ↦ elim task.phase [
    | executing ↦ s
    | sleeping delay ↦
        if is_running s task.cid
        then record s { tasks = insert id (record task { phase = executing }) s.tasks }
        else record s { tasks = remove id s.tasks }
  ]
]

abbrev pub state : Scheduler → ℕ → Option ProgramState
state s cid = lookup cid s.programs

unfoldable pub program_count : Scheduler → ℕ
program_count s = length s.programs

-- Sorted by content id.
unfoldable pub list_programs : Scheduler → List (ℕ × ProgramState)
list_programs s = sort_by_key s.programs
