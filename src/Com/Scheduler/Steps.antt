-- ===== src/Com/Scheduler/Steps.antt =====
-- The steps of a scheduler and of its tasks, in any order: crates/craftec-com/src/scheduler.rs.
use craftec.Prelude.{
  ℕ, ◌+◌, ◌<◌, ◌≡◌, refl, arith, List, Option, none, some, Bool, true, false, ◌&&◌, ◌⊎◌, inl, inr,
  ◌==◌, eq_refl, leb, if◌then◌else◌, Bool-cases, Option-cases,
}
use craftec.Prelude.Assoc.{lookup, insert, remove, lookup-insert, lookup-remove}
use craftec.Com.Scheduler.{
  Text, ComError, Scheduler, Task, Phase, Outcome, loaded, running, stopped, quarantined, executing,
  sleeping, completed, failed, fuel_exhausted, new, load_program, launch, wasm_compilation_failed,
  host_function_error, program_not_found, scheduler_error, runtime_config_error,
  entry_point_not_found, trap, sql_error, stop_program, abort_task, abort, is_executing, settle,
  finish, finish_task, crash, wake, runs_in, is_running, wasm_cid, is_running_state,
}
use craftec.Com.Scheduler.Valid.{
  All, IsValid, end_task, mark_task, forget_handle, idle, missing-IsValid, new-IsValid,
  next_task-free, runs, update,
}

-- What can happen: a call that does all it has to, or what a task does from one of its awaits to the
-- next. A launch, which is the part of a start after its last await, may come any time after the
-- check. That other steps come in the middle of a call is not among these.
pub data Step : Scheduler → Scheduler → Type 0 where
  load :
      {s : Scheduler} (compile : List ℕ → Option Text) (now cid : ℕ) (wasm_bytes : List ℕ)
      → Step s (load_program compile now cid wasm_bytes s).0
  launched :
      {s : Scheduler} (now cid : ℕ) (wasm_bytes : List ℕ) → Step s (launch now cid wasm_bytes s)
  stop :
      {s : Scheduler} (polled : Bool) (cid : ℕ) (reason : Text)
      → Step s (stop_program polled cid reason s).0
  finished : {s : Scheduler} (id : ℕ) (outcome : Outcome) → Step s (finish id outcome s)
  woken : {s : Scheduler} (id : ℕ) → Step s (wake id s)

pub data Reachable : Scheduler → Type 0 where
  start : Reachable new
  step : {s t : Scheduler} → Reachable s → Step s t → Reachable t

-- A task id that is below stays below a greater one.
raised : (id : ℕ) (n : ℕ) (o : Option Task) → All (λ task. id < n) o → All (λ task. id < n + 1) o
raised id n none h = tt
raised id n (some t) h = omega (arith, h)

launch-IsValid :
    (now cid : ℕ) (wasm_bytes : List ℕ) (s : Scheduler)
    → IsValid s
    → IsValid (launch now cid wasm_bytes s)
unfolding launch runs runs_in
launch-IsValid now cid wasm_bytes s v =
    let free = next_task-free s v in
    let task : Task = record {
      cid = cid;
      wasm_bytes = wasm_bytes;
      local_crash_count = 0;
      phase = executing;
      aborted = false;
    } in
    let look = λ (j : ℕ). lookup-insert s.next_task j task s.tasks in
    record {
      named = λ c.
          rw (lookup-insert cid c (running cid now) s.programs) (elim (Bool-cases (cid == c)) [
            | inl h ↦ rw h (unfold wasm_cid in ground arith)
            | inr h ↦ rw h (v.named c)
          ]);
      kept_alive = λ c.
          rw (lookup-insert cid c (running cid now) s.programs) (elim (Bool-cases (cid == c)) [
            | inl h ↦ rw h (λ r. (s.next_task, rw (look s.next_task, eq_refl s.next_task) h))
            | inr h ↦ rw h (λ r.
                let (j, q) = v.kept_alive c r in
                (
                  j,
                  rw (look j) (elim (Bool-cases (s.next_task == j)) [
                    | inl e ↦
                        let same : s.next_task ≡ j = ground arith in
                        let q' = rw (← same, free, runs) at q in cc
                    | inr e ↦ rw e q
                  ]),
                ))
          ]);
      counted = λ j. rw (look j) (elim (Bool-cases (s.next_task == j)) [
        | inl h ↦ rw h (ground arith)
        | inr h ↦ rw h (v.counted j)
      ]);
      fresh = λ j. rw (look j) (elim (Bool-cases (s.next_task == j)) [
        | inl h ↦ rw h (ground arith)
        | inr h ↦ rw h (raised j s.next_task (lookup j s.tasks) (v.fresh j))
      ]);
      owned = λ c j handle.
          let handle' = rw (lookup-insert cid c s.next_task s.task_handles) at handle in
          elim (Bool-cases (cid == c)) [
            | inl h ↦
                let same : cid ≡ c = ground arith in
                let e : s.next_task ≡ j = (let h' = rw h at handle' in cc) in
                rw (← e) (omega arith, rw (look s.next_task, eq_refl s.next_task) same)
            | inr h ↦
                let o = v.owned c j (rw h at handle') in
                let below = o.0 in
                (
                  omega (arith, below),
                  rw (look j) (elim (Bool-cases (s.next_task == j)) [
                    | inl e ↦ absurd (ground arith)
                    | inr e ↦ rw e (o.1)
                  ]),
                )
          ];
    }

load-IsValid :
    (compile : List ℕ → Option Text) (now cid : ℕ) (wasm_bytes : List ℕ) (s : Scheduler)
    → IsValid s
    → IsValid (load_program compile now cid wasm_bytes s).0
unfolding load_program
load-IsValid compile now cid wasm_bytes s v = elim (Option-cases (compile wasm_bytes)) [
  | inl e ↦
      rw (e, load_program)
        (idle cid (loaded cid now) s (unfold wasm_cid in refl) (unfold is_running_state in refl) v)
  | inr (t, e) ↦ rw (e, load_program) v
]

stop-IsValid :
    (polled : Bool) (cid : ℕ) (reason : Text) (s : Scheduler)
    → IsValid s
    → IsValid (stop_program polled cid reason s).0
unfolding stop_program abort_task abort
stop-IsValid polled cid reason s v =
    let st = stopped cid reason in
    let halted : IsValid (record s { programs = insert cid st s.programs }) =
      idle cid st s (unfold wasm_cid in refl) (unfold is_running_state in refl) v in
    let here : lookup cid (insert cid st s.programs) ≡ some st =
      rw (lookup-insert cid cid st s.programs, eq_refl cid) refl in
    elim (Option-cases (lookup cid s.programs)) [
      | inl e ↦ rw (e, stop_program) v
      | inr (old, e) ↦ elim (Option-cases (lookup cid s.task_handles)) [
        | inl n ↦ rw (e, stop_program, n, abort_task) halted
        | inr (id, n) ↦ elim (Option-cases (lookup id s.tasks)) [
          | inl gone ↦ rw (e, stop_program, n, abort_task, gone, abort) (forget_handle cid _ halted)
          | inr (task, there) ↦
              let o = v.owned cid id n in
              let mine = o.1 in
              let mine' : task.cid ≡ cid = rw there at mine in
              let still : runs_in (lookup task.cid (insert cid st s.programs)) ≡ false =
                rw (mine', here) (unfold runs_in is_running_state in refl) in
              elim (Bool-cases (polled && is_executing task.phase)) [
                | inl h ↦
                    rw (e, stop_program, n, abort_task, there, abort, h)
                      (forget_handle cid _ (mark_task id task _ there still halted))
                | inr h ↦
                    rw (e, stop_program, n, abort_task, there, abort, h)
                      (forget_handle cid _
                        (end_task id task s.crash_counts _ there (inl still) halted))
              ]
        ]
      ]
    ]

crash-IsValid :
    (id : ℕ) (task : Task) (e : ComError) (s : Scheduler)
    → lookup id s.tasks ≡ some task
    → IsValid s
    → IsValid (crash id task e s)
unfolding crash
crash-IsValid id task e s there v = elim (Bool-cases (leb 10 (task.local_crash_count + 1))) [
  | inl h ↦
      let st = quarantined task.cid (task.local_crash_count + 1) e in
      let here : lookup task.cid (insert task.cid st s.programs) ≡ some st =
        rw (lookup-insert task.cid task.cid st s.programs, eq_refl task.cid) refl in
      rw h (
        end_task id task _ (record s { programs = insert task.cid st s.programs }) there
          (inl (rw here (unfold runs_in is_running_state in refl)))
          (idle task.cid st s (unfold wasm_cid in refl) (unfold is_running_state in refl) v))
  | inr h ↦ rw h (update id task _ _ s there refl refl (ground arith) v)
]

finish_task-IsValid :
    (id : ℕ) (task : Task) (outcome : Outcome) (s : Scheduler)
    → lookup id s.tasks ≡ some task
    → IsValid s
    → IsValid (finish_task id task outcome s)
unfolding finish_task
finish_task-IsValid id task completed s there v =
    update id task _ _ s there refl refl (ground arith) v
finish_task-IsValid id task (failed (fuel_exhausted c l)) s there v =
    let few = v.counted id in update id task _ s.crash_counts s there refl refl (rw there at few) v
finish_task-IsValid id task (failed (wasm_compilation_failed x)) s there v =
    crash-IsValid id task (wasm_compilation_failed x) s there v
finish_task-IsValid id task (failed (host_function_error x y)) s there v =
    crash-IsValid id task (host_function_error x y) s there v
finish_task-IsValid id task (failed (program_not_found x)) s there v =
    crash-IsValid id task (program_not_found x) s there v
finish_task-IsValid id task (failed (scheduler_error x)) s there v =
    crash-IsValid id task (scheduler_error x) s there v
finish_task-IsValid id task (failed (runtime_config_error x)) s there v =
    crash-IsValid id task (runtime_config_error x) s there v
finish_task-IsValid id task (failed (entry_point_not_found x)) s there v =
    crash-IsValid id task (entry_point_not_found x) s there v
finish_task-IsValid id task (failed (trap x)) s there v = crash-IsValid id task (trap x) s there v
finish_task-IsValid id task (failed (sql_error x)) s there v =
    crash-IsValid id task (sql_error x) s there v

-- After the loop's match the task is gone, or there and as much aborted as it was.
abbrev Left : ℕ → Bool → Scheduler → Type 0
Left id aborted s =
    (lookup id s.tasks ≡ none)
    ⊎ ((task : Task) × (lookup id s.tasks ≡ some task) × (task.aborted ≡ aborted))

stays :
    (id : ℕ) (task : Task) (s : Scheduler)
    → Left id task.aborted (record s { tasks = insert id task s.tasks })
stays id task s = inr (task, rw (lookup-insert id id task s.tasks, eq_refl id) refl, refl)

crash-Left :
    (id : ℕ) (task : Task) (e : ComError) (s : Scheduler) → Left id task.aborted (crash id task e s)
unfolding crash
crash-Left id task e s = elim (Bool-cases (leb 10 (task.local_crash_count + 1))) [
  | inl h ↦ rw h (inl (rw (lookup-remove id id s.tasks, eq_refl id) refl))
  | inr h ↦
      rw h (stays id (record task { local_crash_count = task.local_crash_count + 1; phase = _ }) s)
]

finish_task-Left :
    (id : ℕ) (task : Task) (outcome : Outcome) (s : Scheduler)
    → Left id task.aborted (finish_task id task outcome s)
unfolding finish_task
finish_task-Left id task completed s =
    stays id (record task { local_crash_count = 0; phase = sleeping 1000 }) s
finish_task-Left id task (failed (fuel_exhausted c l)) s =
    stays id (record task { phase = sleeping 100 }) s
finish_task-Left id task (failed (wasm_compilation_failed x)) s =
    crash-Left id task (wasm_compilation_failed x) s
finish_task-Left id task (failed (host_function_error x y)) s =
    crash-Left id task (host_function_error x y) s
finish_task-Left id task (failed (program_not_found x)) s =
    crash-Left id task (program_not_found x) s
finish_task-Left id task (failed (scheduler_error x)) s = crash-Left id task (scheduler_error x) s
finish_task-Left id task (failed (runtime_config_error x)) s =
    crash-Left id task (runtime_config_error x) s
finish_task-Left id task (failed (entry_point_not_found x)) s =
    crash-Left id task (entry_point_not_found x) s
finish_task-Left id task (failed (trap x)) s = crash-Left id task (trap x) s
finish_task-Left id task (failed (sql_error x)) s = crash-Left id task (sql_error x) s

settle-IsValid :
    (id : ℕ) (aborted : Bool) (s : Scheduler)
    → Left id aborted s
    → IsValid s
    → IsValid (settle id aborted s)
unfolding settle
settle-IsValid id false s l v = v
settle-IsValid id true s (inl gone) v = missing-IsValid id s gone v
settle-IsValid id true s (inr (task, there, marked)) v =
    end_task id task s.crash_counts s there (inr marked) v

finish-IsValid :
    (id : ℕ) (outcome : Outcome) (s : Scheduler) → IsValid s → IsValid (finish id outcome s)
unfolding finish
finish-IsValid id outcome s v = elim (Option-cases (lookup id s.tasks)) [
  | inl e ↦ rw (e, finish) v
  | inr (task, e) ↦ rw (e, finish) (by_phase task e task.phase)
]
  where
    by_phase :
        (task : Task)
        → lookup id s.tasks ≡ some task
        → (p : Phase)
        → IsValid (elim p [
          | executing ↦ settle id task.aborted (finish_task id task outcome s)
          | sleeping delay ↦ s
        ])
    by_phase task e executing =
        settle-IsValid id task.aborted (finish_task id task outcome s)
          (finish_task-Left id task outcome s) (finish_task-IsValid id task outcome s e v)
    by_phase task e (sleeping delay) = v

wake-IsValid : (id : ℕ) (s : Scheduler) → IsValid s → IsValid (wake id s)
unfolding wake is_running
wake-IsValid id s v = elim (Option-cases (lookup id s.tasks)) [
  | inl e ↦ rw (e, wake) v
  | inr (task, e) ↦ rw (e, wake) (by_phase task e task.phase)
]
  where
    by_phase :
        (task : Task)
        → lookup id s.tasks ≡ some task
        → (p : Phase)
        → IsValid (elim p [
          | executing ↦ s
          | sleeping delay ↦
              if runs_in (lookup task.cid s.programs)
              then record s { tasks = insert id (record task { phase = executing }) s.tasks }
              else record s { tasks = remove id s.tasks }
        ])
    by_phase task e executing = v
    by_phase task e (sleeping delay) =
        let few = v.counted id in
        elim (Bool-cases (runs_in (lookup task.cid s.programs))) [
          | inl h ↦ rw h (update id task _ s.crash_counts s e refl refl (rw e at few) v)
          | inr h ↦ rw h (end_task id task s.crash_counts s e (inl h) v)
        ]

Step-IsValid : (s t : Scheduler) → Step s t → IsValid s → IsValid t
Step-IsValid s _ (load compile now cid wasm_bytes) v = load-IsValid compile now cid wasm_bytes s v
Step-IsValid s _ (launched now cid wasm_bytes) v = launch-IsValid now cid wasm_bytes s v
Step-IsValid s _ (stop polled cid reason) v = stop-IsValid polled cid reason s v
Step-IsValid s _ (finished id outcome) v = finish-IsValid id outcome s v
Step-IsValid s _ (woken id) v = wake-IsValid id s v

-- After any of these steps in any order, also where an aborted task still does what follows on the
-- end of its agent: each entry bears the id of its program, each running program has a task that
-- was not aborted, each task has crashed fewer than ten times in a row and has an id below the next
-- one, and each handle belongs to a task of its program, unless that task has ended.
pub Reachable-IsValid : {s : Scheduler} → Reachable s → IsValid s
Reachable-IsValid start = new-IsValid
Reachable-IsValid (step {s} {t} r q) = Step-IsValid s t q (Reachable-IsValid r)
