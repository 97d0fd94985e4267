-- ===== src/Com/Scheduler/Turn.antt =====
-- One turn of a task that no one interrupts, to its next start or its end:
-- crates/craftec-com/src/scheduler.rs.
use craftec.Prelude.{
  ℕ, ◌+◌, ◌<◌, ◌≤◌, ◌*◌, ◌^◌, min, ◌≡◌, refl, arith, List, [], ◌∷◌, none, some, Bool, true, false,
  inl, inr, ◌⊎◌, subst, eq_refl, leb, not, ◌&&◌, if◌then◌else◌, Bool-cases,
}
use craftec.Prelude.Assoc.{lookup, insert, remove, lookup-insert, lookup-remove}
use craftec.Com.Scheduler.{
  ComError, Scheduler, Task, Outcome, quarantined, executing, sleeping, completed, failed,
  fuel_exhausted, finish, finish_task, settle, crash, wake, is_running, runs_in,
}

-- The loop's body: the agent ends, the task sleeps and goes on if it may.
unfoldable pub turn : ℕ → Outcome → Scheduler → Scheduler
turn id outcome s = wake id (finish id outcome s)

unfoldable pub turns : ℕ → List Outcome → Scheduler → Scheduler
unfolding turn
turns id [] s = s
turns id (o ∷ os) s = turns id os (turn id o s)

-- The agent failed, and not for want of fuel.
unfoldable pub is_crash : Outcome → Bool
is_crash completed = false
is_crash (failed (fuel_exhausted consumed limit)) = false
is_crash (failed e) = true

unfoldable pub crashes : List Outcome → ℕ
unfolding is_crash
crashes [] = 0
crashes (o ∷ os) = if is_crash o then crashes os + 1 else crashes os

unfoldable pub is_completed : Outcome → Bool
is_completed completed = true
is_completed (failed e) = false

unfoldable pub none_completed : List Outcome → Bool
unfolding is_completed
none_completed [] = true
none_completed (o ∷ os) = not (is_completed o) && none_completed os

-- The task waits for its agent after `count` crashes in a row, was not aborted, and its program
-- runs.
pub record IsLive (id cid count : ℕ) (s : Scheduler) : Type 0 where
  pub task : Task
  pub there : lookup id s.tasks ≡ some task
  pub same_cid : task.cid ≡ cid
  pub counts : task.local_crash_count ≡ count
  pub waits : task.phase ≡ executing
  pub kept : task.aborted ≡ false
  pub runs : runs_in (lookup cid s.programs) ≡ true

-- The program is quarantined after ten crashes, and the task is gone.
pub record IsQuarantined (id cid : ℕ) (s : Scheduler) : Type 0 where
  pub error : ComError
  pub in_state : lookup cid s.programs ≡ some (quarantined cid 10 error)
  pub gone : lookup id s.tasks ≡ none

-- A task that sleeps and whose program runs goes on.
pub wake-IsLive :
    (id delay : ℕ) (task : Task) (s : Scheduler)
    → lookup id s.tasks ≡ some task
    → task.phase ≡ sleeping delay
    → task.aborted ≡ false
    → runs_in (lookup task.cid s.programs) ≡ true
    → IsLive id task.cid task.local_crash_count (wake id s)
unfolding wake is_running
wake-IsLive id delay task s e p k r =
    rw (e, wake, p, r)
      (record {
        task = record task { phase = executing };
        there =
            rw (lookup-insert id id (record task { phase = executing }) s.tasks, eq_refl id) refl;
        same_cid = refl;
        counts = refl;
        waits = refl;
        kept = k;
        runs = r;
      })

pub finish-IsLive :
    (id cid count : ℕ) (o : Outcome) (s : Scheduler) (l : IsLive id cid count s)
    → finish id o s ≡ finish_task id l.task o s
unfolding finish settle
finish-IsLive id cid count o s l = rw (l.there, finish, l.waits, l.kept) refl

-- The task sleeps with a new count, and then goes on.
pub asleep-IsLive :
    (id cid count delay : ℕ) (counts : List (ℕ × ℕ)) (s : Scheduler) (l : IsLive id cid count s)
    → (n : ℕ)
    → IsLive id cid n (
        wake id (record s {
          crash_counts = counts;
          tasks =
              insert id (record l.task { local_crash_count = n; phase = sleeping delay }) s.tasks;
        }))
asleep-IsLive id cid count delay counts s l n =
    let t : Task = record l.task { local_crash_count = n; phase = sleeping delay } in
    subst
      (λ c.
        IsLive id c n (wake id (record s { crash_counts = counts; tasks = insert id t s.tasks })))
      l.same_cid
      (wake-IsLive id delay t _ (rw (lookup-insert id id t s.tasks, eq_refl id) refl) refl l.kept
        (rw l.same_cid l.runs))

pub turn-completed :
    (id cid count : ℕ) (s : Scheduler)
    → IsLive id cid count s
    → IsLive id cid 0 (turn id completed s)
unfolding turn finish_task
turn-completed id cid count s l =
    rw (finish-IsLive id cid count completed s l) (asleep-IsLive id cid count 1000 _ s l 0)

pub turn-fuel :
    (id cid count consumed limit : ℕ) (s : Scheduler)
    → IsLive id cid count s
    → IsLive id cid count (turn id (failed (fuel_exhausted consumed limit)) s)
unfolding turn finish_task
turn-fuel id cid count consumed limit s l =
    rw (finish-IsLive id cid count (failed (fuel_exhausted consumed limit)) s l) (
      subst
        (λ n. IsLive id cid n (
          wake id
            (record s { tasks = insert id (record l.task { phase = sleeping 100 }) s.tasks })))
        l.counts (asleep-IsLive id cid count 100 s.crash_counts s l l.task.local_crash_count))

pub wake-gone : (id : ℕ) (s : Scheduler) → lookup id s.tasks ≡ none → wake id s ≡ s
unfolding wake
wake-gone id s e = rw (e, wake) refl

pub finish-gone :
    (id : ℕ) (o : Outcome) (s : Scheduler) → lookup id s.tasks ≡ none → finish id o s ≡ s
unfolding finish
finish-gone id o s e = rw (e, finish) refl

-- What is left of a task after `count` crashes in a row.
abbrev pub Goes : ℕ → ℕ → ℕ → Scheduler → Type 0
Goes id cid count s =
    (IsLive id cid count s × (count < 10)) ⊎ (IsQuarantined id cid s × (10 ≤ count))

-- After a crash the task goes on with a greater count, or its program is quarantined.
pub crash-Goes :
    (id cid count : ℕ) (e : ComError) (s : Scheduler) (l : IsLive id cid count s)
    → count < 10
    → Goes id cid (count + 1) (wake id (crash id l.task e s))
unfolding crash
crash-Goes id cid count e s l few =
    let n = l.task.local_crash_count + 1 in
    elim (Bool-cases (leb 10 n)) [
      | inl h ↦
          let ten : n ≡ 10 = (let c = l.counts in ground arith) in
          let st = quarantined l.task.cid n e in
          let gone : lookup id (remove id s.tasks) ≡ none =
            rw (lookup-remove id id s.tasks, eq_refl id) refl in
          let halted : Scheduler = record s {
            programs = insert l.task.cid st s.programs;
            crash_counts = insert l.task.cid n s.crash_counts;
            tasks = remove id s.tasks;
          } in
          rw (h, wake-gone id halted gone)
            (inr (
              record {
                error = e;
                in_state =
                    rw (lookup-insert l.task.cid cid st s.programs, l.same_cid, eq_refl cid, ten)
                      refl;
                gone = gone;
              },
              (let c = l.counts in omega (arith, c, ten)),
            ))
      | inr h ↦
          let more : n ≡ count + 1 = (let c = l.counts in omega (arith, c)) in
          rw h (
            inl (
              subst
                  (λ k. IsLive id cid k (
                    wake id (record s {
                      crash_counts = insert l.task.cid n s.crash_counts;
                      tasks =
                          insert id
                            (record l.task {
                              local_crash_count = n;
                              phase = sleeping (2 ^ min n 6 * 1000);
                            })
                            s.tasks;
                    })))
                  more (asleep-IsLive id cid count (2 ^ min n 6 * 1000) _ s l n),
              ground arith,
            ))
    ]
