-- ===== src/Com/Scheduler/Valid.antt =====
-- What every reachable scheduler satisfies, and how it carries over small changes:
-- crates/craftec-com/src/scheduler.rs.
use craftec.Prelude.{
  ℕ, ◌<◌, ◌≡◌, refl, arith, List, Option, none, some, Bool, true, false, inl, inr, ◌==◌, Bool-cases,
  Option-cases, ◌∙◌, ◌⊎◌, if◌then◌else◌,
}
use craftec.Prelude.Assoc.{lookup, insert, remove, lookup-insert, lookup-remove}
use craftec.Com.Scheduler.{Scheduler, Task, ProgramState, new, runs_in, wasm_cid, is_running_state}

-- The task is there, is one of the program, and was not aborted.
unfoldable pub runs : ℕ → Option Task → Bool
runs cid none = false
runs cid (some task) = if task.aborted then false else task.cid == cid

-- A task that is there satisfies the predicate.
abbrev pub All : (Task → Type 0) → Option Task → Type 0
All P none = Unit
All P (some task) = P task

abbrev pub AllStates : (ProgramState → Type 0) → Option ProgramState → Type 0
AllStates P none = Unit
AllStates P (some st) = P st

All-const : (P : Type 0) (o : Option Task) → P → All (λ task. P) o
All-const P none h = tt
All-const P (some task) h = h

All-cid :
    (a c : ℕ) (o : Option Task)
    → a ≡ c
    → All (λ task. task.cid ≡ a) o
    → All (λ task. task.cid ≡ c) o
All-cid a c none e h = tt
All-cid a c (some task) e h = h ∙ e

pub record IsValid (s : Scheduler) : Type 0 where
  pub named : (cid : ℕ) → AllStates (λ st. wasm_cid st ≡ cid) (lookup cid s.programs)
  pub kept_alive :
      (cid : ℕ)
      → runs_in (lookup cid s.programs) ≡ true
      → (id : ℕ) × (runs cid (lookup id s.tasks) ≡ true)
  pub counted : (id : ℕ) → All (λ task. task.local_crash_count < 10) (lookup id s.tasks)
  pub fresh : (id : ℕ) → All (λ task. id < s.next_task) (lookup id s.tasks)
  pub owned :
      (cid id : ℕ)
      → lookup cid s.task_handles ≡ some id
      → (id < s.next_task) × All (λ task. task.cid ≡ cid) (lookup id s.tasks)

pub new-IsValid : IsValid new
unfolding lookup runs_in
new-IsValid = record {
  named = λ cid. tt;
  kept_alive = λ cid h. cc;
  counted = λ id. tt;
  fresh = λ id. tt;
  owned = λ cid id h. cc;
}

-- A new state of one program that does not run.
pub idle :
    (cid : ℕ) (st : ProgramState) (s : Scheduler)
    → wasm_cid st ≡ cid
    → is_running_state st ≡ false
    → IsValid s
    → IsValid (record s { programs = insert cid st s.programs })
unfolding runs_in
idle cid st s e stands v = record {
  named = λ c. rw (lookup-insert cid c st s.programs) (elim (Bool-cases (cid == c)) [
    | inl h ↦ rw h (ground (arith, e))
    | inr h ↦ rw h (v.named c)
  ]);
  kept_alive = λ c. rw (lookup-insert cid c st s.programs) (elim (Bool-cases (cid == c)) [
    | inl h ↦ rw h (λ r. absurd (cc))
    | inr h ↦ rw h (v.kept_alive c)
  ]);
  counted = v.counted;
  fresh = v.fresh;
  owned = v.owned;
}

-- Another entry for one task, or none: the program that it ran alone must not be left running.
change :
    (id : ℕ) (old : Task) (new : Option Task) (tasks : List (ℕ × Task)) (counts : List (ℕ × ℕ))
    (s : Scheduler)
    → lookup id s.tasks ≡ some old
    → ((j : ℕ) → lookup j tasks ≡ (if id == j then new else lookup j s.tasks))
    → ((c : ℕ)
        → runs_in (lookup c s.programs) ≡ true
        → runs c (some old) ≡ true
        → runs c new ≡ true)
    → All (λ task. task.local_crash_count < 10) new
    → All (λ task. task.cid ≡ old.cid) new
    → IsValid s
    → IsValid (record s { tasks = tasks; crash_counts = counts })
change id old new tasks counts s there look lives few same v = record {
  named = v.named;
  kept_alive = λ c r.
      let (j, q) = v.kept_alive c r in
      (
        j,
        rw (look j) (elim (Bool-cases (id == j)) [
          | inl h ↦
              let e : id ≡ j = ground arith in
              let q' : runs c (some old) ≡ true = rw (← e, there) at q in rw h (lives c r q')
          | inr h ↦ rw h q
        ]),
      );
  counted = λ j.
      rw (look j) (elim (Bool-cases (id == j)) [ inl h ↦ rw h few | inr h ↦ rw h (v.counted j) ]);
  fresh = λ j. rw (look j) (elim (Bool-cases (id == j)) [
    | inl h ↦
        let e : id ≡ j = ground arith in
        let old_fresh = v.fresh id in
        let below : id < s.next_task = rw there at old_fresh in rw (h, ← e) (All-const _ new below)
    | inr h ↦ rw h (v.fresh j)
  ]);
  owned = λ c j handle.
      let o = v.owned c j handle in
      (
        o.0,
        rw (look j) (elim (Bool-cases (id == j)) [
          | inl h ↦
              let e : id ≡ j = ground arith in
              let mine = o.1 in
              let mine' : old.cid ≡ c = rw (← e, there) at mine in
              rw h (All-cid old.cid c new mine' same)
          | inr h ↦ rw h (o.1)
        ]),
      );
}

-- A task takes a new state, with the same program.
pub update :
    (id : ℕ) (old task : Task) (counts : List (ℕ × ℕ)) (s : Scheduler)
    → lookup id s.tasks ≡ some old
    → task.cid ≡ old.cid
    → task.aborted ≡ old.aborted
    → task.local_crash_count < 10
    → IsValid s
    → IsValid (record s { tasks = insert id task s.tasks; crash_counts = counts })
unfolding runs
update id old task counts s there same marks few v =
    change id old (some task) (insert id task s.tasks) counts s there
      (λ j. lookup-insert id j task s.tasks) (λ c r q. rw (same, marks) q) few same v

-- A task goes away, of a program that does not run or after it was aborted.
pub end_task :
    (id : ℕ) (old : Task) (counts : List (ℕ × ℕ)) (s : Scheduler)
    → lookup id s.tasks ≡ some old
    → (runs_in (lookup old.cid s.programs) ≡ false) ⊎ (old.aborted ≡ true)
    → IsValid s
    → IsValid (record s { tasks = remove id s.tasks; crash_counts = counts })
unfolding runs
end_task id old counts s there idle_program v =
    change id old none (remove id s.tasks) counts s there (λ j. lookup-remove id j s.tasks)
      (λ c r q. elim idle_program [
        | inl still ↦
            let same : old.cid ≡ c = ground arith in
            let r' : runs_in (lookup c s.programs) ≡ false = rw (← same) still in absurd (cc)
        | inr gone ↦ absurd (ground (arith, gone, q))
      ])
      tt tt v

-- A task of a program that does not run is to go away.
pub mark_task :
    (id : ℕ) (old : Task) (s : Scheduler)
    → lookup id s.tasks ≡ some old
    → runs_in (lookup old.cid s.programs) ≡ false
    → IsValid s
    → IsValid (record s { tasks = insert id (record old { aborted = true }) s.tasks })
unfolding runs
mark_task id old s there still v =
    let few = v.counted id in
    change id old (some (record old { aborted = true }))
      (insert id (record old { aborted = true }) s.tasks) s.crash_counts s there
      (λ j. lookup-insert id j (record old { aborted = true }) s.tasks)
      (λ c r q.
        let same : old.cid ≡ c = ground arith in
        let r' : runs_in (lookup c s.programs) ≡ false = rw (← same) still in absurd (cc))
      (rw there at few) refl v

-- A handle goes away.
pub forget_handle :
    (cid : ℕ) (s : Scheduler)
    → IsValid s
    → IsValid (record s { task_handles = remove cid s.task_handles })
forget_handle cid s v = record {
  named = v.named;
  kept_alive = v.kept_alive;
  counted = v.counted;
  fresh = v.fresh;
  owned = λ c j handle.
      let handle' = rw (lookup-remove cid c s.task_handles) at handle in
      elim (Bool-cases (cid == c)) [
        | inl h ↦ let gone = rw h at handle' in cc
        | inr h ↦ v.owned c j (rw h at handle')
      ];
}

pub missing-IsValid :
    (id : ℕ) (s : Scheduler)
    → lookup id s.tasks ≡ none
    → IsValid s
    → IsValid (record s { tasks = remove id s.tasks })
missing-IsValid id s gone v =
    let same : (j : ℕ) → lookup j (remove id s.tasks) ≡ lookup j s.tasks = λ j.
      lookup-remove id j s.tasks ∙ (elim (Bool-cases (id == j)) [
        | inl h ↦ let e : id ≡ j = ground arith in rw (h, ← e, gone) refl
        | inr h ↦ rw h refl
      ]) in
    record {
      named = v.named;
      kept_alive = λ c r. let (j, q) = v.kept_alive c r in (j, rw (same j) q);
      counted = λ j. rw (same j) (v.counted j);
      fresh = λ j. rw (same j) (v.fresh j);
      owned = λ c j handle. let o = v.owned c j handle in (o.0, rw (same j) (o.1));
    }

pub next_task-free : (s : Scheduler) → IsValid s → lookup s.next_task s.tasks ≡ none
next_task-free s v = elim (Option-cases (lookup s.next_task s.tasks)) [
  | inl e ↦ e
  | inr (t, e) ↦
      let below = v.fresh s.next_task in
      let below' : s.next_task < s.next_task = rw e at below in absurd (omega (arith, below'))
]
