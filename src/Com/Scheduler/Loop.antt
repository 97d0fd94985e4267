-- ===== src/Com/Scheduler/Loop.antt =====
-- The loop of one task, with nothing else going on: crates/craftec-com/src/scheduler.rs.
use craftec.Prelude.{
  ℕ, ◌+◌, ◌<◌, ◌≤◌, ◌≡◌, refl, arith, List, [], ◌∷◌, ◌++◌, true, false, inl, inr, ◌⊎◌, subst,
  if◌then◌else◌,
}
use craftec.Com.Scheduler.{
  Scheduler, Outcome, completed, failed, fuel_exhausted, wasm_compilation_failed,
  host_function_error, program_not_found, scheduler_error, runtime_config_error,
  entry_point_not_found, trap, sql_error, finish_task,
}
use craftec.Com.Scheduler.Turn.{
  Goes, IsLive, IsQuarantined, crash-Goes, crashes, finish-IsLive, finish-gone, is_completed,
  is_crash, none_completed, turn, turn-completed, turn-fuel, turns, wake-gone,
}

-- A turn resets the count, keeps it or raises it, as the outcome has it.
unfoldable pub next_count : ℕ → Outcome → ℕ
unfolding is_completed is_crash
next_count count o = if is_completed o then 0 else if is_crash o then count + 1 else count

turn-Goes :
    (id cid count : ℕ) (o : Outcome) (s : Scheduler)
    → IsLive id cid count s
    → count < 10
    → Goes id cid (next_count count o) (turn id o s)
unfolding next_count
turn-Goes id cid count completed s l few = inl (turn-completed id cid count s l, omega arith)
turn-Goes id cid count (failed (fuel_exhausted c m)) s l few =
    inl (turn-fuel id cid count c m s l, few)
turn-Goes id cid count (failed (wasm_compilation_failed x)) s l few =
    let o = failed (wasm_compilation_failed x) in
    unfold turn finish_task in
    rw (finish-IsLive id cid count o s l)
      (crash-Goes id cid count (wasm_compilation_failed x) s l few)
turn-Goes id cid count (failed (host_function_error x y)) s l few =
    let o = failed (host_function_error x y) in
    unfold turn finish_task in
    rw (finish-IsLive id cid count o s l)
      (crash-Goes id cid count (host_function_error x y) s l few)
turn-Goes id cid count (failed (program_not_found x)) s l few =
    let o = failed (program_not_found x) in
    unfold turn finish_task in
    rw (finish-IsLive id cid count o s l) (crash-Goes id cid count (program_not_found x) s l few)
turn-Goes id cid count (failed (scheduler_error x)) s l few =
    let o = failed (scheduler_error x) in
    unfold turn finish_task in
    rw (finish-IsLive id cid count o s l) (crash-Goes id cid count (scheduler_error x) s l few)
turn-Goes id cid count (failed (runtime_config_error x)) s l few =
    let o = failed (runtime_config_error x) in
    unfold turn finish_task in
    rw (finish-IsLive id cid count o s l) (crash-Goes id cid count (runtime_config_error x) s l few)
turn-Goes id cid count (failed (entry_point_not_found x)) s l few =
    let o = failed (entry_point_not_found x) in
    unfold turn finish_task in
    rw (finish-IsLive id cid count o s l)
      (crash-Goes id cid count (entry_point_not_found x) s l few)
turn-Goes id cid count (failed (trap x)) s l few =
    let o = failed (trap x) in
    unfold turn finish_task in
    rw (finish-IsLive id cid count o s l) (crash-Goes id cid count (trap x) s l few)
turn-Goes id cid count (failed (sql_error x)) s l few =
    let o = failed (sql_error x) in
    unfold turn finish_task in
    rw (finish-IsLive id cid count o s l) (crash-Goes id cid count (sql_error x) s l few)

turns-IsQuarantined :
    (id cid : ℕ) (os : List Outcome) (s : Scheduler)
    → IsQuarantined id cid s
    → IsQuarantined id cid (turns id os s)
unfolding turns
turns-IsQuarantined id cid [] s q = q
turns-IsQuarantined id cid (o ∷ os) s q =
    turns-IsQuarantined id cid os (turn id o s)
      (unfold turn in rw (finish-gone id o s q.gone, wake-gone id s q.gone) q)

-- Where no turn completes, the count grows with the crashes.
turns-Goes :
    (id cid count : ℕ) (os : List Outcome) (s : Scheduler)
    → IsLive id cid count s
    → count < 10
    → none_completed os ≡ true
    → Goes id cid (count + crashes os) (turns id os s)
unfolding turns crashes none_completed
turns-Goes id cid count [] s l few n =
    inl (subst (λ k. IsLive id cid k s) (omega arith) l, omega (arith, few))
turns-Goes id cid count (o ∷ os) s l few n =
    let rest : none_completed os ≡ true = ground arith in
    let incomplete : is_completed o ≡ false = ground arith in
    let total : next_count count o + crashes os ≡ count + crashes (o ∷ os) =
      unfold next_count in ground arith in
    elim (turn-Goes id cid count o s l few) [
      | inl (l', few') ↦
          subst (λ k. Goes id cid k (turns id os (turn id o s))) total
            (turns-Goes id cid (next_count count o) os (turn id o s) l' few' rest)
      | inr (q, ten) ↦
          inr (turns-IsQuarantined id cid os (turn id o s) q, omega (arith, total, ten))
    ]

-- Any turns leave the task going on, with at most as many crashes more as there were, or its program
-- quarantined, which takes ten of them.
turns-any :
    (id cid count : ℕ) (os : List Outcome) (s : Scheduler)
    → IsLive id cid count s
    → count < 10
    → ((n : ℕ) × IsLive id cid n (turns id os s) × (n < 10) × (n ≤ count + crashes os))
      ⊎ (IsQuarantined id cid (turns id os s) × (10 ≤ count + crashes os))
unfolding turns crashes
turns-any id cid count [] s l few = inl (count, l, few, omega arith)
turns-any id cid count (o ∷ os) s l few =
    let total : next_count count o + crashes os ≤ count + crashes (o ∷ os) =
      unfold next_count in ground arith in
    elim (turn-Goes id cid count o s l few) [
      | inl (l', few') ↦ elim (turns-any id cid (next_count count o) os (turn id o s) l' few') [
        | inl (n, q, low, bound) ↦ inl (n, q, low, omega (arith, total, bound))
        | inr (q, ten) ↦ inr (q, omega (arith, total, ten))
      ]
      | inr (q, ten) ↦
          inr (turns-IsQuarantined id cid os (turn id o s) q, omega (arith, total, ten))
    ]

turns-append :
    (id : ℕ) (xs ys : List Outcome) (s : Scheduler)
    → turns id (xs ++ ys) s ≡ turns id ys (turns id xs s)
unfolding turns
turns-append id [] ys s = refl
turns-append id (x ∷ xs) ys s = turns-append id xs ys (turn id x s)

-- A task that goes on, left to itself, has its program quarantined and ends as soon as ten agents
-- in a row have crashed, whatever came before and comes after; running out of fuel in between does
-- not break the row.
pub streak-IsQuarantined :
    (id cid count : ℕ) (before streak after : List Outcome) (s : Scheduler)
    → IsLive id cid count s
    → count < 10
    → none_completed streak ≡ true
    → 10 ≤ crashes streak
    → IsQuarantined id cid (turns id (before ++ (streak ++ after)) s)
streak-IsQuarantined id cid count before streak after s l few n ten =
    let s' = turns id before s in
    rw (turns-append id before (streak ++ after) s, turns-append id streak after s')
      (turns-IsQuarantined id cid after (turns id streak s')
        (elim (turns-any id cid count before s l few) [
          | inl (c, l', low, bound) ↦ elim (turns-Goes id cid c streak s' l' low n) [
            | inl (l'', few') ↦ absurd (omega (arith, few', ten))
            | inr (q, h) ↦ q
          ]
          | inr (q, h) ↦ turns-IsQuarantined id cid streak s' q
        ]))
