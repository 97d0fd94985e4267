-- ===== src/Types/Hlc/Monotone.antt =====
-- The order of the timestamps, for every thread that shares the clock:
-- crates/craftec-types/src/hlc.rs.
use craftec.Prelude.{
  ℕ, ◌+◌, ◌/◌, ◌%◌, ◌^◌, ◌<◌, ◌≤◌, ◌≡◌, refl, arith, min, max, List, [], ◌∷◌, ◌↔◌, length,
}
use craftec.Types.Hlc.{next, merge, observe, check_remote, accepted, rejected, Checked}
use craftec.Types.Hlc.Pack.{pack_lem, unpack_lem}

-- A word whose wall clock leaves room for a carry: before the year 10889.
abbrev pub HasRoom : ℕ → Type 0
HasRoom ts = ts / 65536 + 1 < 2 ^ 48

pub next-lt : (old wall : ℕ) → HasRoom old → wall + 1 < 2 ^ 48 → old < next old wall
unfolding next
next-lt old wall p q = rw (unpack_lem old) (
    ground (
      arith,
      pack_lem wall 0,
      pack_lem (old / 65536 + 1) 0,
      pack_lem (old / 65536) (old % 65536 + 1),
    ))

pub merge-le :
    (old remote wall : ℕ)
    → HasRoom old
    → HasRoom remote
    → wall + 1 < 2 ^ 48
    → (old ≤ merge old remote wall) × (remote ≤ merge old remote wall)
unfolding merge
merge-le old remote wall p q r =
    rw (unpack_lem old, unpack_lem remote)
      (ground (
        arith,
        pack_lem wall 0,
        pack_lem (old / 65536 + 1) 0,
        pack_lem (old / 65536) (min (old % 65536 + 1) 65535),
        pack_lem (remote / 65536) (min (remote % 65536 + 1) 65535),
        pack_lem (old / 65536) (max (old % 65536) (remote % 65536) + 1),
      ))

next_wall-le :
    (old wall : ℕ)
    → HasRoom old
    → wall + 1 < 2 ^ 48
    → next old wall / 65536 ≤ max (old / 65536 + 1) wall
unfolding next
next_wall-le old wall p q = rw (unpack_lem old) (
    ground (
      arith,
      pack_lem wall 0,
      pack_lem (old / 65536 + 1) 0,
      pack_lem (old / 65536) (old % 65536 + 1),
    ))

merge_wall-le :
    (old remote wall : ℕ)
    → HasRoom old
    → HasRoom remote
    → wall + 1 < 2 ^ 48
    → merge old remote wall / 65536 ≤ max (max (old / 65536 + 1) wall) (remote / 65536)
unfolding merge
merge_wall-le old remote wall p q r =
    rw (unpack_lem old, unpack_lem remote)
      (ground (
        arith,
        pack_lem wall 0,
        pack_lem (old / 65536 + 1) 0,
        pack_lem (old / 65536) (min (old % 65536 + 1) 65535),
        pack_lem (remote / 65536) (min (remote % 65536 + 1) 65535),
        pack_lem (old / 65536) (max (old % 65536) (remote % 65536) + 1),
      ))

-- A remote timestamp is accepted exactly when its wall clock is at most 500 ms ahead of the local
-- one and at most 30 s behind it.
pub check_remote-accepted_iff :
    (remote wall : ℕ)
    → (check_remote remote wall ≡ accepted)
      ↔ ((remote / 65536 ≤ wall + 500) × (wall ≤ remote / 65536 + 30000))
unfolding check_remote
check_remote-accepted_iff remote wall = rw (unpack_lem remote) (ground arith)

-- What the threads do to the shared word, one successful compare-and-swap after the other.
pub data Access : Type 0 where
  tick : ℕ → Access
  receive : ℕ → ℕ → Access

-- The timestamps that `now` hands out, and the last word.
pub run : ℕ → List Access → List ℕ × ℕ
run s [] = ([], s)
run s (tick wall ∷ rest) = let s' = next s wall in (s' ∷ (run s' rest).0, (run s' rest).1)
run s (receive remote wall ∷ rest) = run (observe s remote wall).0 rest

-- Each above the one before it, and the first above `s`.
abbrev pub Ascending : ℕ → List ℕ → Type 0
Ascending s [] = Unit
Ascending s (t ∷ ts) = (s < t) × Ascending t ts

-- Every wall clock that is read leaves 500 ms below the limit.
abbrev pub WallsBelow : ℕ → List Access → Type 0
WallsBelow limit [] = Unit
WallsBelow limit (tick wall ∷ rest) = (wall + 500 ≤ limit) × WallsBelow limit rest
WallsBelow limit (receive remote wall ∷ rest) = (wall + 500 ≤ limit) × WallsBelow limit rest

Ascending-weaken : (s s' : ℕ) (ts : List ℕ) → s ≤ s' → Ascending s' ts → Ascending s ts
Ascending-weaken s s' [] h a = tt
Ascending-weaken s s' (t ∷ ts) h a = (omega arith, a.1)

WallsBelow-suc :
    (limit : ℕ) (calls : List Access) → WallsBelow limit calls → WallsBelow (limit + 1) calls
WallsBelow-suc limit [] h = tt
WallsBelow-suc limit (tick wall ∷ rest) h = (omega arith, WallsBelow-suc limit rest h.1)
WallsBelow-suc limit (receive remote wall ∷ rest) h = (omega arith, WallsBelow-suc limit rest h.1)

observe-le :
    (s remote wall limit : ℕ)
    → wall + 500 ≤ limit
    → s / 65536 ≤ limit
    → limit + 2 < 2 ^ 48
    → (s ≤ (observe s remote wall).0) × ((observe s remote wall).0 / 65536 ≤ limit + 1)
observe-le s remote wall limit p q r = go (check_remote remote wall) refl
  where
    go :
        (c : Checked)
        → check_remote remote wall ≡ c
        → (s ≤ (observe s remote wall).0) × ((observe s remote wall).0 / 65536 ≤ limit + 1)
    go accepted e =
        let window = (check_remote-accepted_iff remote wall).0 e in
        unfold observe in
        rw (e, observe)
          (omega (
            arith,
            merge-le s remote wall (omega arith) (omega arith) (omega arith),
            merge_wall-le s remote wall (omega arith) (omega arith) (omega arith),
          ))
    go (rejected err) e = unfold observe in rw (e, observe) (omega arith)

-- However the threads' calls of `now` and `observe` interleave, and whatever clocks they read, the
-- timestamps that `now` hands out increase strictly and the word never falls, as long as the wall
-- clocks and the number of calls stay within 48 bits.
pub run-Ascending :
    (limit s : ℕ) (calls : List Access)
    → s / 65536 ≤ limit
    → WallsBelow limit calls
    → limit + length calls + 2 < 2 ^ 48
    → Ascending s (run s calls).0 × (s ≤ (run s calls).1)
unfolding run
run-Ascending limit s [] p w r = (tt, omega arith)
run-Ascending limit s (tick wall ∷ rest) p w r =
    let grows = next-lt s wall (omega arith) (omega arith) in
    let ih =
      run-Ascending (limit + 1) (next s wall) rest
        (omega (arith, next_wall-le s wall (omega arith) (omega arith)))
        (WallsBelow-suc limit rest w.1) (omega arith) in
    ((grows, ih.0), omega arith)
run-Ascending limit s (receive remote wall ∷ rest) p w r =
    let step = observe-le s remote wall limit w.0 p (omega arith) in
    let ih =
      run-Ascending (limit + 1) (observe s remote wall).0 rest step.1
        (WallsBelow-suc limit rest w.1) (omega arith) in
    (Ascending-weaken s (observe s remote wall).0 _ step.0 ih.0, omega arith)
