-- ===== src/Types/Hlc.antt =====
-- The hybrid logical clock: crates/craftec-types/src/hlc.rs. A u64 is a number below 2 ^ 64. What
-- `SystemTime` gives, in milliseconds, is an argument. The state is one atomic word, and each method
-- repeats its load, its computation and its compare-and-swap until that succeeds: `next` and
-- `merge` are what one successful round stores for the word that it loaded.
pub mod Pack
pub mod Monotone
use Prim.Native.Nat.{bit_and, bit_or}
use craftec.Prelude.{
  ℕ, ◌+◌, ◌-◌, ◌*◌, ◌/◌, ◌%◌, ◌^◌, max, min, Bool, true, false, ◌&&◌, ltb, leb, ◌==◌, if◌then◌else◌,
}

abbrev pub max_skew_ms : ℕ
max_skew_ms = 500

abbrev pub replay_window_ms : ℕ
replay_window_ms = 30000

abbrev pub u16_max : ℕ
u16_max = 65535

pub pack : ℕ → ℕ → ℕ
pack wall_ms logical = bit_or (wall_ms * 2 ^ 16 % 2 ^ 64) logical

pub unpack : ℕ → ℕ × ℕ
unpack ts = (ts / 2 ^ 16, bit_and ts 0xffff)

pub data HlcError : Type 0 where
  clock_skew : ℕ → ℕ → ℕ → HlcError
  replay_detected : ℕ → ℕ → ℕ → HlcError

pub data Checked : Type 0 where
  accepted : Checked
  rejected : HlcError → Checked

-- `a.abs_diff(b)`.
abbrev pub abs_diff : ℕ → ℕ → ℕ
abs_diff a b = if ltb a b then b - a else a - b

-- `a.saturating_add(1)` on a u16.
abbrev pub saturating_inc : ℕ → ℕ
saturating_inc a = min (a + 1) u16_max

-- `now`: the word that is stored over `old`, and returned.
pub next : ℕ → ℕ → ℕ
next old current_wall =
    let (old_wall, old_logical) = unpack old in
    if ltb old_wall current_wall
    then pack current_wall 0
    else if old_logical == u16_max
    then pack (old_wall + 1) 0
    else pack old_wall (old_logical + 1)

-- The two checks of `observe`.
pub check_remote : ℕ → ℕ → Checked
check_remote remote_ts current_wall =
    let (remote_wall, remote_logical) = unpack remote_ts in
    let delta = abs_diff remote_wall current_wall in
    if ltb (current_wall + max_skew_ms) remote_wall
    then rejected (clock_skew current_wall remote_wall (remote_wall - current_wall))
    else if ltb replay_window_ms delta
    then rejected (replay_detected current_wall remote_wall delta)
    else accepted

-- The loop of `observe`: the word that is stored over `old`.
pub merge : ℕ → ℕ → ℕ → ℕ
merge old remote_ts current_wall =
    let (old_wall, old_logical) = unpack old in
    let (remote_wall, remote_logical) = unpack remote_ts in
    let max_logical = max old_logical remote_logical in
    if ltb old_wall current_wall && ltb remote_wall current_wall
    then pack current_wall 0
    else if ltb remote_wall old_wall
    then pack old_wall (saturating_inc old_logical)
    else if ltb old_wall remote_wall
    then pack remote_wall (saturating_inc remote_logical)
    else if max_logical == u16_max
    then pack (old_wall + 1) 0
    else pack old_wall (max_logical + 1)

pub observe : ℕ → ℕ → ℕ → ℕ × Checked
observe old remote_ts current_wall = elim (check_remote remote_ts current_wall) [
  | accepted ↦ (merge old remote_ts current_wall, accepted)
  | rejected e ↦ (old, rejected e)
]

pub is_within_replay_window : ℕ → ℕ → Bool
is_within_replay_window ts current =
    let (ts_wall, ts_logical) = unpack ts in leb (abs_diff ts_wall current) replay_window_ms
