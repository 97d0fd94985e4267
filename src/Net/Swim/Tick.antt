-- ===== src/Net/Swim/Tick.antt =====
-- One protocol tick: `protocol_tick` of crates/craftec-net/src/swim.rs.
pub mod Target
use craftec.Prelude.{
  ℕ, zero, suc, ◌-◌, ◌%◌, ◌<◌, ◌≡◌, ◌≢◌, ◌∙◌, refl, ap, sym, subst, arith, List, [], ◌∷◌, Option,
  none, some, ◌==◌, leb, true, false, if◌then◌else◌, Bool-cases, Option-cases, inl, inr, length,
  get_or,
}
use native.Mathlib.Nat.{mod-lt}
use craftec.Prelude.Assoc.{lookup, Distinct}
use craftec.Types.Message.{WireMessage, swim_ping}
use craftec.Net.Swim.{
  Swim, MemberState, alive, suspect, dead, mark_dead, dead_entry, expired, mark_all_dead,
  alive_members, is_alive, is_alive_state, emit, to_messages, collect_gossip_msgs, increment,
  adaptive_piggyback_count, protocol_tick,
}
use craftec.Net.Swim.Marks.{IsValid, Sets-IsValid, Sets-lookup, mark_dead-Sets}

-- What the expiry of suspects makes of an entry: the incarnation to die with, if it is overdue.
overdue : ℕ → ℕ → Option MemberState → Option ℕ
overdue now timeout none = none
overdue now timeout (some (alive inc)) = none
overdue now timeout (some (suspect inc since)) =
    if leb timeout (now - since) then some inc else none
overdue now timeout (some (dead inc)) = none

lookup-expired :
    (now timeout id : ℕ) (m : List (ℕ × MemberState))
    → Distinct m
    → lookup id (expired now timeout m) ≡ overdue now timeout (lookup id m)
unfolding lookup expired overdue
lookup-expired now timeout id [] d = refl
lookup-expired now timeout id ((j, alive inc) ∷ m) d =
    ground (arith, lookup-expired now timeout id m d.1)
lookup-expired now timeout id ((j, suspect inc since) ∷ m) d =
    ground (arith, lookup-expired now timeout id m d.1)
lookup-expired now timeout id ((j, dead inc) ∷ m) d =
    ground (arith, lookup-expired now timeout id m d.1)

overdue-none : (now timeout : ℕ) (o : Option MemberState) → o ≡ none → overdue now timeout o ≡ none
unfolding overdue
overdue-none now timeout o e = rw e refl

expired-Distinct :
    (now timeout : ℕ) (m : List (ℕ × MemberState)) → Distinct m → Distinct (expired now timeout m)
unfolding expired
expired-Distinct now timeout [] d = tt
expired-Distinct now timeout ((j, alive inc) ∷ m) d = expired-Distinct now timeout m d.1
expired-Distinct now timeout ((j, dead inc) ∷ m) d = expired-Distinct now timeout m d.1
expired-Distinct now timeout ((j, suspect inc since) ∷ m) d =
    elim (Bool-cases (leb timeout (now - since))) [
      | inl h ↦ rw h (
        rw (lookup-expired now timeout j m d.1) (overdue-none now timeout _ d.0),
        expired-Distinct now timeout m d.1,
      )
      | inr h ↦ rw h (expired-Distinct now timeout m d.1)
    ]

-- The entry once the listed deaths are recorded.
buried : Option ℕ → Option MemberState → Option MemberState
buried none o = o
buried (some inc) o = some (dead_entry inc o)

lookup-mark_all_dead :
    (l : List (ℕ × ℕ)) (s : Swim) (id : ℕ)
    → Distinct l
    → id ≢ s.local_id
    → (lookup id (mark_all_dead l s).members ≡ buried (lookup id l) (lookup id s.members))
      × ((mark_all_dead l s).local_id ≡ s.local_id)
unfolding mark_all_dead lookup buried
lookup-mark_all_dead [] s id d n = (refl, refl)
lookup-mark_all_dead ((j, inc) ∷ l) s id d n =
    let t = mark_dead j inc s in
    let e = mark_dead-Sets j inc s in
    let q = Sets-lookup j _ s t id e n in
    let ih = lookup-mark_all_dead l t id d.1 (rw (e.1) n) in
    (
      elim (Bool-cases (j == id)) [
        | inl h ↦
            let same : j ≡ id = ground arith in
            let gone : lookup id l ≡ none = rw (← same) (d.0) in
            let now_dead : lookup id t.members ≡ some (dead_entry inc (lookup j s.members)) =
              rw (q, h) refl in
            rw (ih.0, gone, now_dead, h, same) refl
        | inr h ↦
            let kept : lookup id t.members ≡ lookup id s.members = rw (q, h) refl in
            rw (ih.0, kept, h) refl
      ],
      ih.1 ∙ e.1,
    )

-- What a tick makes of an entry: an overdue suspect dies with its incarnation, all else stays.
abbrev pub swept : ℕ → ℕ → Option MemberState → Option MemberState
swept now timeout none = none
swept now timeout (some (alive inc)) = some (alive inc)
swept now timeout (some (suspect inc since)) =
    if leb timeout (now - since) then some (dead inc) else some (suspect inc since)
swept now timeout (some (dead inc)) = some (dead inc)

buried-overdue :
    (now timeout : ℕ) (o : Option MemberState)
    → buried (overdue now timeout o) o ≡ swept now timeout o
unfolding buried overdue dead_entry
buried-overdue now timeout none = refl
buried-overdue now timeout (some (alive inc)) = refl
buried-overdue now timeout (some (suspect inc since)) = ground arith
buried-overdue now timeout (some (dead inc)) = refl

pub tick-members :
    (now : ℕ) (s : Swim)
    → (protocol_tick now s).0.members
      ≡ (mark_all_dead (expired now s.suspect_timeout s.members) s).members
unfolding protocol_tick
tick-members now s = ground arith

-- On a valid table, and for members other than the local node: a tick declares dead exactly the
-- suspects whose timeout has run out, with the incarnation they were suspected at, and leaves every
-- other member as it was.
pub protocol_tick-swept :
    (now id : ℕ) (s : Swim)
    → IsValid s
    → id ≢ s.local_id
    → lookup id (protocol_tick now s).0.members ≡ swept now s.suspect_timeout (lookup id s.members)
protocol_tick-swept now id s v n =
    let t = s.suspect_timeout in
    let l = expired now t s.members in
    rw
      (
        tick-members now s,
        (lookup-mark_all_dead l s id (expired-Distinct now t s.members v.distinct) n).0,
        lookup-expired now t id s.members v.distinct,
      )
      (buried-overdue now t (lookup id s.members))
