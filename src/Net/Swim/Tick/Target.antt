-- ===== src/Net/Swim/Tick/Target.antt =====
-- What a tick keeps and whom it probes: `protocol_tick` of crates/craftec-net/src/swim.rs.
use craftec.Prelude.{
  ℕ, zero, suc, ◌%◌, ◌<◌, ◌≡◌, ◌≢◌, ◌∙◌, refl, ap, sym, subst, arith, List, [], ◌∷◌, none, some,
  ◌==◌, true, false, Bool-cases, Option-cases, inl, inr, length, get_or,
}
use native.Mathlib.Nat.{mod-lt}
use craftec.Prelude.Assoc.{lookup, Distinct}
use craftec.Types.Message.{WireMessage, swim_ping}
use craftec.Net.Swim.{
  Swim, MemberState, alive, suspect, dead, mark_dead, expired, mark_all_dead, alive_members,
  is_alive, is_alive_state, emit, to_messages, collect_gossip_msgs, increment,
  adaptive_piggyback_count, protocol_tick,
}
use craftec.Net.Swim.Marks.{IsValid, Sets-IsValid, mark_dead-Sets}
use craftec.Net.Swim.Tick.{tick-members}

behind :
    (j : ℕ) (st : MemberState) (m : List (ℕ × MemberState)) (x inc : ℕ)
    → lookup j m ≡ none
    → lookup x m ≡ some (alive inc)
    → lookup x ((j, st) ∷ m) ≡ some (alive inc)
unfolding lookup
behind j st m x inc d h = elim (Bool-cases (j == x)) [
  | inl e ↦ let same : j ≡ x = ground arith in let q : lookup x m ≡ none = rw (← same) d in cc
  | inr e ↦ rw e h
]

alive_at :
    (m : List (ℕ × MemberState)) (i : ℕ)
    → Distinct m
    → i < length (alive_members m)
    → (inc : ℕ) × (lookup (get_or (alive_members m) i 0) m ≡ some (alive inc))
unfolding alive_members lookup
alive_at [] i d h = absurd (omega arith)
alive_at ((j, suspect inc since) ∷ m) i d h =
    let ih = alive_at m i d.1 h in (ih.0, behind j _ m _ ih.0 d.0 ih.1)
alive_at ((j, dead inc) ∷ m) i d h =
    let ih = alive_at m i d.1 h in (ih.0, behind j _ m _ ih.0 d.0 ih.1)
alive_at ((j, alive inc) ∷ m) zero d h = (inc, ground arith)
alive_at ((j, alive inc) ∷ m) (suc i) d h =
    let ih = alive_at m i d.1 (omega arith) in (ih.0, behind j _ m _ ih.0 d.0 ih.1)

mark_all_dead-IsValid : (l : List (ℕ × ℕ)) (s : Swim) → IsValid s → IsValid (mark_all_dead l s)
unfolding mark_all_dead
mark_all_dead-IsValid [] s v = v
mark_all_dead-IsValid ((j, inc) ∷ l) s v =
    mark_all_dead-IsValid l (mark_dead j inc s)
      (Sets-IsValid j _ s (mark_dead j inc s) (mark_dead-Sets j inc s) v)

abbrev swept_state : ℕ → Swim → Swim
swept_state now s = mark_all_dead (expired now s.suspect_timeout s.members) s

tick-idle :
    (now : ℕ) (s : Swim)
    → (length (alive_members (swept_state now s).members) == 0) ≡ true
    → (protocol_tick now s).1 ≡ []
unfolding protocol_tick
tick-idle now s e = rw e refl

tick-active :
    (now : ℕ) (s : Swim)
    → (length (alive_members (swept_state now s).members) == 0) ≡ false
    → let l = alive_members (swept_state now s).members in
      (m : WireMessage) × ((protocol_tick now s).1
        ≡ (get_or l ((swept_state now s).probe_index % length l) 0, m) ∷ [])
unfolding protocol_tick
tick-active now s e = (
  let t = swept_state now s in
      let limit = adaptive_piggyback_count (length (alive_members t.members)) in
      swim_ping t.local_id t.probe_nonce (
        to_messages (collect_gossip_msgs limit (record t { tick_count = increment t.tick_count }))),
  rw e refl,
)

tick-target :
    (now id : ℕ) (msg : WireMessage) (rest : List (ℕ × WireMessage)) (s : Swim)
    → (protocol_tick now s).1 ≡ (id, msg) ∷ rest
    → let l = alive_members (swept_state now s).members in
      (i : ℕ) × (i < length l) × (get_or l i 0 ≡ id)
tick-target now id msg rest s h =
    elim (Bool-cases (length (alive_members (swept_state now s).members) == 0)) [
      | inl e ↦ let q = tick-idle now s e in absurd cc
      | inr e ↦
          let (m, q) = tick-active now s e in
          let small : zero < length (alive_members (swept_state now s).members) = ground arith in
          (
            (swept_state now s).probe_index % length (alive_members (swept_state now s).members),
            mod-lt _ small,
            cc,
          )
    ]

mark_all_dead-local_id : (l : List (ℕ × ℕ)) (s : Swim) → (mark_all_dead l s).local_id ≡ s.local_id
unfolding mark_all_dead
mark_all_dead-local_id [] s = refl
mark_all_dead-local_id ((j, inc) ∷ l) s =
    mark_all_dead-local_id l (mark_dead j inc s) ∙ (mark_dead-Sets j inc s).1

tick-local_id :
    (now : ℕ) (s : Swim) → (protocol_tick now s).0.local_id ≡ (swept_state now s).local_id
unfolding protocol_tick
tick-local_id now s = ground arith

mark_dead-timeout :
    (id inc : ℕ) (s : Swim) → (mark_dead id inc s).suspect_timeout ≡ s.suspect_timeout
unfolding mark_dead emit
mark_dead-timeout id inc s = ground arith

mark_all_dead-timeout :
    (l : List (ℕ × ℕ)) (s : Swim) → (mark_all_dead l s).suspect_timeout ≡ s.suspect_timeout
unfolding mark_all_dead
mark_all_dead-timeout [] s = refl
mark_all_dead-timeout ((j, inc) ∷ l) s =
    mark_all_dead-timeout l (mark_dead j inc s) ∙ mark_dead-timeout j inc s

tick-timeout :
    (now : ℕ) (s : Swim)
    → (protocol_tick now s).0.suspect_timeout ≡ (swept_state now s).suspect_timeout
unfolding protocol_tick
tick-timeout now s = ground arith

-- A tick keeps the table valid, the node's identifier and its timeout.
pub protocol_tick-keeps :
    (now : ℕ) (s : Swim)
    → IsValid s
    → IsValid (protocol_tick now s).0
      × ((protocol_tick now s).0.local_id ≡ s.local_id)
      × ((protocol_tick now s).0.suspect_timeout ≡ s.suspect_timeout)
protocol_tick-keeps now s v =
    let l = expired now s.suspect_timeout s.members in
    let w = mark_all_dead-IsValid l s v in
    let m = tick-members now s in
    (
      record { distinct = rw m (w.distinct); no_local = rw (m, tick-local_id now s) (w.no_local) },
      tick-local_id now s ∙ mark_all_dead-local_id l s,
      tick-timeout now s ∙ mark_all_dead-timeout l s,
    )

is_alive_lem :
    (s : Swim) (id : ℕ)
    → is_alive s id ≡ (elim (lookup id s.members) [ none ↦ false | some st ↦ is_alive_state st ])
unfolding is_alive
is_alive_lem s id = refl

is_alive_state-alive : (st : MemberState) → is_alive_state st ≡ true → (inc : ℕ) × (st ≡ alive inc)
unfolding is_alive_state
is_alive_state-alive (alive inc) e = (inc, refl)
is_alive_state-alive (suspect inc since) e = absurd (cc)
is_alive_state-alive (dead inc) e = absurd (cc)

pub is_alive-there :
    (s : Swim) (id : ℕ)
    → is_alive s id ≡ true
    → (inc : ℕ) × (lookup id s.members ≡ some (alive inc))
is_alive-there s id e = elim (Option-cases (lookup id s.members)) [
  | inl h ↦ let q = is_alive_lem s id in let z = rw h at q in absurd (cc)
  | inr (st, h) ↦
      let q = is_alive_lem s id in
      let z = rw h at q in
      let (inc, same) = is_alive_state-alive st (sym z ∙ e) in (inc, h ∙ ap some same)
]

-- From a valid table, a tick keeps the table valid, and the member it probes, if any, is another
-- node that the table then holds alive.
pub protocol_tick-probe :
    (now id : ℕ) (msg : WireMessage) (rest : List (ℕ × WireMessage)) (s : Swim)
    → IsValid s
    → (protocol_tick now s).1 ≡ (id, msg) ∷ rest
    → IsValid (protocol_tick now s).0
      × (id ≢ s.local_id)
      × (is_alive (protocol_tick now s).0 id ≡ true)
unfolding is_alive_state
protocol_tick-probe now id msg rest s v h =
    let t = swept_state now s in
    let w = mark_all_dead-IsValid (expired now s.suspect_timeout s.members) s v in
    let (i, small, q) = tick-target now id msg rest s h in
    let (inc, found) = alive_at t.members i w.distinct small in
    let m = tick-members now s in
    let here : lookup id t.members ≡ some (alive inc) =
      subst (λ x. lookup x t.members ≡ some (alive inc)) q found in
    (
      (protocol_tick-keeps now s v).0,
      λ same.
          let local : id ≡ t.local_id =
            same ∙ sym (mark_all_dead-local_id (expired now s.suspect_timeout s.members) s) in
          let none_here : lookup id t.members ≡ none = rw local (w.no_local) in cc,
      rw (is_alive_lem (protocol_tick now s).0 id, m, here) refl,
    )
