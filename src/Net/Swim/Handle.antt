-- ===== src/Net/Swim/Handle.antt =====
-- What an incoming message, with all it carries, does to the table: `handle_message` of
-- crates/craftec-net/src/swim.rs.
use craftec.Prelude.{ℕ, ◌≤◌, ◌≡◌, ◌≢◌, refl, arith}
use craftec.Prelude.Assoc.{lookup}
use craftec.Types.Message.{
  WireMessage, Messages, nil, cons, swim_join, swim_alive, swim_suspect, swim_dead, swim_ping,
  swim_ping_ack,
}
use craftec.Net.Swim.{
  Swim, mark_alive, mark_suspect, mark_dead, resolve_probe, handle_message, handle_all,
}
use craftec.Net.Swim.Marks.{
  IsValid, Sets-IsValid, Sets-dead, IsDeadSince, mark_alive-Sets, mark_suspect-Sets, mark_dead-Sets,
  alive_entry-dead, suspect_entry-dead, dead_entry-dead,
}

resolve_probe-table :
    (nonce inc : ℕ) (s : Swim)
    → ((resolve_probe nonce inc s).0.members ≡ s.members)
      × ((resolve_probe nonce inc s).0.local_id ≡ s.local_id)
unfolding resolve_probe
resolve_probe-table nonce inc s = ground arith

-- No claim in the message, or in one that it carries, that `id` is alive has an incarnation above
-- `inc`.
abbrev mutual
  pub NoRevival : ℕ → ℕ → WireMessage → Type 0
  NoRevival id inc (swim_alive x i) = x ≡ id → i ≤ inc
  NoRevival id inc (swim_ping_ack x nonce i) = x ≡ id → i ≤ inc
  NoRevival id inc (swim_ping x nonce piggyback) = NoRevivals id inc piggyback
  NoRevival id inc _ = Unit

  pub NoRevivals : ℕ → ℕ → Messages → Type 0
  NoRevivals id inc nil = Unit
  NoRevivals id inc (cons m ms) = NoRevival id inc m × NoRevivals id inc ms

-- The table of `t` comes from that of `s` in a way that keeps the invariant and, unless newer news
-- of `j` arrives, its death.
abbrev pub Keeps : ℕ → ℕ → Type 0 → Swim → Swim → Type 0
Keeps j inc Quiet s t =
    (t.local_id ≡ s.local_id)
    × (IsValid s → IsValid t)
    × (j ≢ s.local_id
        → Quiet
        → IsDeadSince inc (lookup j s.members)
        → IsDeadSince inc (lookup j t.members))

Keeps-alive : (j inc id i : ℕ) (s : Swim) → Keeps j inc (id ≡ j → i ≤ inc) s (mark_alive id i s)
Keeps-alive j inc id i s =
    let t = mark_alive id i s in
    let e = mark_alive-Sets id i s in
    (
      e.1,
      Sets-IsValid id _ s t e,
      λ n q d. Sets-dead id _ s t j inc e n d (λ h. rw h (alive_entry-dead inc _ d i (q h))),
    )

Keeps-suspect : (j inc now id i : ℕ) (s : Swim) → Keeps j inc Unit s (mark_suspect now id i s)
Keeps-suspect j inc now id i s =
    let t = mark_suspect now id i s in
    let e = mark_suspect-Sets now id i s in
    (
      e.1,
      Sets-IsValid id _ s t e,
      λ n q d. Sets-dead id _ s t j inc e n d (λ h. rw h (suspect_entry-dead inc _ d now i)),
    )

Keeps-dead : (j inc id i : ℕ) (s : Swim) → Keeps j inc Unit s (mark_dead id i s)
Keeps-dead j inc id i s =
    let t = mark_dead id i s in
    let e = mark_dead-Sets id i s in
    (
      e.1,
      Sets-IsValid id _ s t e,
      λ n q d. Sets-dead id _ s t j inc e n d (λ h. rw h (dead_entry-dead inc _ d i)),
    )

Keeps-refl : (j inc : ℕ) (Q : Type 0) (s : Swim) → Keeps j inc Q s s
Keeps-refl j inc Q s = (refl, λ v. v, λ n q d. d)

Keeps-trans :
    (j inc : ℕ) (P Q : Type 0) (r s t : Swim)
    → Keeps j inc P r s
    → Keeps j inc Q s t
    → Keeps j inc (P × Q) r t
Keeps-trans j inc P Q r s t a b =
    (rw (b.0) (a.0), λ v. b.1 (a.1 v), λ n q d. b.2 (rw (a.0) n) q.1 (a.2 n q.0 d))

Keeps-probe :
    (j inc : ℕ) (P : Type 0) (r s : Swim) (nonce i : ℕ)
    → Keeps j inc P r s
    → Keeps j inc P r (resolve_probe nonce i s).0
Keeps-probe j inc P r s nonce i a =
    let e = resolve_probe-table nonce i s in
    (
      rw (e.1) (a.0),
      λ v.
          let w = a.1 v in
          record { distinct = rw (e.0) (w.distinct); no_local = rw (e.0, e.1) (w.no_local) },
      λ n q d. rw (e.0) (a.2 n q d),
    )

mutual
  unfolding handle_message

  handle_message-Keeps :
      (j inc now : ℕ) (m : WireMessage) (s : Swim)
      → Keeps j inc (NoRevival j inc m) s (handle_message now m s).0
  handle_message-Keeps j inc now (swim_join id port) s =
      let k = Keeps-alive j inc id 0 s in (k.0, k.1, λ n q d. k.2 n (λ h. ground arith) d)
  handle_message-Keeps j inc now (swim_alive id i) s = Keeps-alive j inc id i s
  handle_message-Keeps j inc now (swim_suspect id i origin) s = Keeps-suspect j inc now id i s
  handle_message-Keeps j inc now (swim_dead id i origin) s = Keeps-dead j inc id i s
  handle_message-Keeps j inc now (swim_ping origin nonce piggyback) s =
      handle_all-Keeps j inc now piggyback s
  handle_message-Keeps j inc now (swim_ping_ack origin nonce i) s =
      Keeps-probe j inc _ s _ nonce i (Keeps-alive j inc origin i s)
  handle_message-Keeps j inc now _ s = Keeps-refl j inc Unit s

  handle_all-Keeps :
      (j inc now : ℕ) (ms : Messages) (s : Swim)
      → Keeps j inc (NoRevivals j inc ms) s (handle_all now ms s).0
  handle_all-Keeps j inc now nil s = Keeps-refl j inc Unit s
  handle_all-Keeps j inc now (cons m ms) s =
      Keeps-trans j inc _ _ s _ _ (handle_message-Keeps j inc now m s)
        (handle_all-Keeps j inc now ms (handle_message now m s).0)

-- From a valid table: whatever message arrives, and whatever messages it carries to any depth, the
-- table still lists no member twice and never the local node itself, and the node keeps its
-- identity.
pub handle_message-IsValid :
    (now : ℕ) (m : WireMessage) (s : Swim)
    → IsValid s
    → IsValid (handle_message now m s).0 × ((handle_message now m s).0.local_id ≡ s.local_id)
handle_message-IsValid now m s v = let k = handle_message-Keeps 0 0 now m s in (k.1 v, k.0)

-- Dead is terminal: a member, other than the local node, that is recorded dead with an incarnation
-- of at least `inc` stays so through any message, with all it carries, that does not claim this
-- member alive with an incarnation above `inc`.
pub handle_message-dead :
    (id inc now : ℕ) (m : WireMessage) (s : Swim)
    → id ≢ s.local_id
    → NoRevival id inc m
    → IsDeadSince inc (lookup id s.members)
    → IsDeadSince inc (lookup id (handle_message now m s).0.members)
handle_message-dead id inc now m s n q d = (handle_message-Keeps id inc now m s).2 n q d
