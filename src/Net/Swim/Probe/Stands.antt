-- ===== src/Net/Swim/Probe/Stands.antt =====
-- A probe that nobody answers: `probe_with_ack` of crates/craftec-net/src/swim.rs.
use craftec.Prelude.{
  ℕ, ◌≡◌, ◌≢◌, refl, ap, ◌∙◌, arith, List, [], some, Bool, true, false, inl, inr, leb, eq_refl,
  Bool-cases,
}
use craftec.Prelude.Assoc.{lookup, insert, remove}
use craftec.Prelude.Multimap.{is_empty}
use craftec.Types.Message.{Messages, swim_ping}
use craftec.Net.Swim.{
  Swim, MemberState, alive, suspect, suspect_entry, mark_suspect, last_known_incarnation,
  incarnation_of, register_probe,
}
use craftec.Net.Swim.Marks.{IsValid, Sets-IsValid, Sets-lookup, mark_suspect-Sets}
use craftec.Net.Swim.Probe.{
  acked, random_alive_excluding, indirect_probe_k, suspect_target, start_probe, after_send, pings,
  after_direct, after_indirect, probe_with_ack, last_step, ended, await_indirect,
}

-- A valid table in which the member stands as given, with the node's own id and timeout.
pub record Stands (id : ℕ) (st : MemberState) (s t : Swim) : Type 0 where
  pub valid : IsValid t
  pub there : lookup id t.members ≡ some st
  pub local_id : t.local_id ≡ s.local_id
  pub timeout : t.suspect_timeout ≡ s.suspect_timeout

mark_suspect-timeout :
    (now id inc : ℕ) (s : Swim) → (mark_suspect now id inc s).suspect_timeout ≡ s.suspect_timeout
unfolding mark_suspect
mark_suspect-timeout now id inc s = ground arith

last_known_incarnation-alive :
    (id inc : ℕ) (t : Swim)
    → lookup id t.members ≡ some (alive inc)
    → last_known_incarnation t id ≡ inc
unfolding last_known_incarnation incarnation_of
last_known_incarnation-alive id inc t h = rw (h, last_known_incarnation) refl

suspect_entry-alive : (now inc : ℕ) → suspect_entry now inc (some (alive inc)) ≡ suspect inc now
unfolding suspect_entry
suspect_entry-alive now inc = let same : leb inc inc ≡ true = ground arith in rw same refl

mark_suspect-Stands :
    (now id inc : ℕ) (s t : Swim)
    → id ≢ s.local_id
    → Stands id (alive inc) s t
    → Stands id (suspect inc now) s (mark_suspect now id inc t)
mark_suspect-Stands now id inc s t other h =
    let e = mark_suspect-Sets now id inc t in
    let entry : suspect_entry now inc (lookup id t.members) ≡ suspect inc now =
      ap (suspect_entry now inc) h.there ∙ suspect_entry-alive now inc in
    record {
      valid = Sets-IsValid id _ t (mark_suspect now id inc t) e h.valid;
      there =
          Sets-lookup id _ t (mark_suspect now id inc t) id e (rw h.local_id other)
          ∙ rw (eq_refl id) (ap some entry);
      local_id = e.1 ∙ h.local_id;
      timeout = mark_suspect-timeout now id inc t ∙ h.timeout;
    }

suspect_target-Stands :
    (now id inc : ℕ) (s t : Swim)
    → id ≢ s.local_id
    → Stands id (alive inc) s t
    → Stands id (suspect inc now) s (suspect_target now id t)
unfolding suspect_target
suspect_target-Stands now id inc s t other h =
    rw (last_known_incarnation-alive id inc t h.there) (mark_suspect-Stands now id inc s t other h)

-- A node that nobody answers for: neither probe is acked.
abbrev pub IsSilent : ℕ → Swim → Type 0
IsSilent nonce s = (acked nonce s ≡ false) × (acked s.probe_nonce s ≡ false)

register_probe-Stands :
    (id : ℕ) (st : MemberState) (s t : Swim)
    → Stands id st s t
    → Stands id st s (register_probe t).0
unfolding register_probe
register_probe-Stands id st s t h = record {
  valid = record { distinct = h.valid.distinct; no_local = h.valid.no_local };
  there = h.there;
  local_id = h.local_id;
  timeout = h.timeout;
}

after_indirect-Stands :
    (now id inc nonce : ℕ) (s t : Swim)
    → id ≢ s.local_id
    → Stands id (alive inc) s t
    → acked nonce t ≡ false
    → Stands id (suspect inc now) s (after_indirect now id nonce t)
unfolding after_indirect
after_indirect-Stands now id inc nonce s t other h silent =
    rw silent (suspect_target-Stands now id inc s t other h)

acked-register_probe : (nonce : ℕ) (t : Swim) → acked nonce (register_probe t).0 ≡ acked nonce t
unfolding acked register_probe
acked-register_probe nonce t = refl

after_direct-nobody :
    (shuffle : List ℕ → List ℕ) (now id nonce : ℕ) (t : Swim)
    → acked nonce t ≡ false
    → is_empty (random_alive_excluding shuffle id indirect_probe_k t) ≡ true
    → after_direct shuffle now id nonce t ≡ (suspect_target now id t, ended, [])
unfolding after_direct
after_direct-nobody shuffle now id nonce t silent nobody = rw (silent, nobody) refl

after_direct-asks :
    (shuffle : List ℕ → List ℕ) (now id nonce : ℕ) (t : Swim)
    → acked nonce t ≡ false
    → is_empty (random_alive_excluding shuffle id indirect_probe_k t) ≡ false
    → after_direct shuffle now id nonce t ≡ (
      (register_probe t).0,
      await_indirect t.probe_nonce,
      pings t.local_id t.probe_nonce (random_alive_excluding shuffle id indirect_probe_k t),
    )
unfolding after_direct register_probe
after_direct-asks shuffle now id nonce t silent some_one = rw (silent, some_one) refl

after_direct-Stands :
    (shuffle : List ℕ → List ℕ) (now id inc nonce : ℕ) (s t : Swim)
    → id ≢ s.local_id
    → Stands id (alive inc) s t
    → IsSilent nonce t
    → Stands id (suspect inc now) s (last_step now id (after_direct shuffle now id nonce t))
after_direct-Stands shuffle now id inc nonce s t other h silent =
    elim (Bool-cases (is_empty (random_alive_excluding shuffle id indirect_probe_k t))) [
      | inl nobody ↦
          rw (after_direct-nobody shuffle now id nonce t silent.0 nobody)
            (suspect_target-Stands now id inc s t other h)
      | inr some_one ↦ rw (after_direct-asks shuffle now id nonce t silent.0 some_one) (
          after_indirect-Stands now id inc t.probe_nonce s (register_probe t).0 other
            (register_probe-Stands id (alive inc) s t h)
            (acked-register_probe t.probe_nonce t ∙ silent.1))
    ]

Waiting-Stands :
    (id nonce : ℕ) (st : MemberState) (s t : Swim) (p : List (ℕ × Unit {0}))
    → Stands id st s t
    → Stands id st s (record t { pending_probes = p })
Waiting-Stands id nonce st s t p h = record {
  valid = record { distinct = h.valid.distinct; no_local = h.valid.no_local };
  there = h.there;
  local_id = h.local_id;
  timeout = h.timeout;
}

-- Whether its message cannot be sent or no ack comes, a probe of an alive member ends with the
-- member suspected at its own incarnation.
pub probe_with_ack-Stands :
    (fails : Bool) (shuffle : List ℕ → List ℕ) (now id inc origin nonce : ℕ) (piggyback : Messages)
    (s : Swim)
    → IsValid s
    → id ≢ s.local_id
    → lookup id s.members ≡ some (alive inc)
    → IsSilent nonce s
    → Stands id
        (suspect inc now)
        s
        (probe_with_ack fails shuffle now id (swim_ping origin nonce piggyback) s)
unfolding probe_with_ack start_probe after_send acked
probe_with_ack-Stands fails shuffle now id inc origin nonce piggyback s v other there silent =
    let here : Stands id (alive inc) s s = record {
      valid = v;
      there = there;
      local_id = refl;
      timeout = refl;
    } in
    elim (Bool-cases fails) [
      | inl e ↦ rw e (
          suspect_target-Stands now id inc s _ other (
            Waiting-Stands id nonce (alive inc) s s
              (remove nonce (insert nonce tt s.pending_probes)) here))
      | inr e ↦ rw e (
          after_direct-Stands shuffle now id inc nonce s _ other
            (Waiting-Stands id nonce (alive inc) s s (insert nonce tt s.pending_probes) here)
            silent)
    ]
