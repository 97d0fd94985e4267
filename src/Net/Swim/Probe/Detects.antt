-- ===== src/Net/Swim/Probe/Detects.antt =====
-- A member that does not answer is found dead: crates/craftec-net/src/swim.rs.
use craftec.Prelude.{
  ℕ, ◌-◌, ◌≡◌, ◌≢◌, refl, ap, ◌∙◌, List, [], ◌∷◌, some, Bool, true, false, inl, inr, leb, ◌||◌,
  Bool-cases,
}
use craftec.Prelude.Assoc.{lookup}
use craftec.Types.Message.{WireMessage, Messages, swim_ping}
use craftec.Net.Swim.{Swim, MemberState, alive, suspect, dead, protocol_tick}
use craftec.Net.Swim.Marks.{IsValid}
use craftec.Net.Swim.Tick.{swept, protocol_tick-swept}
use craftec.Net.Swim.Probe.{probe_with_ack}
use craftec.Net.Swim.Tick.Target.{protocol_tick-keeps, protocol_tick-probe, is_alive-there}
use craftec.Net.Swim.Probe.Stands.{Stands, IsSilent, probe_with_ack-Stands}

-- Ticks of the loop at the given times.
unfoldable pub ticks : List ℕ → Swim → Swim
ticks [] s = s
ticks (now ∷ later) s = ticks later (protocol_tick now s).0

-- Some of the times is at least the timeout after the given one.
unfoldable pub some_late : ℕ → ℕ → List ℕ → Bool
some_late timeout since [] = false
some_late timeout since (now ∷ later) = leb timeout (now - since) || some_late timeout since later

Stands-tick :
    (now id : ℕ) (st st' : MemberState) (s t : Swim)
    → id ≢ s.local_id
    → swept now s.suspect_timeout (some st) ≡ some st'
    → Stands id st s t
    → Stands id st' s (protocol_tick now t).0
Stands-tick now id st st' s t other e h =
    let k = protocol_tick-keeps now t h.valid in
    record {
      valid = k.0;
      there =
          protocol_tick-swept now id t h.valid (rw h.local_id other)
          ∙ ap (swept now t.suspect_timeout) h.there
          ∙ ap (λ w. swept now w (some st)) h.timeout
          ∙ e;
      local_id = k.1 ∙ h.local_id;
      timeout = k.2 ∙ h.timeout;
    }

ticks-dead :
    (times : List ℕ) (id inc : ℕ) (s t : Swim)
    → id ≢ s.local_id
    → Stands id (dead inc) s t
    → Stands id (dead inc) s (ticks times t)
unfolding ticks
ticks-dead [] id inc s t other h = h
ticks-dead (now ∷ later) id inc s t other h =
    ticks-dead later id inc s (protocol_tick now t).0 other
      (Stands-tick now id (dead inc) (dead inc) s t other refl h)

ticks-suspect :
    (times : List ℕ) (id inc since : ℕ) (s t : Swim)
    → id ≢ s.local_id
    → Stands id (suspect inc since) s t
    → some_late s.suspect_timeout since times ≡ true
    → Stands id (dead inc) s (ticks times t)
unfolding ticks some_late
ticks-suspect [] id inc since s t other h late = absurd (cc)
ticks-suspect (now ∷ later) id inc since s t other h late =
    elim (Bool-cases (leb s.suspect_timeout (now - since))) [
      | inl e ↦
          ticks-dead later id inc s (protocol_tick now t).0 other
            (Stands-tick now id (suspect inc since) (dead inc) s t other (rw e refl) h)
      | inr e ↦
          ticks-suspect later id inc since s (protocol_tick now t).0 other
            (Stands-tick now id (suspect inc since) (suspect inc since) s t other (rw e refl) h)
            (let q = rw e at late in q)
    ]

-- From a valid table: when a tick sends a probe to a member, no ack comes for the probe nor for the
-- indirect ones it may start, and nothing else is received, the member is dead, with the
-- incarnation it was alive at, after any ticks of which one is at least the suspicion timeout later
-- than the end of the probe. That holds whether the probe can be sent or not.
pub silent_member-dead :
    (fails : Bool) (shuffle : List ℕ → List ℕ) (start now id origin nonce : ℕ)
    (piggyback : Messages) (rest : List (ℕ × WireMessage)) (times : List ℕ) (s : Swim)
    → IsValid s
    → (protocol_tick start s).1 ≡ (id, swim_ping origin nonce piggyback) ∷ rest
    → IsSilent nonce (protocol_tick start s).0
    → some_late s.suspect_timeout now times ≡ true
    → (inc : ℕ) × (lookup id (protocol_tick start s).0.members ≡ some (alive inc))
      × (lookup id
            (ticks times (
              probe_with_ack fails shuffle now id
                (swim_ping origin nonce piggyback)
                (protocol_tick start s).0)).members
          ≡ some (dead inc))
silent_member-dead fails shuffle start now id origin nonce piggyback rest times s v sent silent
      late =
    let t = (protocol_tick start s).0 in
    let k = protocol_tick-keeps start s v in
    let p = protocol_tick-probe start id _ rest s v sent in
    let (inc, there) = is_alive-there t id p.2 in
    let other : id ≢ t.local_id = rw k.1 p.1 in
    let probed =
      probe_with_ack-Stands fails shuffle now id inc origin nonce piggyback t p.0 other there
        silent in
    (inc, there, (ticks-suspect times id inc now t _ other probed (rw k.2 late)).there)
