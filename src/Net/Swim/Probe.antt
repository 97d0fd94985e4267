-- ===== src/Net/Swim/Probe.antt =====
-- A probe with its waits: `probe_with_ack` of crates/craftec-net/src/swim.rs. Each function is what
-- the code does from one await to the next; that an ack came before a wait ends is read off the
-- list of those sent to waiting probes. The order that the random generator gives to the candidates
-- is a parameter.
pub mod Stands
pub mod Detects
use craftec.Prelude.{ℕ, List, [], ◌∷◌, Bool, true, false, not, ◌==◌, if◌then◌else◌, take, map}
use craftec.Prelude.Assoc.{insert, remove, contains_key}
use craftec.Prelude.Multimap.{retain, is_empty}
use craftec.Types.Message.{WireMessage, nil, swim_ping}
use craftec.Net.Swim.{Swim, alive_members, mark_suspect, last_known_incarnation, register_probe}

-- What the probe waits for: that its message is sent, the ack of the target, or that of a delegate.
pub data Phase : Type 0 where
  sending : ℕ → Phase
  await_direct : ℕ → Phase
  await_indirect : ℕ → Phase
  ended : Phase

abbrev pub indirect_probe_k : ℕ
indirect_probe_k = 3

unfoldable pub random_alive_excluding : (List ℕ → List ℕ) → ℕ → ℕ → Swim → List ℕ
unfolding alive_members retain
random_alive_excluding shuffle exclude count s =
    take count (shuffle (retain (λ id. not (id == exclude)) (alive_members s.members)))

unfoldable pub suspect_target : ℕ → ℕ → Swim → Swim
unfolding mark_suspect last_known_incarnation
suspect_target now target s = mark_suspect now target (last_known_incarnation s target) s

unfoldable pub acked : ℕ → Swim → Bool
unfolding contains_key
acked nonce s = contains_key nonce s.acks

-- Step 1.
unfoldable pub start_probe : WireMessage → Swim → Swim × Phase
start_probe (swim_ping origin nonce piggyback) s =
    (record s { pending_probes = insert nonce tt s.pending_probes }, sending nonce)
start_probe _ s = (s, ended)

-- The message was sent, or could not be.
unfoldable pub after_send : Bool → ℕ → ℕ → ℕ → Swim → Swim × Phase
unfolding suspect_target
after_send true now target nonce s =
    (suspect_target now target (record s { pending_probes = remove nonce s.pending_probes }), ended)
after_send false now target nonce s = (s, await_direct nonce)

abbrev pub pings : ℕ → ℕ → List ℕ → List (ℕ × WireMessage)
pings local_id nonce delegates = map (λ d. (d, swim_ping local_id nonce nil)) delegates

-- Steps 2 and 3, when the first wait ends.
unfoldable pub after_direct :
    (List ℕ → List ℕ) → ℕ → ℕ → ℕ → Swim → Swim × Phase × List (ℕ × WireMessage)
unfolding acked random_alive_excluding suspect_target register_probe
after_direct shuffle now target nonce s =
    let delegates = random_alive_excluding shuffle target indirect_probe_k s in
    let (s', indirect_nonce) = register_probe s in
    if acked nonce s
    then (s, ended, [])
    else if is_empty delegates
    then (suspect_target now target s, ended, [])
    else (s', await_indirect indirect_nonce, pings s.local_id indirect_nonce delegates)

-- Step 4, when the second wait ends.
unfoldable pub after_indirect : ℕ → ℕ → ℕ → Swim → Swim
unfolding acked suspect_target
after_indirect now target nonce s = if acked nonce s then s else suspect_target now target s

abbrev pub last_step : ℕ → ℕ → Swim × Phase × List (ℕ × WireMessage) → Swim
last_step now target (s, await_indirect nonce, sent) = after_indirect now target nonce s
last_step now target (s, phase, sent) = s

abbrev pub second_step : (List ℕ → List ℕ) → ℕ → ℕ → Swim × Phase → Swim
second_step shuffle now target (s, await_direct nonce) =
    last_step now target (after_direct shuffle now target nonce s)
second_step shuffle now target (s, phase) = s

abbrev pub first_step : Bool → (List ℕ → List ℕ) → ℕ → ℕ → Swim × Phase → Swim
first_step fails shuffle now target (s, sending nonce) =
    second_step shuffle now target (after_send fails now target nonce s)
first_step fails shuffle now target (s, phase) = s

-- The whole probe, where nothing else goes on while it waits; `now` is when it ends.
unfoldable pub probe_with_ack : Bool → (List ℕ → List ℕ) → ℕ → ℕ → WireMessage → Swim → Swim
unfolding start_probe after_send after_direct after_indirect
probe_with_ack fails shuffle now target msg s =
    first_step fails shuffle now target (start_probe msg s)
