-- ===== src/Net/Swim.antt =====
-- SWIM membership: crates/craftec-net/src/swim.rs. The table is an association list, whose order
-- stands for the map's iteration order. `now` is what `Instant::now()` gives, in milliseconds. A
-- channel that was sent on is a list of what was sent: `events` for the bus and `acks` for the
-- waiting probes. The log of the code is left out.
pub mod Marks
pub mod Handle
pub mod Tick
pub mod Gossip
pub mod Probe
use craftec.Prelude.{
  ℕ, zero, suc, ◌+◌, ◌-◌, ◌%◌, ◌/◌, ◌^◌, max, List, [], ◌∷◌, ◌++◌, Option, none, some, Bool, true,
  false, not, ◌&&◌, ltb, leb, ◌==◌, if◌then◌else◌, length, get_or, take, map,
}
use craftec.Prelude.Assoc.{lookup, insert, remove, contains_key}
use craftec.Types.Message.{
  WireMessage, Messages, nil, cons, swim_join, swim_alive, swim_suspect, swim_dead, swim_ping,
  swim_ping_ack,
}

pub data MemberState : Type 0 where
  alive : ℕ → MemberState
  suspect : ℕ → ℕ → MemberState
  dead : ℕ → MemberState

pub data Event : Type 0 where
  peer_connected : ℕ → Event
  peer_disconnected : ℕ → Event

pub record Swim : Type 0 where
  pub members : List (ℕ × MemberState)
  pub incarnation : ℕ
  pub local_id : ℕ
  pub suspect_timeout : ℕ
  pub probe_index : ℕ
  pub probe_nonce : ℕ
  pub pending_probes : List (ℕ × Unit {0})
  pub tick_count : ℕ
  pub listening : Bool
  pub events : List Event
  pub acks : List (ℕ × ℕ)

unfoldable pub new : ℕ → Swim
new local_id = record {
  members = [];
  incarnation = 0;
  local_id = local_id;
  suspect_timeout = 5000;
  probe_index = 0;
  probe_nonce = 0;
  pending_probes = [];
  tick_count = 0;
  listening = false;
  events = [];
  acks = [];
}

-- `AtomicU64::fetch_add(1)`.
abbrev pub increment : ℕ → ℕ
increment n = (n + 1) % 2 ^ 64

unfoldable pub is_alive_state : MemberState → Bool
is_alive_state (alive inc) = true
is_alive_state (suspect inc since) = false
is_alive_state (dead inc) = false

unfoldable pub alive_members : List (ℕ × MemberState) → List ℕ
unfolding is_alive_state
alive_members [] = []
alive_members ((id, st) ∷ m) = if is_alive_state st then id ∷ alive_members m else alive_members m

unfoldable pub is_alive : Swim → ℕ → Bool
unfolding is_alive_state
is_alive s id = elim (lookup id s.members) [ none ↦ false | some st ↦ is_alive_state st ]

-- Sends on the event bus, if one was set.
pub emit : Event → Swim → Swim
emit e s = if s.listening then record s { events = s.events ++ e ∷ [] } else s

-- The entry's closure in `mark_alive`, and its insertion.
pub alive_entry : ℕ → Option MemberState → MemberState
alive_entry incarnation none = alive incarnation
alive_entry incarnation (some (alive inc)) =
    if leb incarnation inc then alive inc else alive incarnation
alive_entry incarnation (some (suspect inc since)) =
    if ltb incarnation inc then suspect inc since else alive incarnation
alive_entry incarnation (some (dead inc)) =
    if leb incarnation inc then dead inc else alive incarnation

unfoldable pub mark_alive : ℕ → ℕ → Swim → Swim
unfolding alive_entry emit lookup contains_key
mark_alive id incarnation s =
    if id == s.local_id
    then s
    else let is_new = not (contains_key id s.members) in
      let s' = record s {
        members = insert id (alive_entry incarnation (lookup id s.members)) s.members;
      } in
      if is_new then emit (peer_connected id) s' else s'

pub suspect_entry : ℕ → ℕ → Option MemberState → MemberState
suspect_entry now incarnation none = suspect incarnation now
suspect_entry now incarnation (some (alive inc)) =
    if leb inc incarnation then suspect incarnation now else alive inc
suspect_entry now incarnation (some (suspect inc since)) =
    if ltb inc incarnation then suspect incarnation now else suspect inc since
suspect_entry now incarnation (some (dead inc)) = dead inc

unfoldable pub mark_suspect : ℕ → ℕ → ℕ → Swim → Swim
unfolding suspect_entry lookup
mark_suspect now id incarnation s =
    if id == s.local_id then record s { incarnation = increment s.incarnation } else record s {
      members = insert id (suspect_entry now incarnation (lookup id s.members)) s.members;
    }

pub dead_entry : ℕ → Option MemberState → MemberState
dead_entry incarnation (some (dead inc)) =
    if ltb inc incarnation then dead incarnation else dead inc
dead_entry incarnation _ = dead incarnation

pub was_connected : Option MemberState → Bool
was_connected none = false
was_connected (some (alive inc)) = true
was_connected (some (suspect inc since)) = true
was_connected (some (dead inc)) = false

unfoldable pub mark_dead : ℕ → ℕ → Swim → Swim
unfolding dead_entry was_connected emit lookup
mark_dead id incarnation s =
    if id == s.local_id
    then s
    else let old = lookup id s.members in
      let s' = record s { members = insert id (dead_entry incarnation old) s.members } in
      if was_connected old then emit (peer_disconnected id) s' else s'

unfoldable pub register_probe : Swim → Swim × ℕ
register_probe s = (
  record s {
    probe_nonce = increment s.probe_nonce;
    pending_probes = insert s.probe_nonce tt s.pending_probes;
  },
  s.probe_nonce,
)

unfoldable pub resolve_probe : ℕ → ℕ → Swim → Swim × Bool
resolve_probe nonce incarnation s =
    if contains_key nonce s.pending_probes
    then (
      record s {
        pending_probes = remove nonce s.pending_probes;
        acks = s.acks ++ (nonce, incarnation) ∷ [];
      },
      true,
    )
    else (s, false)

pub incarnation_of : MemberState → ℕ
incarnation_of (alive inc) = inc
incarnation_of (suspect inc since) = inc
incarnation_of (dead inc) = inc

unfoldable pub last_known_incarnation : Swim → ℕ → ℕ
unfolding incarnation_of
last_known_incarnation s id = elim (lookup id s.members) [ none ↦ 0 | some st ↦ incarnation_of st ]

-- The message and the piggybacked ones, in their order; the answers in theirs.
unfoldable mutual
  pub handle_message : ℕ → WireMessage → Swim → Swim × List WireMessage
  handle_message now (swim_join id port) s =
      (mark_alive id 0 s, swim_alive s.local_id (mark_alive id 0 s).incarnation ∷ [])
  handle_message now (swim_alive id inc) s = (mark_alive id inc s, swim_alive id inc ∷ [])
  handle_message now (swim_suspect id inc origin) s =
      (mark_suspect now id inc s, swim_suspect id inc origin ∷ [])
  handle_message now (swim_dead id inc origin) s =
      (mark_dead id inc s, swim_dead id inc origin ∷ [])
  handle_message now (swim_ping origin nonce piggyback) s =
      let (s', responses) = handle_all now piggyback s in
      (s', responses ++ swim_ping_ack s.local_id nonce s'.incarnation ∷ [])
  handle_message now (swim_ping_ack origin nonce inc) s =
      ((resolve_probe nonce inc (mark_alive origin inc s)).0, [])
  handle_message now _ s = (s, [])

  pub handle_all : ℕ → Messages → Swim → Swim × List WireMessage
  handle_all now nil s = (s, [])
  handle_all now (cons m ms) s =
      let (s', first) = handle_message now m s in
      let (s'', rest) = handle_all now ms s' in (s'', first ++ rest)

-- The suspects whose time has come, with their incarnations.
pub expired : ℕ → ℕ → List (ℕ × MemberState) → List (ℕ × ℕ)
expired now timeout [] = []
expired now timeout ((id, suspect inc since) ∷ m) =
    if leb timeout (now - since) then (id, inc) ∷ expired now timeout m else expired now timeout m
expired now timeout ((id, alive inc) ∷ m) = expired now timeout m
expired now timeout ((id, dead inc) ∷ m) = expired now timeout m

pub mark_all_dead : List (ℕ × ℕ) → Swim → Swim
mark_all_dead [] s = s
mark_all_dead ((id, inc) ∷ rest) s = mark_all_dead rest (mark_dead id inc s)

-- `sort_by_key` is stable: first the alive members, then the suspects, then the dead.
pub with_rank : (MemberState → Bool) → List (ℕ × MemberState) → List (ℕ × MemberState)
with_rank p [] = []
with_rank p ((id, st) ∷ m) = if p st then (id, st) ∷ with_rank p m else with_rank p m

unfoldable pub is_suspect_state : MemberState → Bool
is_suspect_state (alive inc) = false
is_suspect_state (suspect inc since) = true
is_suspect_state (dead inc) = false

unfoldable pub is_dead_state : MemberState → Bool
is_dead_state (alive inc) = false
is_dead_state (suspect inc since) = false
is_dead_state (dead inc) = true

pub by_rank : List (ℕ × MemberState) → List (ℕ × MemberState)
unfolding with_rank is_alive_state is_suspect_state is_dead_state
by_rank m =
    with_rank is_alive_state m ++ (with_rank is_suspect_state m ++ with_rank is_dead_state m)

pub gossip : ℕ → ℕ × MemberState → WireMessage
gossip local_id (id, alive inc) = swim_alive id inc
gossip local_id (id, suspect inc since) = swim_suspect id inc local_id
gossip local_id (id, dead inc) = swim_dead id inc local_id

pub to_messages : List WireMessage → Messages
to_messages [] = nil
to_messages (m ∷ ms) = cons m (to_messages ms)

pub collect_gossip_msgs : ℕ → Swim → List WireMessage
unfolding by_rank gossip
collect_gossip_msgs limit s = map (gossip s.local_id) (take limit (by_rank s.members))

-- The rounded logarithm of a 64-bit number, `usize::BITS - leading_zeros - 1`, on fuel.
unfoldable pub log2_rounds : ℕ → ℕ → ℕ
log2_rounds zero n = 0
log2_rounds (suc f) n = let rest = log2_rounds f (n / 2) in if ltb n 2 then 0 else rest + 1

unfoldable pub adaptive_piggyback_count : ℕ → ℕ
adaptive_piggyback_count n =
    if leb n 16
    then 4
    else let log2 = log2_rounds 64 n in
      let ceil_log2 = if n == 2 ^ log2 then log2 else log2 + 1 in max ceil_log2 4

unfoldable pub protocol_tick : ℕ → Swim → Swim × List (ℕ × WireMessage)
unfolding expired mark_all_dead collect_gossip_msgs to_messages
protocol_tick now s =
    let s' = mark_all_dead (expired now s.suspect_timeout s.members) s in
    let alive = alive_members s'.members in
    let ticked = record s' { tick_count = increment s'.tick_count } in
    if length alive == 0
    then (ticked, [])
    else let target = get_or alive (s'.probe_index % length alive) 0 in
      let piggyback =
        to_messages (collect_gossip_msgs (adaptive_piggyback_count (length alive)) ticked) in
      (
        record ticked {
          probe_index = increment s'.probe_index;
          probe_nonce = increment s'.probe_nonce;
        },
        (target, swim_ping s'.local_id s'.probe_nonce piggyback) ∷ [],
      )
