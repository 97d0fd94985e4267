-- ===== src/Net/Tests.antt =====
-- Examples for the code: a table with one member of each kind.
use craftec.Prelude.{ℕ, some, ◌≡◌, refl, arith, [], ◌∷◌, true, false, not, ◌&&◌, ◌||◌, ◌==◌}
use craftec.Prelude.Assoc.{lookup, insert, Distinct}
use craftec.Types.Message.{WireMessage, Messages, nil, cons, swim_alive, swim_ping, swim_suspect}
use craftec.Net.Dht
use craftec.Net.Pool
use craftec.Net.Dht.{DhtProviders, announce_provider, remove_provider, remove_node}
use craftec.Net.Dht.Providers.{provides, providers_lem}
use craftec.Net.Pending
use craftec.Types.Piece.{CodedPiece}
use craftec.Net.Swim
use craftec.Net.Swim.{
  Swim, MemberState, alive, suspect, dead, handle_message, protocol_tick, adaptive_piggyback_count,
  is_alive, alive_members,
}
use craftec.Net.Swim.Marks.{IsValid, IsDeadSince}
use craftec.Net.Swim.Handle.{handle_message-IsValid, handle_message-dead}
use craftec.Net.Swim.Probe.{acked, probe_with_ack}
use craftec.Net.Swim.Probe.Stands.{IsSilent}
use craftec.Net.Swim.Probe.Detects.{ticks, some_late, silent_member-dead}
use craftec.Net.Swim.Tick.{protocol_tick-swept, swept}

abbrev table : Swim
table = record {
  members = (11, alive 3) ∷ (12, suspect 4 100) ∷ (13, dead 5) ∷ [];
  incarnation = 0;
  local_id = 10;
  suspect_timeout = 5000;
  probe_index = 0;
  probe_nonce = 0;
  pending_probes = [];
  tick_count = 0;
  listening = true;
  events = [];
  acks = [];
}

table-IsValid : IsValid table
unfolding lookup
table-IsValid = record { distinct = (refl, (refl, (refl, tt))); no_local = refl }

-- A ping that carries stale news of the dead member and a suspicion of the alive one.
abbrev stale : WireMessage
stale = swim_ping 11 8 (cons (swim_alive 13 5) (cons (swim_suspect 11 3 12) nil))

handle_message-IsValid_example :
    IsValid (handle_message 200 stale table).0 × ((handle_message 200 stale table).0.local_id ≡ 10)
handle_message-IsValid_example = handle_message-IsValid 200 stale table table-IsValid

is_13_dead : IsDeadSince 5 (lookup 13 table.members)
unfolding lookup
is_13_dead = (5, refl, omega arith)

handle_message-dead_example : IsDeadSince 5 (lookup 13 (handle_message 200 stale table).0.members)
handle_message-dead_example =
    handle_message-dead 13 5 200 stale table (omega arith) (λ e. omega arith, (tt, tt)) is_13_dead

protocol_tick-swept_example :
    lookup 12 (protocol_tick 6000 table).0.members ≡ swept 6000 5000 (lookup 12 table.members)
protocol_tick-swept_example = protocol_tick-swept 6000 12 table table-IsValid (omega arith)

-- A cluster with somebody to ask for an indirect probe.
abbrev crowded : Swim
crowded = record {
  members = (11, alive 3) ∷ (14, alive 2) ∷ [];
  incarnation = 0;
  local_id = 10;
  suspect_timeout = 5000;
  probe_index = 0;
  probe_nonce = 7;
  pending_probes = [];
  tick_count = 0;
  listening = true;
  events = [];
  acks = (6, 3) ∷ [];
}

crowded-IsValid : IsValid crowded
unfolding lookup
crowded-IsValid = record { distinct = (refl, (refl, tt)); no_local = refl }

abbrev all_alive : Messages
all_alive = cons (swim_alive 11 3) (cons (swim_alive 14 2) nil)

crowded-sends : (protocol_tick 6000 crowded).1 ≡ (11, swim_ping 10 7 all_alive) ∷ []
unfolding protocol_tick lookup insert alive_members Swim.mark_dead adaptive_piggyback_count
crowded-sends = refl

crowded-IsSilent : IsSilent 7 (protocol_tick 6000 crowded).0
unfolding protocol_tick lookup acked alive_members
crowded-IsSilent = (refl, refl)

two_ticks : some_late 5000 7200 (7700 ∷ 12200 ∷ []) ≡ true
unfolding some_late
two_ticks = refl

silent_member-dead_example :
    (inc : ℕ) × (lookup 11 (protocol_tick 6000 crowded).0.members ≡ some (alive inc))
    × (lookup 11
          (ticks (7700 ∷ 12200 ∷ []) (
            probe_with_ack false
              (λ l. l)
              7200
              11
              (swim_ping 10 7 all_alive)
              (protocol_tick 6000 crowded).0)).members
        ≡ some (dead inc))
silent_member-dead_example =
    silent_member-dead false (λ l. l) 6000 7200 11 10 7 all_alive [] (7700 ∷ 12200 ∷ []) crowded
      crowded-IsValid crowded-sends crowded-IsSilent two_ticks

abbrev provider : ℕ → ℕ → Dht.ProviderRecord
provider node seen = record { node_id = node; announced_at = seen }

abbrev providers : DhtProviders
providers = (7, provider 1 100 ∷ provider 2 200 ∷ []) ∷ (8, provider 1 300 ∷ []) ∷ []

providers-Distinct : Distinct providers
unfolding lookup
providers-Distinct = (refl, (refl, tt))

providers_lem_example :
    (provides (announce_provider 500 8 2 providers) 8 2
      ≡ (((8 == 8) && (2 == 2)) || provides providers 8 2))
    × (provides (remove_provider 8 2 providers) 8 2
        ≡ (provides providers 8 2 && not ((8 == 8) && (2 == 2))))
    × (provides (remove_node 2 providers) 8 2 ≡ (provides providers 8 2 && not (2 == 2)))
    × Distinct (announce_provider 500 8 2 providers)
    × Distinct (remove_provider 8 2 providers)
    × Distinct (remove_node 2 providers)
providers_lem_example = providers_lem 500 8 2 providers 8 2 providers-Distinct

abbrev pooled : ℕ → ℕ → Pool.PooledConnection
pooled conn used = record { connection = conn; established_at = 5; last_used = used }

abbrev pool : Pool.ConnectionPool
pool = record { connections = (1, pooled 11 10) ∷ (2, pooled 12 20) ∷ []; max_connections = 2 }

pool-IsValid : Pool.Bounds.IsValid pool
unfolding lookup
pool-IsValid = record { distinct = (refl, (refl, tt)); bounded = omega arith }

insert_lem_example :
    Pool.Bounds.IsValid (Pool.insert 30 3 13 pool)
    × (lookup 3 (Pool.insert 30 3 13 pool).connections
        ≡ some (record { connection = 13; established_at = 30; last_used = 30 }))
    × Pool.Bounds.Evicts pool (Pool.insert 30 3 13 pool).connections 1
insert_lem_example = Pool.Bounds.insert_lem 30 3 13 1 pool pool-IsValid (λ e. ground arith)

-- Two wait for content 7 and one for 8 when a piece of 7 comes.
abbrev asked : Pending.PendingFetches
asked = (Pending.register 30 7 (Pending.register 20 8 (Pending.register 10 7 Pending.new).0).0).0

abbrev a_piece : CodedPiece
a_piece = record {
  piece_id = 1;
  cid = 7;
  coding_vector = 1 ∷ 0 ∷ [];
  data_bytes = 4 ∷ [];
  hommac_tag = [];
}
