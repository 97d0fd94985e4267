-- ===== src/Types/Message.antt =====
-- The messages on the wire: `WireMessage` of crates/craftec-types/src/wire.rs. Nodes, content ids and
-- signatures are the numbers that their bytes spell.
use Prim.Native.Nat.{ℕ}
use mathlib.Core.Bool.{Bool, true, false}
use mathlib.Core.List.{List}
use craftec.Types.Piece.{CodedPiece}

mutual
  pub data WireMessage : Type 0 where
    ping : ℕ → WireMessage
    pong : ℕ → WireMessage
    piece_request : ℕ → List ℕ → ℕ → WireMessage
    piece_response : List CodedPiece → ℕ → WireMessage
    provider_announce : ℕ → ℕ → WireMessage
    signed_write : List ℕ → ℕ → ℕ → ℕ → WireMessage
    swim_join : ℕ → ℕ → WireMessage
    swim_alive : ℕ → ℕ → WireMessage
    swim_suspect : ℕ → ℕ → ℕ → WireMessage
    swim_dead : ℕ → ℕ → ℕ → WireMessage
    health_report : ℕ → ℕ → ℕ → WireMessage
    swim_ping : ℕ → ℕ → Messages → WireMessage
    swim_ping_ack : ℕ → ℕ → ℕ → WireMessage

  -- The vector of a ping's piggybacked messages.
  pub data Messages : Type 0 where
    nil : Messages
    cons : WireMessage → Messages → Messages

unfoldable pub is_swim : WireMessage → Bool
is_swim (swim_join node port) = true
is_swim (swim_alive node inc) = true
is_swim (swim_suspect node inc origin) = true
is_swim (swim_dead node inc origin) = true
is_swim (swim_ping origin nonce piggyback) = true
is_swim (swim_ping_ack origin nonce inc) = true
is_swim _ = false

unfoldable pub type_tag : WireMessage → ℕ
type_tag (ping nonce) = 0x0001
type_tag (pong nonce) = 0x0002
type_tag (piece_request cid indices id) = 0x0010
type_tag (piece_response pieces id) = 0x0011
type_tag (provider_announce cid node) = 0x0020
type_tag (signed_write payload signature writer version) = 0x0030
type_tag (swim_join node port) = 0x0100
type_tag (swim_alive node inc) = 0x0101
type_tag (swim_suspect node inc origin) = 0x0102
type_tag (swim_dead node inc origin) = 0x0103
type_tag (swim_ping origin nonce piggyback) = 0x0104
type_tag (swim_ping_ack origin nonce inc) = 0x0105
type_tag (health_report cid available target) = 0x0040
