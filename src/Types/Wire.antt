-- ===== src/Types/Wire.antt =====
-- Framing: crates/craftec-types/src/wire.rs. postcard is the parameters `serialize` and
-- `deserialize`, for the messages and for the two RPC types. The serialised length fits a u32 or is
-- cut to one.
pub mod Frames
use craftec.Prelude.{
  ℕ, ◌+◌, ◌%◌, ◌^◌, List, [], ◌∷◌, ◌++◌, Option, none, some, ltb, ◌==◌, if◌then◌else◌, not, length,
  take, drop, get_or,
}
use craftec.Prelude.Bytes.{to_be_bytes, from_be_bytes}

abbrev pub wire_version : ℕ
wire_version = 1

abbrev pub frame_header_size : ℕ
frame_header_size = 17

abbrev pub frame_header_v0_size : ℕ
frame_header_v0_size = 9

abbrev pub type_tag_rpc_request : ℕ
type_tag_rpc_request = 0x0200

abbrev pub type_tag_rpc_response : ℕ
type_tag_rpc_response = 0x0201

-- The texts of `SerializationError`, one constructor for each.
pub data WireError : Type 0 where
  frame_too_short : ℕ → ℕ → WireError
  frame_truncated : ℕ → ℕ → WireError
  unsupported_version : ℕ → WireError
  wrong_type_tag : ℕ → ℕ → WireError
  postcard_decode : WireError

pub data Result (A : Type 0) : Type 0 where
  ok : A → Result A
  err : WireError → Result A

-- The frame of a serialised payload: `encode_framed_with_hlc` and the two RPC encoders.
pub frame : ℕ → ℕ → List ℕ → List ℕ
frame tag hlc_ts payload =
    to_be_bytes 4 tag
    ++ wire_version ∷ (to_be_bytes 8 hlc_ts ++ (to_be_bytes 4 (length payload % 2 ^ 32) ++ payload))

-- `from_be_bytes` of the `n` bytes from `offset` on.
abbrev pub be_field : List ℕ → ℕ → ℕ → ℕ
be_field bytes offset n = from_be_bytes (take n (drop offset bytes))

-- `&data[offset..offset + n]`.
abbrev pub slice : List ℕ → ℕ → ℕ → List ℕ
slice bytes offset n = take n (drop offset bytes)

module _ {M : Type 0} (serialize : M → List ℕ) (deserialize : List ℕ → Option M) where
  pub parse : List ℕ → ℕ → Result (M × ℕ)
  parse payload hlc_ts = elim (deserialize payload) [
    | none ↦ err postcard_decode
    | some m ↦ ok (m, hlc_ts)
  ]

  -- The arm of version 0.
  pub decode_v0 : List ℕ → Result (M × ℕ)
  decode_v0 bytes =
      let payload_len = be_field bytes 5 4 in
      if ltb (length bytes) (frame_header_v0_size + payload_len)
      then err (frame_truncated (length bytes) (frame_header_v0_size + payload_len))
      else parse (slice bytes frame_header_v0_size payload_len) 0

  -- What follows the check of the header's size in version 1, and in the RPC decoders.
  pub decode_body : List ℕ → Result (M × ℕ)
  decode_body bytes =
      let hlc_ts = be_field bytes 5 8 in
      let payload_len = be_field bytes 13 4 in
      if ltb (length bytes) (frame_header_size + payload_len)
      then err (frame_truncated (length bytes) (frame_header_size + payload_len))
      else parse (slice bytes frame_header_size payload_len) hlc_ts

  pub decode_v1 : List ℕ → Result (M × ℕ)
  decode_v1 bytes =
      if ltb (length bytes) frame_header_size
      then err (frame_too_short (length bytes) frame_header_size)
      else decode_body bytes

  module _ (tag_of : M → ℕ) where
    pub encode_framed_with_hlc : M → ℕ → List ℕ
    encode_framed_with_hlc msg hlc_ts = frame (tag_of msg) hlc_ts (serialize msg)

  pub decode_framed_with_hlc : List ℕ → Result (M × ℕ)
  decode_framed_with_hlc bytes =
      let version = get_or bytes 4 0 in
      if ltb (length bytes) frame_header_v0_size
      then err (frame_too_short (length bytes) frame_header_v0_size)
      else if version == 0
      then decode_v0 bytes
      else if version == 1
      then decode_v1 bytes
      else err (unsupported_version version)

  -- `encode_rpc_request` and `encode_rpc_response`, at their tags.
  pub encode_rpc : ℕ → M → ℕ → List ℕ
  encode_rpc tag msg hlc_ts = frame tag hlc_ts (serialize msg)

  -- `decode_rpc_request` and `decode_rpc_response`, at their tags.
  pub decode_rpc : ℕ → List ℕ → Result (M × ℕ)
  decode_rpc tag bytes =
      let type_tag = be_field bytes 0 4 in
      let version = get_or bytes 4 0 in
      if ltb (length bytes) frame_header_size
      then err (frame_too_short (length bytes) frame_header_size)
      else if not (type_tag == tag)
      then err (wrong_type_tag tag type_tag)
      else if not (version == wire_version)
      then err (unsupported_version version)
      else decode_body bytes
