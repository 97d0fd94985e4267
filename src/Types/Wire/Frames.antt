-- ===== src/Types/Wire/Frames.antt =====
-- Writing and reading frames, whole and cut: crates/craftec-types/src/wire.rs.
use craftec.Prelude.{
  ℕ, Bool-cases, inl, inr, ltb, ◌+◌, ◌%◌, ◌^◌, ◌<◌, ◌≤◌, ◌≡◌, refl, ap, ◌∙◌, List, [], ◌++◌, Option,
  some, ltb, ◌==◌, if◌then◌else◌, length, take, get_or, arith, length-append, length-take,
  take-length-append, get_or-take, take-drop-take, false,
}
use craftec.Prelude.Bytes.{to_be_bytes, from_be_bytes, from_be_bytes-to_be_bytes}
use craftec.Types.Wire.{
  ok, err, frame, frame_too_short, frame_truncated, wrong_type_tag, be_field, slice, parse,
  decode_v1, decode_body, encode_framed_with_hlc, decode_framed_with_hlc, encode_rpc, decode_rpc,
}

-- The fields of a frame with bytes behind it.
module _ (tag ts : ℕ) (payload rest : List ℕ) where
  pub frame-version : get_or (frame tag ts payload ++ rest) 4 0 ≡ 1
  unfolding frame to_be_bytes
  frame-version = refl

  pub frame-tag : tag < 2 ^ 32 → be_field (frame tag ts payload ++ rest) 0 4 ≡ tag
  frame-tag h = field ∙ from_be_bytes-to_be_bytes 4 tag h
    where
      field : be_field (frame tag ts payload ++ rest) 0 4 ≡ from_be_bytes (to_be_bytes 4 tag)
      field = unfold frame to_be_bytes in refl

  pub frame-ts : ts < 2 ^ 64 → be_field (frame tag ts payload ++ rest) 5 8 ≡ ts
  frame-ts h = field ∙ from_be_bytes-to_be_bytes 8 ts h
    where
      field : be_field (frame tag ts payload ++ rest) 5 8 ≡ from_be_bytes (to_be_bytes 8 ts)
      field = unfold frame to_be_bytes in refl

  pub frame-length :
      length payload < 2 ^ 32 → be_field (frame tag ts payload ++ rest) 13 4 ≡ length payload
  frame-length h =
      field ∙ from_be_bytes-to_be_bytes 4 (length payload % 2 ^ 32) (omega arith) ∙ omega arith
    where
      field :
          be_field (frame tag ts payload ++ rest) 13 4
          ≡ from_be_bytes (to_be_bytes 4 (length payload % 2 ^ 32))
      field = unfold frame to_be_bytes in refl

  pub frame-payload : slice (frame tag ts payload ++ rest) 17 (length payload) ≡ payload
  frame-payload = body ∙ take-length-append payload rest
    where
      body :
          slice (frame tag ts payload ++ rest) 17 (length payload)
          ≡ take (length payload) (payload ++ rest)
      body = unfold frame to_be_bytes in refl

  pub length-frame : length (frame tag ts payload ++ rest) ≡ 17 + length payload + length rest
  length-frame = size ∙ omega (arith, length-append payload rest)
    where
      size : length (frame tag ts payload ++ rest) ≡ 17 + length (payload ++ rest)
      size = unfold frame to_be_bytes in omega arith

module _ {M : Type 0} (serialize : M → List ℕ) (deserialize : List ℕ → Option M) where
  -- postcard reads a message back.
  abbrev pub Inverts : M → Type 0
  Inverts m = deserialize (serialize m) ≡ some m

  abbrev pub Fits : M → Type 0
  Fits m = length (serialize m) < 2 ^ 32

  long_enough : (h m r : ℕ) → h ≤ 17 → ltb (17 + m + r) h ≡ false
  long_enough h m r le = ground arith

  parse_lem :
      (m : M) (ts : ℕ) → Inverts m → parse serialize deserialize (serialize m) ts ≡ ok (m, ts)
  unfolding parse
  parse_lem m ts r = rw (r, parse)

  decode_body-frame :
      (tag ts : ℕ) (m : M) (rest : List ℕ)
      → ts < 2 ^ 64
      → Fits m
      → Inverts m
      → decode_body serialize deserialize (frame tag ts (serialize m) ++ rest) ≡ ok (m, ts)
  unfolding decode_body
  decode_body-frame tag ts m rest p q r =
      rw
        (
          frame-ts tag ts (serialize m) rest p,
          frame-length tag ts (serialize m) rest q,
          frame-payload tag ts (serialize m) rest,
          length-frame tag ts (serialize m) rest,
          not_short,
        )
        (parse_lem m ts r)
    where
      not_short : ltb (17 + length (serialize m) + length rest) (17 + length (serialize m)) ≡ false
      not_short = ground arith

  -- For a timestamp of 64 bits: every message whose serialisation postcard reads back, and whose
  -- length fits a u32, is read back from its frame with its timestamp, whatever bytes follow the
  -- frame.
  pub decode_framed-encode_framed :
      (tag_of : M → ℕ) (m : M) (ts : ℕ) (rest : List ℕ)
      → ts < 2 ^ 64
      → Fits m
      → Inverts m
      → decode_framed_with_hlc serialize deserialize
          (encode_framed_with_hlc serialize deserialize tag_of m ts ++ rest)
        ≡ ok (m, ts)
  unfolding decode_framed_with_hlc encode_framed_with_hlc decode_v1
  decode_framed-encode_framed tag_of m ts rest p q r =
      rw
        (
          frame-version (tag_of m) ts (serialize m) rest,
          length-frame (tag_of m) ts (serialize m) rest,
          long_enough 9 (length (serialize m)) (length rest) (omega arith),
          long_enough 17 (length (serialize m)) (length rest) (omega arith),
        )
        (decode_body-frame (tag_of m) ts m rest p q r)

  -- For a tag of 32 bits, a timestamp of 64 and a message that postcard reads back and whose length
  -- fits a u32: the RPC frame is read back, with its timestamp and whatever bytes follow, by the
  -- decoder of its own tag, and the decoder of any other tag refuses it and names both tags.
  pub decode_rpc-encode_rpc :
      (tag other : ℕ) (m : M) (ts : ℕ) (rest : List ℕ)
      → tag < 2 ^ 32
      → ts < 2 ^ 64
      → Fits m
      → Inverts m
      → decode_rpc serialize deserialize other (encode_rpc serialize deserialize tag m ts ++ rest)
        ≡ (if tag == other then ok (m, ts) else err (wrong_type_tag other tag))
  unfolding decode_rpc encode_rpc
  decode_rpc-encode_rpc tag other m ts rest t p q r =
      rw
        (
          frame-version tag ts (serialize m) rest,
          frame-tag tag ts (serialize m) rest t,
          length-frame tag ts (serialize m) rest,
          long_enough 17 (length (serialize m)) (length rest) (omega arith),
        )
        (elim (Bool-cases (tag == other)) [
          | inl h ↦ rw (h, decode_body-frame tag ts m rest p q r) refl
          | inr h ↦ rw h refl
        ])

-- A frame that lost bytes at its end.
module _ {M : Type 0} (serialize : M → List ℕ) (deserialize : List ℕ → Option M) (tag ts n : ℕ)
    (payload : List ℕ) (fits : length payload < 2 ^ 32) (cut : n < 17 + length payload) where
  abbrev whole : List ℕ
  whole = frame tag ts payload ++ []

  abbrev pub cut_frame : List ℕ
  cut_frame = take n (frame tag ts payload ++ [])

  length-cut_frame : length cut_frame ≡ n
  length-cut_frame =
      let e = length-frame tag ts payload [] in
      let size : length (frame tag ts payload ++ []) ≡ 17 + length payload = omega (arith, e) in
      omega (arith, length-take n (frame tag ts payload ++ []), size)

  cut-version : 4 < n → get_or cut_frame 4 0 ≡ 1
  cut-version h = get_or-take n 4 (frame tag ts payload ++ []) 0 h ∙ frame-version tag ts payload []

  cut-length : 17 ≤ n → be_field cut_frame 13 4 ≡ length payload
  cut-length h =
      ap from_be_bytes (take-drop-take 4 13 n (frame tag ts payload ++ []) h)
      ∙ frame-length tag ts payload [] fits

  decode_body-cut :
      17 ≤ n
      → decode_body serialize deserialize cut_frame ≡ err (frame_truncated n (17 + length payload))
  unfolding decode_body
  decode_body-cut h = rw (cut-length h, length-cut_frame) (ground arith)

  -- For a payload whose length fits a u32: no proper prefix of its frame is read as a message: up
  -- to 8 bytes it is shorter than any header, up to 16 shorter than its own, and from 17 on
  -- truncated, each with its error.
  pub decode_framed-cut :
      decode_framed_with_hlc serialize deserialize cut_frame
      ≡ err (
          if ltb n 9
          then frame_too_short n 9
          else if ltb n 17
          then frame_too_short n 17
          else frame_truncated n (17 + length payload))
  unfolding decode_framed_with_hlc decode_v1
  decode_framed-cut = elim (Bool-cases (ltb n 9)) [
    | inl h ↦ rw (length-cut_frame, h) refl
    | inr h ↦ elim (Bool-cases (ltb n 17)) [
      | inl h' ↦ rw (cut-version (ground arith), length-cut_frame, h, h') refl
      | inr h' ↦
          rw (cut-version (ground arith), length-cut_frame, h, h', decode_body-cut (ground arith))
            refl
    ]
  ]
