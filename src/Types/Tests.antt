-- ===== src/Types/Tests.antt =====
-- Examples for the code: small clocks and frames. Messages are single bytes here.
use craftec.Prelude.{
  ℕ, ◌+◌, ◌/◌, ◌≤◌, ◌≡◌, ◌↔◌, refl, arith, List, [], ◌∷◌, ◌++◌, Option, none, some, take,
  if◌then◌else◌, ltb, ◌==◌,
}
use craftec.Types.Hlc.{pack, check_remote, accepted}
use craftec.Types.Hlc.Monotone.{
  Access, tick, receive, run, Ascending, run-Ascending, check_remote-accepted_iff,
}
use craftec.Types.Wire.{
  ok, err, frame, frame_too_short, frame_truncated, wrong_type_tag, encode_framed_with_hlc,
  decode_framed_with_hlc, encode_rpc, decode_rpc,
}
use craftec.Types.Wire.Frames.{
  decode_framed-encode_framed, decode_rpc-encode_rpc, decode_framed-cut,
}

abbrev serialize : ℕ → List ℕ
serialize m = m ∷ []

abbrev deserialize : List ℕ → Option ℕ
deserialize [] = none
deserialize (m ∷ rest) = some m

decode_framed-encode_framed_example :
    decode_framed_with_hlc serialize deserialize
      (encode_framed_with_hlc serialize deserialize (λ m. 0x0100 + m) 7 99 ++ 1 ∷ 2 ∷ [])
    ≡ ok (7, 99)
decode_framed-encode_framed_example =
    decode_framed-encode_framed serialize deserialize (λ m. 0x0100 + m) 7 99 (1 ∷ 2 ∷ [])
      (omega arith) (omega arith) refl

decode_rpc-encode_rpc_example :
    decode_rpc serialize deserialize 0x0201 (encode_rpc serialize deserialize 0x0200 7 99 ++ 1 ∷ [])
    ≡ (if 0x0200 == 0x0201 then ok (7, 99) else err (wrong_type_tag 0x0201 0x0200))
decode_rpc-encode_rpc_example =
    decode_rpc-encode_rpc serialize deserialize 0x0200 0x0201 7 99 (1 ∷ []) (omega arith)
      (omega arith) (omega arith) refl

decode_framed-cut_example :
    decode_framed_with_hlc serialize deserialize (take 12 (frame 0x0100 99 (7 ∷ 8 ∷ []) ++ []))
    ≡ err (
        if ltb 12 9
        then frame_too_short 12 9
        else if ltb 12 17
        then frame_too_short 12 17
        else frame_truncated 12 19)
decode_framed-cut_example =
    decode_framed-cut serialize deserialize 0x0100 99 12 (7 ∷ 8 ∷ []) (omega arith) (omega arith)

check_remote-accepted_iff_example :
    (check_remote (pack 1000 7) 900 ≡ accepted)
    ↔ ((pack 1000 7 / 65536 ≤ 1400) × (900 ≤ pack 1000 7 / 65536 + 30000))
check_remote-accepted_iff_example = check_remote-accepted_iff (pack 1000 7) 900

abbrev accesses : List Access
accesses = tick 1000 ∷ receive 65536300 1000 ∷ tick 999 ∷ []

run-Ascending_example : Ascending 65 (run 65 accesses).0 × (65 ≤ (run 65 accesses).1)
run-Ascending_example =
    run-Ascending 2000 65 accesses (omega arith) (omega arith, (omega arith, (omega arith, tt)))
      (omega arith)
