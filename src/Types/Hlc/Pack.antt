-- ===== src/Types/Hlc/Pack.antt =====
-- Packing and unpacking: crates/craftec-types/src/hlc.rs.
use Prim.Native.Nat.{bit_or}
use craftec.Prelude.{ℕ, ◌+◌, ◌*◌, ◌/◌, ◌%◌, ◌^◌, ◌<◌, ◌≡◌, ap, ◌∙◌, arith}
use craftec.Prelude.BitOr.{bit_or-shifted}
use craftec.Prelude.BitAnd.{bit_and-mask}
use craftec.Types.Hlc.{pack, unpack}

pub pack_lem :
    (wall logical : ℕ)
    → wall < 2 ^ 48
    → logical < 2 ^ 16
    → pack wall logical ≡ wall * 65536 + logical
unfolding pack
pack_lem wall logical p q =
    let e : wall * 2 ^ 16 % 2 ^ 64 ≡ wall * 2 ^ 16 = omega arith in
    ap (λ t. bit_or t logical) e ∙ bit_or-shifted 16 wall logical q ∙ omega arith

pub unpack_lem : (ts : ℕ) → unpack ts ≡ (ts / 65536, ts % 65536)
unfolding unpack
unpack_lem ts = ap (λ t. (ts / 65536, t)) (bit_and-mask 16 ts)
