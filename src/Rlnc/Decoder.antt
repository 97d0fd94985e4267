-- ===== src/Rlnc/Decoder.antt =====
-- The progressive decoder: crates/craftec-rlnc/src/decoder.rs, and the errors of error.rs.
-- Methods on `&mut self` return the new decoder beside their result. Row indices that the code
-- reads stay in range: IsValid below keeps the lengths.
pub mod Valid
pub mod Reduce
pub mod Insert
pub mod BackSubstitution
pub mod Recovers
use craftec.Prelude.{
  ℕ, zero, suc, ◌+◌, Bool, true, false, not, List, [], ◌++◌, map, ltb, ◌==◌, if◌then◌else◌, length,
  get_or, set, replicate, drop, Option, none, some,
}
use craftec.Rlnc.Gf256.{gf_vec_mul_add, gf_inv, gf_mul}
use craftec.Rlnc.Gf256.Rows.{byte_at}
use craftec.Types.Piece.{CodedPiece}

-- The text of `DecodeFailed`: which of the two checks of `decode` failed.
pub data DecodeFailure : Type 0 where
  empty_slot : ℕ → DecodeFailure
  pivot_not_one : ℕ → ℕ → DecodeFailure

pub data RlncError : Type 0 where
  insufficient_pieces : ℕ → ℕ → RlncError
  linearly_dependent : RlncError
  decode_failed : DecodeFailure → RlncError
  invalid_piece_size : ℕ → ℕ → RlncError
  semaphore_error : RlncError
  coding_vector_length_mismatch : ℕ → ℕ → RlncError
  insufficient_recode_inputs : ℕ → RlncError
  mismatched_cids : RlncError

pub data Result (A : Type 0) : Type 0 where
  ok : A → Result A
  err : RlncError → Result A

pub record Decoder : Type 0 where
  pub k : ℕ
  pub piece_size : ℕ
  pub matrix : List (List ℕ)
  pub pivot_col : List (Option ℕ)
  pub rank : ℕ
  pub decoded : Bool

abbrev pub row_at : List (List ℕ) → ℕ → List ℕ
row_at matrix r = get_or matrix r []

abbrev pub pivot_at : List (Option ℕ) → ℕ → Option ℕ
pivot_at pivots r = get_or pivots r none

unfoldable pub new : ℕ → ℕ → Decoder
new k piece_size = record {
  k = k;
  piece_size = piece_size;
  matrix = replicate k [];
  pivot_col = replicate k none;
  rank = 0;
  decoded = false;
}

unfoldable pub is_decodable : Decoder → Bool
is_decodable d = d.rank == d.k

-- One round of the elimination: the row against the row in slot `r`, if that is filled.
pub reduce_step : List (List ℕ) → List (Option ℕ) → ℕ → List ℕ → List ℕ
reduce_step matrix pivots r row = elim (pivot_at pivots r) [
  | none ↦ row
  | some col ↦
      let coeff = byte_at row col in
      if coeff == 0 then row else gf_vec_mul_add row (row_at matrix r) coeff
]

pub reduce : List (List ℕ) → List (Option ℕ) → ℕ → ℕ → List ℕ → List ℕ
reduce matrix pivots zero r row = row
reduce matrix pivots (suc left) r row =
    reduce matrix pivots left (r + 1) (reduce_step matrix pivots r row)

-- `row[..k].iter().position(|&b| b != 0)`, from index `i` on.
pub position : ℕ → ℕ → List ℕ → Option ℕ
position zero i row = none
position (suc left) i row = if byte_at row i == 0 then position left (i + 1) row else some i

abbrev pub normalise : ℕ → List ℕ → List ℕ
normalise col row = map (λ b. gf_mul b (gf_inv (byte_at row col))) row

-- The `match pivot` of `add_piece`.
pub insert_row : Decoder → List ℕ → Option ℕ → Decoder × Result Bool
insert_row d row none = (d, ok false)
insert_row d row (some col) = (
  record d {
    matrix = set d.matrix col (normalise col row);
    pivot_col = set d.pivot_col col (some col);
    rank = d.rank + 1;
  },
  ok true,
)

pub reduced_row : Decoder → CodedPiece → List ℕ
reduced_row d piece = reduce d.matrix d.pivot_col d.k 0 (piece.coding_vector ++ piece.data_bytes)

unfoldable pub add_piece : Decoder → CodedPiece → Decoder × Result Bool
unfolding insert_row reduced_row reduce reduce_step position
add_piece d piece =
    if not (length piece.coding_vector == d.k)
    then (d, err (coding_vector_length_mismatch d.k (length piece.coding_vector)))
    else if not (length piece.data_bytes == d.piece_size)
    then (d, err (invalid_piece_size d.piece_size (length piece.data_bytes)))
    else let row = reduced_row d piece in insert_row d row (position d.k 0 row)

-- The sanity loop of `decode`: the first slot that has no pivot or no row.
pub empty_slot_from : List (List ℕ) → List (Option ℕ) → ℕ → ℕ → Option ℕ
empty_slot_from matrix pivots zero col = none
empty_slot_from matrix pivots (suc left) col = elim (pivot_at pivots col) [
  | none ↦ some col
  | some _ ↦
      if length (row_at matrix col) == 0
      then some col
      else empty_slot_from matrix pivots left (col + 1)
]

-- The inner loop of the back-substitution: column `col` out of the rows from `row` on.
pub eliminate_above : ℕ → ℕ → ℕ → List (List ℕ) → List (List ℕ)
eliminate_above zero row col matrix = matrix
eliminate_above (suc left) row col matrix =
    let coeff = byte_at (row_at matrix row) col in
    eliminate_above left (row + 1) col (
      if coeff == 0
      then matrix
      else set matrix row (gf_vec_mul_add (row_at matrix row) (row_at matrix col) coeff))

-- The outer loop, `for col in (0..k).rev()`.
pub back_substitute : ℕ → List (List ℕ) → List (List ℕ)
back_substitute zero matrix = matrix
back_substitute (suc col) matrix = back_substitute col (eliminate_above col 0 col matrix)

-- The loop that checks the pivots and collects the right-hand sides.
pub extract : ℕ → ℕ → ℕ → List (List ℕ) → List ℕ → Result (List ℕ)
extract k zero col matrix out = ok out
extract k (suc left) col matrix out =
    let row = row_at matrix col in
    let rest = extract k left (col + 1) matrix (out ++ drop k row) in
    if byte_at row col == 1 then rest else err (decode_failed (pivot_not_one col (byte_at row col)))

finish : Decoder → Result (List ℕ) → Decoder × Result (List ℕ)
finish d (ok bytes) = (record d { decoded = true }, ok bytes)
finish d (err e) = (d, err e)

pub solve : Decoder → Option ℕ → Decoder × Result (List ℕ)
unfolding finish
solve d (some col) = (d, err (decode_failed (empty_slot col)))
solve d none =
    let solved = record d { matrix = back_substitute d.k d.matrix } in
    finish solved (extract d.k d.k 0 solved.matrix [])

unfoldable pub decode : Decoder → Decoder × Result (List ℕ)
unfolding solve empty_slot_from back_substitute eliminate_above extract
decode d =
    if ltb d.rank d.k
    then (d, err (insufficient_pieces d.rank d.k))
    else solve d (empty_slot_from d.matrix d.pivot_col d.k 0)
