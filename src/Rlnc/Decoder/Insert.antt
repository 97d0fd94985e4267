-- ===== src/Rlnc/Decoder/Insert.antt =====
-- The invariant and the answers of `add_piece`: crates/craftec-rlnc/src/decoder.rs.
use craftec.Prelude.{
  ℕ, zero, suc, ◌+◌, ◌<◌, Bool, true, false, ◌==◌, ◌≡◌, refl, ap, ap₂, sym, ◌∙◌, subst, List, [],
  ◌∷◌, ◌++◌, ◌≢◌, arith, length, length-append, length-set, set, get_or-set_self, get_or-set_ne,
  Option, none, some, Bool-cases, Option-cases, inl, inr,
}
use craftec.Rlnc.Decoder.{
  Decoder, Result, ok, row_at, pivot_at, position, normalise, insert_row, reduced_row, add_piece,
}
use craftec.Rlnc.Decoder.Reduce.{IsReduced, reduce-IsReduced, position-some, position-none}
use craftec.Rlnc.Decoder.Valid.{
  IsRow, IsClosed, IsSlot, IsPivotRow, IsValid, scale, scale-IsRow, count_some-set,
}
use craftec.Rlnc.Gf256.{gf_mul, gf_inv}
use craftec.Rlnc.Gf256.Rows.{IsBytes, byte_at, byte_at-lt, append-IsBytes}
use craftec.Rlnc.Gf256.Field.{gf_inv-range, gf_mul-gf_inv, zero-gf_mul}
use craftec.Types.Piece.{CodedPiece}

pub byte_at-scale :
    (c : ℕ) (row : List ℕ) (i : ℕ) → byte_at (scale c row) i ≡ gf_mul (byte_at row i) c
byte_at-scale c [] i = sym (zero-gf_mul c)
byte_at-scale c (b ∷ row) zero = refl
byte_at-scale c (b ∷ row) (suc i) = byte_at-scale c row i

-- A piece of the given dimensions whose augmented row has the property.
pub record Fits (P : List ℕ → Type 0) (k piece_size : ℕ) (piece : CodedPiece) : Type 0 where
  pub vector_length : length piece.coding_vector ≡ k
  pub data_length : length piece.data_bytes ≡ piece_size
  pub vector_bytes : IsBytes piece.coding_vector
  pub data_IsBytes : IsBytes piece.data_bytes
  pub good : P (piece.coding_vector ++ piece.data_bytes)

-- What `add_piece` did: a discarded piece reduces to a zero coding vector and changes nothing; any
-- other fills one slot and raises the rank by one.
pub data Added (d : Decoder) (row : List ℕ) : Decoder × Result Bool → Type 0 where
  dependent : ((j : ℕ) → j < d.k → byte_at row j ≡ 0) → Added d row (d, ok false)
  independent :
      (d' : Decoder)
      → d'.rank ≡ d.rank + 1
      → d'.k ≡ d.k
      → d'.piece_size ≡ d.piece_size
      → (c : ℕ) × (c < d.k)
        × (0 < byte_at row c)
        × (pivot_at d.pivot_col c ≡ none)
        × (d'.pivot_col ≡ set d.pivot_col c (some c))
      → Added d row (d', ok true)

enters_lem :
    (d : Decoder) (piece : CodedPiece)
    → length piece.coding_vector ≡ d.k
    → length piece.data_bytes ≡ d.piece_size
    → add_piece d piece ≡ insert_row d (reduced_row d piece) (position d.k 0 (reduced_row d piece))
unfolding add_piece
enters_lem d piece p q = ground arith

module _ (P : List ℕ → Type 0) (d : Decoder) (closed : IsClosed P (d.k + d.piece_size))
    (v : IsValid P d) where
  normalise-IsPivotRow :
      (row : List ℕ) (c : ℕ)
      → IsRow P (d.k + d.piece_size) row
      → 0 < byte_at row c
      → ((j : ℕ) → j < c → byte_at row j ≡ 0)
      → IsPivotRow P (d.k + d.piece_size) c (normalise c row)
  normalise-IsPivotRow row c h pos zeros =
      let lt = byte_at-lt row c h.bytes in
      let inv = gf_inv (byte_at row c) in
      record {
        is_row =
            scale-IsRow P (d.k + d.piece_size) closed inv row
              (gf_inv-range (byte_at row c) lt pos).0 h;
        pivot = byte_at-scale inv row c ∙ gf_mul-gf_inv (byte_at row c) lt pos;
        before =
            λ j q. byte_at-scale inv row j ∙ ap (λ t. gf_mul t inv) (zeros j q) ∙ zero-gf_mul inv;
      }

  empty_at_pivot :
      (row : List ℕ) (c : ℕ)
      → IsReduced d.pivot_col d.k row
      → c < d.k
      → 0 < byte_at row c
      → pivot_at d.pivot_col c ≡ none
  empty_at_pivot row c reduced lt pos = elim (Option-cases (pivot_at d.pivot_col c)) [
    | inl e ↦ e
    | inr (p, e) ↦ absurd (omega (arith, reduced c p lt e))
  ]

  insert_row-IsSlot :
      (row : List ℕ) (c : ℕ)
      → c < d.k
      → IsPivotRow P (d.k + d.piece_size) c row
      → (i : ℕ) → i < d.k
      → IsSlot P
          (d.k + d.piece_size)
          i
          (pivot_at (set d.pivot_col c (some c)) i)
          (row_at (set d.matrix c row) i)
  insert_row-IsSlot row c lt h i below = elim (Bool-cases (c == i)) [
    | inl here ↦
        let e : c ≡ i = ground arith in
        rw (← e) (
          rw (get_or-set_self d.pivot_col c (some c) none (rw v.pivots lt))
            (refl, rw (get_or-set_self d.matrix c row [] (rw v.rows lt)) h))
    | inr other ↦
        let ne : c ≢ i = λ e. ground arith in
        rw (get_or-set_ne d.pivot_col c i (some c) none ne)
          (rw (get_or-set_ne d.matrix c i row [] ne) (v.slot i below))
  ]

  insert_row_lem :
      (row : List ℕ)
      → IsRow P (d.k + d.piece_size) row
      → IsReduced d.pivot_col d.k row
      → (o : Option ℕ) → position d.k 0 row ≡ o
      → IsValid P (insert_row d row o).0 × Added d row (insert_row d row o)
  unfolding insert_row
  insert_row_lem row h reduced none e =
      (v, dependent (λ j lt. position-none d.k 0 row e j (omega arith) (omega arith)))
  insert_row_lem row h reduced (some c) e =
      let (low, high, pos, zeros) = position-some d.k 0 row c e in
      let lt : c < d.k = omega arith in
      let empty = empty_at_pivot row c reduced lt pos in
      let pivot_row = normalise-IsPivotRow row c h pos (λ j q. zeros j (omega arith) q) in
      (
        record {
          rows = length-set d.matrix c (normalise c row) ∙ v.rows;
          pivots = length-set d.pivot_col c (some c) ∙ v.pivots;
          slot = insert_row-IsSlot (normalise c row) c lt pivot_row;
          rank_eq = omega (arith, count_some-set d.pivot_col c c (rw v.pivots lt) empty, v.rank_eq);
        },
        independent _ refl refl refl (c, lt, pos, empty, refl),
      )

  pub add_piece_lem :
      (piece : CodedPiece)
      → Fits P d.k d.piece_size piece
      → IsValid P (add_piece d piece).0 × Added d (reduced_row d piece) (add_piece d piece)
  add_piece_lem piece f =
      subst (λ t. IsValid P t.0 × Added d (reduced_row d piece) t) (sym enters)
        (insert_row_lem (reduced_row d piece) reduced.0 (λ j p lt e. reduced.1 j p (omega arith) e)
          (position d.k 0 (reduced_row d piece)) refl)
    where
      start : IsRow P (d.k + d.piece_size) (piece.coding_vector ++ piece.data_bytes)
      start = record {
        wide =
            length-append piece.coding_vector piece.data_bytes
            ∙ ap₂ ◌+◌ f.vector_length f.data_length;
        bytes = append-IsBytes piece.coding_vector piece.data_bytes f.vector_bytes f.data_IsBytes;
        good = f.good;
      }

      reduced :
          IsRow P (d.k + d.piece_size) (reduced_row d piece)
          × IsReduced d.pivot_col (0 + d.k) (reduced_row d piece)
      reduced =
          unfold reduced_row in
          reduce-IsReduced P (d.k + d.piece_size) closed d.matrix d.pivot_col d.k 0
            (piece.coding_vector ++ piece.data_bytes) start (λ c lt. v.slot c (omega arith))
            (λ j p lt. absurd (omega arith))

      enters :
          add_piece d piece
          ≡ insert_row d (reduced_row d piece) (position d.k 0 (reduced_row d piece))
      enters = enters_lem d piece f.vector_length f.data_length

-- The dimensions never change.
pub add_piece-dimensions :
    (d : Decoder) (piece : CodedPiece)
    → ((add_piece d piece).0.k ≡ d.k) × ((add_piece d piece).0.piece_size ≡ d.piece_size)
unfolding add_piece insert_row
add_piece-dimensions d piece = ground arith
