-- ===== src/Rlnc/Decoder/Reduce.antt =====
-- The elimination of `add_piece` and its search for a pivot: crates/craftec-rlnc/src/decoder.rs.
use Prim.Native.Nat.{bit_xor}
use craftec.Prelude.{
  ℕ, zero, suc, ◌+◌, ◌<◌, ◌≤◌, ◌==◌, ◌≡◌, refl, ap, sym, ◌∙◌, List, arith, Option, none, some,
  Bool-cases, Option-cases, inl, inr,
}
use craftec.Prelude.Xor.{bit_xor_self, bit_xor-zero}
use craftec.Rlnc.Decoder.{row_at, pivot_at, reduce_step, reduce, position}
use craftec.Rlnc.Decoder.Valid.{IsRow, IsClosed, IsSlot, IsPivotRow, add_scaled-IsRow}
use craftec.Rlnc.Gf256.{gf_mul, gf_vec_mul_add}
use craftec.Rlnc.Gf256.Rows.{
  byte_at, byte_at-lt, add_scaled, byte_at-add_scaled, gf_vec_mul_add_lem,
}
use craftec.Rlnc.Gf256.Field.{gf_mul-one, gf_mul-zero}

-- Columns below `r` whose slot is filled are zero in the row.
abbrev pub IsReduced : List (Option ℕ) → ℕ → List ℕ → Type 0
IsReduced pivots r row = (j : ℕ) (p : ℕ) → j < r → pivot_at pivots j ≡ some p → byte_at row j ≡ 0

module _ (P : List ℕ → Type 0) (width : ℕ) (closed : IsClosed P width) where
  -- Against a pivot row of column `r`: the column becomes zero and the earlier ones stay.
  pub step-add_scaled :
      (r : ℕ) (row pivot_row : List ℕ)
      → IsRow P width row
      → IsPivotRow P width r pivot_row
      → IsRow P width (gf_vec_mul_add row pivot_row (byte_at row r))
        × (byte_at (gf_vec_mul_add row pivot_row (byte_at row r)) r ≡ 0)
        × ((j : ℕ)
            → j < r
            → byte_at (gf_vec_mul_add row pivot_row (byte_at row r)) j ≡ byte_at row j)
  step-add_scaled r row pivot_row h v =
      rw (gf_vec_mul_add_lem row pivot_row (byte_at row r) v.is_row.bytes) (
        add_scaled-IsRow P width closed (byte_at row r) row pivot_row (byte_at-lt row r h.bytes) h
            v.is_row,
        cc (
          at r,
          v.pivot,
          gf_mul-one (byte_at row r) (byte_at-lt row r h.bytes),
          bit_xor_self (byte_at row r),
        ),
        λ j lt. cc (at j, v.before j lt, gf_mul-zero (byte_at row r), bit_xor-zero (byte_at row j)),
      )
    where
      at :
          (j : ℕ)
          → byte_at (add_scaled (byte_at row r) row pivot_row) j
            ≡ bit_xor (byte_at row j) (gf_mul (byte_at row r) (byte_at pivot_row j))
      at j = byte_at-add_scaled (byte_at row r) row pivot_row j (h.wide ∙ sym v.is_row.wide)

  module _ (matrix : List (List ℕ)) (pivots : List (Option ℕ)) where
    reduce_step-some :
        (r : ℕ) (row : List ℕ)
        → IsRow P width row
        → IsPivotRow P width r (row_at matrix r)
        → pivot_at pivots r ≡ some r
        → IsRow P width (reduce_step matrix pivots r row)
          × (byte_at (reduce_step matrix pivots r row) r ≡ 0)
          × ((j : ℕ) → j < r → byte_at (reduce_step matrix pivots r row) j ≡ byte_at row j)
    unfolding reduce_step
    reduce_step-some r row h v e =
        rw (e, reduce_step)
          (elim (Bool-cases (byte_at row r == 0)) [
            | inl skip ↦ rw skip (h, ground arith, λ j lt. refl)
            | inr more ↦ rw more (step-add_scaled r row (row_at matrix r) h v)
          ])

    reduce_step_lem :
        (r : ℕ) (row : List ℕ)
        → IsRow P width row
        → IsSlot P width r (pivot_at pivots r) (row_at matrix r)
        → IsReduced pivots r row
        → IsRow P width (reduce_step matrix pivots r row)
          × IsReduced pivots (r + 1) (reduce_step matrix pivots r row)
    reduce_step_lem r row h slot below = elim (Option-cases (pivot_at pivots r)) [
      | inl empty ↦ (
        unfold reduce_step in rw (empty, reduce_step) h,
        λ j p lt filled.
            unfold reduce_step in
            rw (empty, reduce_step)
              (elim (Bool-cases (j == r)) [
                | inl here ↦ absurd (let e : j ≡ r = ground arith in cc (ap (pivot_at pivots) e))
                | inr other ↦ below j p (ground arith) filled
              ]),
      )
      | inr (q, filled) ↦
          let s : (q ≡ r) × IsPivotRow P width r (row_at matrix r) = rw filled at slot in
          let (is_row, zeroed, kept) = reduce_step-some r row h s.1 (filled ∙ ap some s.0) in
          (
            is_row,
            λ j p lt e. elim (Bool-cases (j == r)) [
              | inl here ↦
                  let e : j ≡ r = ground arith in
                  ap (byte_at (reduce_step matrix pivots r row)) e ∙ zeroed
              | inr other ↦ kept j (ground arith) ∙ below j p (ground arith) e
            ],
          )
    ]

    pub reduce-IsReduced :
        (left r : ℕ) (row : List ℕ)
        → IsRow P width row
        → ((c : ℕ) → c < r + left → IsSlot P width c (pivot_at pivots c) (row_at matrix c))
        → IsReduced pivots r row
        → IsRow P width (reduce matrix pivots left r row)
          × IsReduced pivots (r + left) (reduce matrix pivots left r row)
    unfolding reduce
    reduce-IsReduced zero r row h slots below = (h, λ j p lt e. below j p (omega arith) e)
    reduce-IsReduced (suc left) r row h slots below =
        let (is_row, reduced) = reduce_step_lem r row h (slots r (omega arith)) below in
        let rest =
          reduce-IsReduced left (r + 1) (reduce_step matrix pivots r row) is_row
            (λ c lt. slots c (omega arith)) reduced in
        (rest.0, λ j p lt e. rest.1 j p (omega arith) e)

-- `position` gives the first index that is not zero, or says that there is none.
pub position-some :
    (left i : ℕ) (row : List ℕ) (c : ℕ)
    → position left i row ≡ some c
    → (i ≤ c) × (c < i + left) × (0 < byte_at row c) × ((j : ℕ) → i ≤ j → j < c → byte_at row j ≡ 0)
unfolding position
position-some zero i row c e = cc
position-some (suc left) i row c e = elim (Bool-cases (byte_at row i == 0)) [
  | inl skip ↦
      let (low, high, pos, zeros) = position-some left (i + 1) row c (rw skip at e) in
      (
        omega arith,
        omega arith,
        pos,
        λ j p q. elim (Bool-cases (j == i)) [
          | inl here ↦ let e : j ≡ i = ground arith in ap (byte_at row) e ∙ ground arith
          | inr other ↦ zeros j (ground arith) q
        ],
      )
  | inr stop ↦
      let same : some i ≡ some c = rw stop at e in
      let here : i ≡ c = cc in
      (omega arith, omega arith, rw (← here) (ground arith), λ j p q. absurd (omega arith))
]

pub position-none :
    (left i : ℕ) (row : List ℕ)
    → position left i row ≡ none
    → (j : ℕ) → i ≤ j
    → j < i + left
    → byte_at row j ≡ 0
unfolding position
position-none zero i row e j p q = absurd (omega arith)
position-none (suc left) i row e j p q = elim (Bool-cases (byte_at row i == 0)) [
  | inl skip ↦ elim (Bool-cases (j == i)) [
    | inl here ↦ let e : j ≡ i = ground arith in ap (byte_at row) e ∙ ground arith
    | inr other ↦ position-none left (i + 1) row (rw skip at e) j (ground arith) (omega arith)
  ]
  | inr stop ↦ absurd (let bad : some i ≡ none = rw stop at e in cc)
]
