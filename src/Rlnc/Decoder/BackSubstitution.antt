-- ===== src/Rlnc/Decoder/BackSubstitution.antt =====
-- The two loops of the back-substitution in `decode`: crates/craftec-rlnc/src/decoder.rs.
use Prim.Native.Nat.{bit_xor}
use craftec.Prelude.{
  ℕ, zero, suc, ◌+◌, ◌<◌, ◌≤◌, ◌==◌, ◌≡◌, refl, ap, sym, ◌∙◌, List, [], ◌≢◌, arith, length,
  length-set, set, get_or-set_self, get_or-set_ne, Bool-cases, inl, inr, if◌then◌else◌, ltb,
}
use craftec.Prelude.Xor.{bit_xor_self, bit_xor-zero}
use craftec.Rlnc.Decoder.{row_at, eliminate_above, back_substitute}
use craftec.Rlnc.Decoder.Valid.{IsClosed, IsPivotRow, add_scaled-IsRow}
use craftec.Rlnc.Gf256.{gf_mul, gf_vec_mul_add}
use craftec.Rlnc.Gf256.Rows.{
  byte_at, byte_at-lt, add_scaled, byte_at-add_scaled, gf_vec_mul_add_lem,
}
use craftec.Rlnc.Gf256.Field.{gf_mul-one, gf_mul-zero}

-- All `k` slots are filled, and every column from `hi` on is zero but for its pivot.
pub record IsSwept (P : List ℕ → Type 0) (width k hi : ℕ) (matrix : List (List ℕ)) : Type 0 where
  pub rows : length matrix ≡ k
  pub pivot_row : (c : ℕ) → c < k → IsPivotRow P width c (row_at matrix c)
  pub cleared : (r j : ℕ) → r < k → hi ≤ j → j < k → j ≢ r → byte_at (row_at matrix r) j ≡ 0

module _ (P : List ℕ → Type 0) (width k : ℕ) (closed : IsClosed P width) where
  record IsEliminated (r col : ℕ) (u w u' : List ℕ) : Type 0 where
    is_pivot_row : IsPivotRow P width r u'
    zeroed : byte_at u' col ≡ 0
    kept : (j : ℕ) → byte_at w j ≡ 0 → byte_at u' j ≡ byte_at u j

  general-IsEliminated :
      (r col : ℕ) (u w : List ℕ)
      → r < col
      → IsPivotRow P width r u
      → IsPivotRow P width col w
      → IsEliminated r col u w (gf_vec_mul_add u w (byte_at u col))
  general-IsEliminated r col u w lt hu hw =
      rw (gf_vec_mul_add_lem u w (byte_at u col) hw.is_row.bytes) (record {
        is_pivot_row = record {
          is_row = add_scaled-IsRow P width closed (byte_at u col) u w small hu.is_row hw.is_row;
          pivot = same r (hw.before r lt) ∙ hu.pivot;
          before = λ j q. same j (hw.before j (omega arith)) ∙ hu.before j q;
        };
        zeroed =
            cc (at col, hw.pivot, gf_mul-one (byte_at u col) small, bit_xor_self (byte_at u col));
        kept = same;
      })
    where
      small : byte_at u col < 256
      small = byte_at-lt u col hu.is_row.bytes

      at :
          (j : ℕ)
          → byte_at (add_scaled (byte_at u col) u w) j
            ≡ bit_xor (byte_at u j) (gf_mul (byte_at u col) (byte_at w j))
      at j = byte_at-add_scaled (byte_at u col) u w j (hu.is_row.wide ∙ sym hw.is_row.wide)

      same : (j : ℕ) → byte_at w j ≡ 0 → byte_at (add_scaled (byte_at u col) u w) j ≡ byte_at u j
      same j z = cc (at j, z, gf_mul-zero (byte_at u col), bit_xor-zero (byte_at u j))

  -- Replacing one row above `col` by the eliminated one.
  set-IsSwept :
      (r col : ℕ) (m : List (List ℕ)) (u' : List ℕ)
      → r < col
      → col < k
      → IsSwept P width k (col + 1) m
      → IsEliminated r col (row_at m r) (row_at m col) u'
      → IsSwept P width k (col + 1) (set m r u')
        × (byte_at (row_at (set m r u') r) col ≡ 0)
        × ((i : ℕ) → i ≢ r → row_at (set m r u') i ≡ row_at m i)
  set-IsSwept r col m u' lt lt_k s e = (
    record {
      rows = length-set m r u' ∙ s.rows;
      pivot_row = λ c below. elim (Bool-cases (r == c)) [
        | inl here ↦ let q : r ≡ c = ground arith in rw (← q) (rw self e.is_pivot_row)
        | inr other ↦ rw (others c (λ q. ground arith)) (s.pivot_row c below)
      ];
      cleared = λ i j p q q' ne. elim (Bool-cases (r == i)) [
        | inl here ↦
            let same : r ≡ i = ground arith in
            rw (← same) (
              rw self (
                e.kept j (s.cleared col j lt_k q q' (λ z. absurd (omega arith)))
                ∙ s.cleared r j (omega arith) q q' (λ z. ne (z ∙ same))))
        | inr other ↦ rw (others i (λ z. ground arith)) (s.cleared i j p q q' ne)
      ];
    },
    ap (λ t. byte_at t col) self ∙ e.zeroed,
    others,
  )
    where
      self : row_at (set m r u') r ≡ u'
      self = get_or-set_self m r u' [] (omega (arith, s.rows))

      others : (i : ℕ) → i ≢ r → row_at (set m r u') i ≡ row_at m i
      others i ne = get_or-set_ne m r i u' [] (λ z. ne (sym z))

  round : ℕ → ℕ → List (List ℕ) → List (List ℕ)
  round row col m =
      if byte_at (row_at m row) col == 0
      then m
      else set m row (gf_vec_mul_add (row_at m row) (row_at m col) (byte_at (row_at m row) col))

  round_lem :
      (r col : ℕ) (m : List (List ℕ))
      → r < col
      → col < k
      → IsSwept P width k (col + 1) m
      → IsSwept P width k (col + 1) (round r col m)
        × (byte_at (row_at (round r col m) r) col ≡ 0)
        × ((i : ℕ) → i ≢ r → row_at (round r col m) i ≡ row_at m i)
  unfolding round
  round_lem r col m lt lt_k s = elim (Bool-cases (byte_at (row_at m r) col == 0)) [
    | inl skip ↦ rw skip (s, ground arith, λ i ne. refl)
    | inr more ↦ rw more (
        set-IsSwept r col m _ lt lt_k s (
          general-IsEliminated r col (row_at m r) (row_at m col) lt (s.pivot_row r (omega arith))
            (s.pivot_row col lt_k)))
  ]

  eliminate_above-IsSwept :
      (left r col : ℕ) (m : List (List ℕ))
      → r + left ≡ col
      → col < k
      → IsSwept P width k (col + 1) m
      → ((i : ℕ) → i < r → byte_at (row_at m i) col ≡ 0)
      → IsSwept P width k (col + 1) (eliminate_above left r col m)
        × ((i : ℕ) → i < col → byte_at (row_at (eliminate_above left r col m) i) col ≡ 0)
  unfolding eliminate_above round
  eliminate_above-IsSwept zero r col m e lt s above = (s, λ i q. above i (omega arith))
  eliminate_above-IsSwept (suc left) r col m e lt s above =
      let (swept, zeroed, kept) = round_lem r col m (omega arith) lt s in
      eliminate_above-IsSwept left (r + 1) col (round r col m) (omega arith) lt swept (λ i q.
        elim (Bool-cases (i == r)) [
          | inl here ↦
              let same : i ≡ r = ground arith in
              ap (λ t. byte_at (row_at (round r col m) t) col) same ∙ zeroed
          | inr other ↦
              ap (λ t. byte_at t col) (kept i (λ z. ground arith)) ∙ above i (ground arith)
        ])

  -- From a matrix whose slots are all filled, whose rows have a property that passes to sums and
  -- multiples, and whose columns from `hi` on are cleared, the outer loop over the columns below
  -- `hi` reaches one with the identity on the left.
  pub back_substitute-IsSwept :
      (hi : ℕ) (m : List (List ℕ))
      → hi ≤ k
      → IsSwept P width k hi m
      → IsSwept P width k 0 (back_substitute hi m)
  unfolding back_substitute
  back_substitute-IsSwept zero m le s = s
  back_substitute-IsSwept (suc col) m le s =
      back_substitute-IsSwept col (eliminate_above col 0 col m) (omega arith) (record {
        rows = swept.0.rows;
        pivot_row = swept.0.pivot_row;
        cleared = λ r j p q q' ne. elim (Bool-cases (j == col)) [
          | inl here ↦
              let same : j ≡ col = ground arith in rw same (column r p (λ z. ne (same ∙ z)))
          | inr other ↦ swept.0.cleared r j p (ground arith) q' ne
        ];
      })
    where
      m' : List (List ℕ)
      m' = eliminate_above col 0 col m

      swept : IsSwept P width k (col + 1) m' × ((i : ℕ) → i < col → byte_at (row_at m' i) col ≡ 0)
      swept =
          eliminate_above-IsSwept col 0 col m (omega arith) (omega arith)
            (let e : suc col ≡ col + 1 = omega arith in rw (← e) s) (λ i q. absurd (omega arith))

      column : (r : ℕ) → r < k → col ≢ r → byte_at (row_at m' r) col ≡ 0
      column r p ne = elim (Bool-cases (ltb r col)) [
        | inl above ↦ swept.1 r (ground arith)
        | inr below ↦ (swept.0.pivot_row r p).before col (ground arith)
      ]
