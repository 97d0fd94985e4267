-- ===== src/Rlnc/Decoder/Recovers.antt =====
-- What `decode` returns: crates/craftec-rlnc/src/decoder.rs.
use Prim.Native.Nat.{bit_xor}
use craftec.Prelude.{
  ℕ, zero, suc, ◌+◌, ◌<◌, true, ◌≡◌, refl, ap, sym, ◌∙◌, List, [], ◌∷◌, ◌++◌, arith, length, drop,
  none, some, length-drop, get_or-drop, get_or_ext,
}
use craftec.Rlnc.Decoder.{
  Decoder, ok, row_at, pivot_at, decode, solve, empty_slot_from, extract, back_substitute, finish,
}
use craftec.Rlnc.Decoder.BackSubstitution.{IsSwept, back_substitute-IsSwept}
use craftec.Rlnc.Decoder.Valid.{IsClosed, IsPivotRow, IsValid, scale, full_slots}
use craftec.Rlnc.Decoder.Insert.{byte_at-scale}
use craftec.Rlnc.Gf256.{gf_mul}
use craftec.Rlnc.Gf256.Rows.{
  IsBytes, byte_at, byte_at-lt, add_scaled, byte_at-add_scaled, dot, dot_cong, dot-add_scaled,
  dot-scale, dot-unit,
}
use craftec.Rlnc.Gf256.Field.{gf_mul_comm}
use mathlib.Core.List.{append-nil, append_assoc}

-- The source pieces: `k` of them, each of `piece_size` bytes.
pub record IsSource (k piece_size : ℕ) (sources : List (List ℕ)) : Type 0 where
  pub count : length sources ≡ k
  pub sizes : (j : ℕ) → j < k → length (row_at sources j) ≡ piece_size
  pub bytes : (j : ℕ) → IsBytes (row_at sources j)

-- Each byte of the right-hand side of the row is the combination of that byte of the sources
-- with the coefficients on its left-hand side.
abbrev pub Encodes : ℕ → ℕ → List (List ℕ) → List ℕ → Type 0
Encodes k piece_size sources row =
    (t : ℕ)
    → t < piece_size
    → byte_at row (k + t) ≡ dot k (byte_at row) (λ j. byte_at (row_at sources j) t)

-- `flatten` over the list of pieces.
abbrev pub concat : List (List ℕ) → List ℕ
concat [] = []
concat (p ∷ ps) = p ++ concat ps

pub Encodes-IsClosed :
    (k piece_size : ℕ) (sources : List (List ℕ))
    → IsSource k piece_size sources
    → IsClosed (Encodes k piece_size sources) (k + piece_size)
Encodes-IsClosed k piece_size sources src = record {
  add = λ c dst s p hd hs t q. cc (
    byte_at-add_scaled c dst s (k + t) (hd.wide ∙ sym hs.wide),
    hd.good t q,
    hs.good t q,
    dot_cong k (byte_at (add_scaled c dst s))
        (λ j. bit_xor (byte_at dst j) (gf_mul c (byte_at s j))) (λ j. byte_at (row_at sources j) t)
        (λ j lt. byte_at-add_scaled c dst s j (hd.wide ∙ sym hs.wide)),
    dot-add_scaled k c (byte_at dst) (byte_at s) (λ j. byte_at (row_at sources j) t) p
        (λ j. byte_at-lt dst j hd.bytes) (λ j. byte_at-lt s j hs.bytes)
        (λ j. byte_at-lt (row_at sources j) t (src.bytes j)),
  );
  times = λ c row p h t q. cc (
    byte_at-scale c row (k + t),
    gf_mul_comm (byte_at row (k + t)) c,
    h.good t q,
    dot_cong k (byte_at (scale c row)) (λ j. gf_mul c (byte_at row j))
        (λ j. byte_at (row_at sources j) t)
        (λ j lt. byte_at-scale c row j ∙ gf_mul_comm (byte_at row j) c),
    dot-scale k c (byte_at row) (λ j. byte_at (row_at sources j) t) p
        (λ j. byte_at-lt row j h.bytes) (λ j. byte_at-lt (row_at sources j) t (src.bytes j)),
  );
}

concat_from : List (List ℕ) → ℕ → ℕ → List ℕ
concat_from sources zero c = []
concat_from sources (suc left) c = row_at sources c ++ concat_from sources left (c + 1)

concat_from-suc :
    (p : List ℕ) (ps : List (List ℕ)) (left c : ℕ)
    → concat_from (p ∷ ps) left (suc c) ≡ concat_from ps left c
unfolding concat_from
concat_from-suc p ps zero c = refl
concat_from-suc p ps (suc left) c =
    let e : suc c + 1 ≡ suc (c + 1) = omega arith in
    ap (◌++◌ (row_at ps c)) (ap (concat_from (p ∷ ps) left) e ∙ concat_from-suc p ps left (c + 1))

concat_from-drop :
    (sources : List (List ℕ)) (left c : ℕ)
    → c + left ≡ length sources
    → concat_from sources left c ≡ concat (drop c sources)
unfolding concat_from
concat_from-drop [] zero zero e = refl
concat_from-drop [] zero (suc c) e = refl
concat_from-drop [] (suc left) c e = absurd (omega arith)
concat_from-drop (p ∷ ps) zero zero e = absurd (omega arith)
concat_from-drop (p ∷ ps) (suc left) zero e =
    let e1 : 0 + 1 ≡ 1 = omega arith in
    ap (◌++◌ p) (
      ap (concat_from (p ∷ ps) left) e1
      ∙ concat_from-suc p ps left 0
      ∙ concat_from-drop ps left 0 (omega arith))
concat_from-drop (p ∷ ps) left (suc c) e =
    concat_from-suc p ps left c ∙ concat_from-drop ps left c (omega arith)

module _ (P : List ℕ → Type 0) (d : Decoder) (v : IsValid P d) (full : d.rank ≡ d.k) where
  filled :
      (c : ℕ)
      → c < d.k
      → (pivot_at d.pivot_col c ≡ some c) × IsPivotRow P (d.k + d.piece_size) c (row_at d.matrix c)
  filled c lt =
      let (p, e) =
        full_slots d.pivot_col c (sym v.rank_eq ∙ full ∙ sym v.pivots) (omega (arith, v.pivots)) in
      let s : (p ≡ c) × IsPivotRow P (d.k + d.piece_size) c (row_at d.matrix c) =
        rw e at (v.slot c lt) in
      (e ∙ ap some s.0, s.1)

  -- The sanity check of `decode` passes.
  no_empty_slot : (left c : ℕ) → c + left ≡ d.k → empty_slot_from d.matrix d.pivot_col left c ≡ none
  unfolding empty_slot_from
  no_empty_slot zero c e = refl
  no_empty_slot (suc left) c e =
      let (pivot, row) = filled c (omega arith) in
      ground (arith, pivot, row.is_row.wide, no_empty_slot left (c + 1))

  pub swept : IsSwept P (d.k + d.piece_size) d.k d.k d.matrix
  swept = record {
    rows = v.rows;
    pivot_row = λ c lt. (filled c lt).1;
    cleared = λ r j p q q' ne. absurd (omega arith);
  }

  pub full-no_empty_slot : empty_slot_from d.matrix d.pivot_col d.k 0 ≡ none
  full-no_empty_slot = no_empty_slot d.k 0 (omega arith)

module _ (k piece_size : ℕ) (sources : List (List ℕ)) (src : IsSource k piece_size sources)
    (matrix : List (List ℕ))
    (s : IsSwept (Encodes k piece_size sources) (k + piece_size) k 0 matrix) where
  -- With the identity on the left, the right-hand side of row `c` is source piece `c`.
  right_side : (c : ℕ) → c < k → drop k (row_at matrix c) ≡ row_at sources c
  right_side c lt =
      get_or_ext 0 (drop k (row_at matrix c)) (row_at sources c) (width ∙ sym (src.sizes c lt))
        (λ t q.
          get_or-drop k (row_at matrix c) t 0
          ∙ row.is_row.good t (omega (arith, width))
          ∙ dot-unit k c (byte_at (row_at matrix c)) (λ j. byte_at (row_at sources j) t) lt
              row.pivot (λ j p ne. s.cleared c j lt (omega arith) p (λ e. ground arith))
              (byte_at-lt (row_at sources c) t (src.bytes c)))
    where
      row : IsPivotRow (Encodes k piece_size sources) (k + piece_size) c (row_at matrix c)
      row = s.pivot_row c lt

      width : length (drop k (row_at matrix c)) ≡ piece_size
      width = omega (arith, length-drop k (row_at matrix c), row.is_row.wide)

  extract_from :
      (left c : ℕ) (out : List ℕ)
      → c + left ≡ k
      → extract k left c matrix out ≡ ok (out ++ concat_from sources left c)
  unfolding extract concat_from
  extract_from zero c out e = ap ok (sym (append-nil out))
  extract_from (suc left) c out e = rw (s.pivot_row c (omega arith)).pivot (
      extract_from left (c + 1) (out ++ drop k (row_at matrix c)) (omega arith)
      ∙ ap ok (
          ap (λ t. (out ++ t) ++ concat_from sources left (c + 1)) (right_side c (omega arith))
          ∙ append_assoc out (row_at sources c) (concat_from sources left (c + 1))))

solve_lem :
    (d : Decoder) {out : List ℕ}
    → extract d.k d.k 0 (back_substitute d.k d.matrix) [] ≡ ok out
    → ((solve d none).1 ≡ ok out) × ((solve d none).0.decoded ≡ true)
unfolding solve
solve_lem d e = rw (e, finish) (refl, refl)

decode-solve :
    (d : Decoder)
    → d.rank ≡ d.k
    → empty_slot_from d.matrix d.pivot_col d.k 0 ≡ none
    → decode d ≡ solve d none
unfolding decode
decode-solve d full e = ground arith

-- A decoder whose filled slots all encode the source pieces, and whose rank is `k`, decodes: it
-- returns the concatenation of the source pieces, with no error, and marks itself as decoded.
pub decode-recovers :
    (d : Decoder) (sources : List (List ℕ))
    → IsSource d.k d.piece_size sources
    → IsValid (Encodes d.k d.piece_size sources) d
    → d.rank ≡ d.k
    → ((decode d).1 ≡ ok (concat sources)) × ((decode d).0.decoded ≡ true)
decode-recovers d sources src v full = rw (decode-solve d full (full-no_empty_slot P d v full)) (
    solve_lem d (
      extract_from d.k d.piece_size sources src (back_substitute d.k d.matrix)
        (back_substitute-IsSwept P (d.k + d.piece_size) d.k
          (Encodes-IsClosed d.k d.piece_size sources src) d.k d.matrix (omega arith)
          (swept P d v full))
        d.k 0 [] (omega arith)
      ∙ ap ok (concat_from-drop sources d.k 0 (omega (arith, src.count)))))
  where
    P : List ℕ → Type 0
    P = Encodes d.k d.piece_size sources
