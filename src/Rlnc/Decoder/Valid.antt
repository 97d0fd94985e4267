-- ===== src/Rlnc/Decoder/Valid.antt =====
-- The invariant of the decoder, over a property of rows that linear combinations keep.
use craftec.Prelude.{
  ℕ, zero, suc, ◌+◌, ◌<◌, ◌≤◌, ◌≡◌, refl, ap, sym, ◌∙◌, List, [], ◌∷◌, map, arith, length,
  length-map, set, get_or, replicate, length-replicate, get_or-replicate, Option, none, some,
}
use craftec.Rlnc.Decoder.{Decoder, new, row_at, pivot_at}
use craftec.Rlnc.Gf256.{gf_mul}
use craftec.Rlnc.Gf256.Rows.{IsBytes, byte_at, add_scaled, length-add_scaled, add_scaled-IsBytes}
use craftec.Rlnc.Gf256.Field.{gf_mul-lt}

abbrev pub scale : ℕ → List ℕ → List ℕ
scale c row = map (λ b. gf_mul b c) row

pub scale-IsBytes : (c : ℕ) (row : List ℕ) → c < 256 → IsBytes row → IsBytes (scale c row)
scale-IsBytes c [] p h = tt
scale-IsBytes c (b ∷ row) p h = (gf_mul-lt b c h.0 p, scale-IsBytes c row p h.1)

-- A row of bytes, `width` long, with the property.
pub record IsRow (P : List ℕ → Type 0) (width : ℕ) (row : List ℕ) : Type 0 where
  pub wide : length row ≡ width
  pub bytes : IsBytes row
  pub good : P row

-- The property passes to sums and multiples of rows.
pub record IsClosed (P : List ℕ → Type 0) (width : ℕ) : Type 0 where
  pub add :
      (c : ℕ) (dst src : List ℕ)
      → c < 256
      → IsRow P width dst
      → IsRow P width src
      → P (add_scaled c dst src)
  pub times : (c : ℕ) (row : List ℕ) → c < 256 → IsRow P width row → P (scale c row)

-- What a filled slot holds: a row that begins with zeros up to its pivot 1 in column `c`.
pub record IsPivotRow (P : List ℕ → Type 0) (width c : ℕ) (row : List ℕ) : Type 0 where
  pub is_row : IsRow P width row
  pub pivot : byte_at row c ≡ 1
  pub before : (j : ℕ) → j < c → byte_at row j ≡ 0

abbrev pub IsSlot : (List ℕ → Type 0) → ℕ → ℕ → Option ℕ → List ℕ → Type 0
IsSlot P width c none row = row ≡ []
IsSlot P width c (some p) row = (p ≡ c) × IsPivotRow P width c row

pub count_some {ℓ} : {A : Type ℓ} → List (Option A) → ℕ
count_some [] = 0
count_some (none ∷ l) = count_some l
count_some (some a ∷ l) = suc (count_some l)

pub record IsValid (P : List ℕ → Type 0) (d : Decoder) : Type 0 where
  pub rows : length d.matrix ≡ d.k
  pub pivots : length d.pivot_col ≡ d.k
  pub slot :
      (c : ℕ)
      → c < d.k
      → IsSlot P (d.k + d.piece_size) c (pivot_at d.pivot_col c) (row_at d.matrix c)
  pub rank_eq : d.rank ≡ count_some d.pivot_col

module _ (P : List ℕ → Type 0) (width : ℕ) (closed : IsClosed P width) where
  pub add_scaled-IsRow :
      (c : ℕ) (dst src : List ℕ)
      → c < 256
      → IsRow P width dst
      → IsRow P width src
      → IsRow P width (add_scaled c dst src)
  add_scaled-IsRow c dst src p hd hs = record {
    wide = length-add_scaled c dst src ∙ hd.wide;
    bytes = add_scaled-IsBytes c dst src p hd.bytes hs.bytes;
    good = closed.add c dst src p hd hs;
  }

  pub scale-IsRow :
      (c : ℕ) (row : List ℕ) → c < 256 → IsRow P width row → IsRow P width (scale c row)
  scale-IsRow c row p h = record {
    wide = length-map row (λ b. gf_mul b c) ∙ h.wide;
    bytes = scale-IsBytes c row p h.bytes;
    good = closed.times c row p h;
  }

count_some-replicate : (n : ℕ) → count_some {A = ℕ} (replicate n none) ≡ 0
unfolding count_some
count_some-replicate zero = refl
count_some-replicate (suc n) = count_some-replicate n

pub count_some-le {ℓ} : {A : Type ℓ} (l : List (Option A)) → count_some l ≤ length l
unfolding count_some
count_some-le [] = omega arith
count_some-le (none ∷ l) = omega (arith, count_some-le l)
count_some-le (some a ∷ l) = omega (arith, count_some-le l)

-- If every slot counts, none is empty.
pub full_slots {ℓ} :
    {A : Type ℓ} (l : List (Option A)) (i : ℕ)
    → count_some l ≡ length l
    → i < length l
    → (a : A) × (get_or l i none ≡ some a)
unfolding count_some
full_slots [] i e h = elim h [ ]
full_slots (none ∷ l) i e h = absurd (omega (arith, count_some-le l))
full_slots (some a ∷ l) zero e h = (a, refl)
full_slots (some a ∷ l) (suc i) e h = full_slots l i (omega arith) (omega arith)

pub count_some-set {ℓ} :
    {A : Type ℓ} (l : List (Option A)) (i : ℕ) (a : A)
    → i < length l
    → get_or l i none ≡ none
    → count_some (set l i (some a)) ≡ suc (count_some l)
unfolding count_some
count_some-set [] i a h e = elim h [ ]
count_some-set (none ∷ l) zero a h e = refl
count_some-set (some b ∷ l) zero a h e = cc
count_some-set (none ∷ l) (suc i) a h e = count_some-set l i a (omega arith) e
count_some-set (some b ∷ l) (suc i) a h e = ap suc (count_some-set l i a (omega arith) e)

pub new-IsValid : (P : List ℕ → Type 0) (k piece_size : ℕ) → IsValid P (new k piece_size)
unfolding new
new-IsValid P k piece_size = record {
  rows = length-replicate k [];
  pivots = length-replicate k none;
  slot = λ c h. rw (get_or-replicate {A = Option ℕ} k c none) (get_or-replicate k c []);
  rank_eq = sym (count_some-replicate k);
}
