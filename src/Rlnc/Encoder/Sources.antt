-- ===== src/Rlnc/Encoder/Sources.antt =====
-- The source pieces of `RlncEncoder::new` and the data they are cut from.
use craftec.Prelude.{
  ℕ, zero, suc, ◌+◌, ◌-◌, ◌*◌, ◌/◌, ◌<◌, ◌≤◌, ◌≡◌, refl, ap, sym, ◌∙◌, List, [], ◌∷◌, ◌++◌, arith,
  length, take, drop, replicate, length-take, length-drop, min, ltb, Bool-cases, inl, inr,
}
use craftec.Rlnc.Decoder.{ok, row_at}
use craftec.Rlnc.Decoder.Recovers.{concat, IsSource}
use craftec.Rlnc.Encoder.{Encoder, new, piece_size_for, source_piece, split}
use craftec.Rlnc.Encoder.Combination.{AllRows}
use craftec.Rlnc.Gf256.Rows.{IsBytes}

-- Zeros behind a list, up to a length.
abbrev pub pad : ℕ → List ℕ → List ℕ
pad zero xs = xs
pad (suc n) [] = 0 ∷ pad n []
pad (suc n) (x ∷ xs) = x ∷ pad n xs

pad-replicate : (n : ℕ) → pad n [] ≡ replicate n 0
pad-replicate zero = refl
pad-replicate (suc n) = ap (◌∷◌ 0) (pad-replicate n)

pub pad_lem : (n : ℕ) (xs : List ℕ) → length xs ≤ n → xs ++ replicate (n - length xs) 0 ≡ pad n xs
pad_lem n [] h = let e : n - 0 ≡ n = omega arith in rw e (sym (pad-replicate n))
pad_lem zero (x ∷ xs) h = absurd (omega arith)
pad_lem (suc n) (x ∷ xs) h =
    let e : suc n - suc (length xs) ≡ n - length xs = omega arith in
    rw e (ap (◌∷◌ x) (pad_lem n xs (omega arith)))

pub length-pad : (n : ℕ) (xs : List ℕ) → length xs ≤ n → length (pad n xs) ≡ n
length-pad zero [] h = refl
length-pad zero (x ∷ xs) h = absurd (omega arith)
length-pad (suc n) [] h = ap suc (length-pad n [] (omega arith))
length-pad (suc n) (x ∷ xs) h = ap suc (length-pad n xs (omega arith))

pad-IsBytes : (n : ℕ) (xs : List ℕ) → IsBytes xs → IsBytes (pad n xs)
pad-IsBytes zero xs h = h
pad-IsBytes (suc n) [] h = (omega arith, pad-IsBytes n [] tt)
pad-IsBytes (suc n) (x ∷ xs) h = (h.0, pad-IsBytes n xs h.1)

take-IsBytes : (n : ℕ) (xs : List ℕ) → IsBytes xs → IsBytes (take n xs)
take-IsBytes zero xs h = tt
take-IsBytes (suc n) [] h = tt
take-IsBytes (suc n) (x ∷ xs) h = (h.0, take-IsBytes n xs h.1)

drop-IsBytes : (n : ℕ) (xs : List ℕ) → IsBytes xs → IsBytes (drop n xs)
drop-IsBytes zero xs h = h
drop-IsBytes (suc n) [] h = tt
drop-IsBytes (suc n) (x ∷ xs) h = drop-IsBytes n xs h.1

pub take-length-pad : (n : ℕ) (xs : List ℕ) → take (length xs) (pad n xs) ≡ xs
take-length-pad zero [] = refl
take-length-pad zero (x ∷ xs) = ap (◌∷◌ x) (take-length-pad zero xs)
take-length-pad (suc n) [] = refl
take-length-pad (suc n) (x ∷ xs) = ap (◌∷◌ x) (take-length-pad n xs)

take-nil : (n : ℕ) → take {A = ℕ} n [] ≡ []
take-nil zero = refl
take-nil (suc n) = refl

drop-nil : (n : ℕ) → drop {A = ℕ} n [] ≡ []
drop-nil zero = refl
drop-nil (suc n) = refl

-- The padding of the two parts is the padding of the whole.
pad-take-drop : (p m : ℕ) (xs : List ℕ) → pad p (take p xs) ++ pad m (drop p xs) ≡ pad (p + m) xs
pad-take-drop zero m xs = let e : m ≡ 0 + m = omega arith in ap (λ t. pad t xs) e
pad-take-drop (suc p) m [] =
    let e : suc (p + m) ≡ suc p + m = omega arith in
    ap (λ t. 0 ∷ pad p t ++ pad m []) (sym (take-nil p))
    ∙ ap (λ t. 0 ∷ pad p (take p []) ++ pad m t) (sym (drop-nil p))
    ∙ ap (◌∷◌ 0) (pad-take-drop p m [])
    ∙ ap (λ t. pad t []) e
pad-take-drop (suc p) m (x ∷ xs) =
    let e : suc (p + m) ≡ suc p + m = omega arith in
    ap (◌∷◌ x) (pad-take-drop p m xs) ∙ ap (λ t. pad t (x ∷ xs)) e

drop-drop : (m n : ℕ) (xs : List ℕ) → drop n (drop m xs) ≡ drop (m + n) xs
drop-drop zero n xs = let e : n ≡ 0 + n = omega arith in ap (λ t. drop t xs) e
drop-drop (suc m) n [] = drop-nil n ∙ sym (drop-nil (suc m + n))
drop-drop (suc m) n (x ∷ xs) =
    let e : suc (m + n) ≡ suc m + n = omega arith in drop-drop m n xs ∙ ap (λ t. drop t (x ∷ xs)) e

take_of_length-le : (n : ℕ) (xs : List ℕ) → length xs ≤ n → take n xs ≡ xs
take_of_length-le (suc n) (b ∷ bs) h = ap (◌∷◌ b) (take_of_length-le n bs (omega arith))
take_of_length-le (suc n) [] h = refl
take_of_length-le zero (b ∷ bs) h = absurd (omega arith)
take_of_length-le zero [] h = refl

-- A take that reaches to the end or to `n`, whichever comes first.
take-min : (n m : ℕ) (xs : List ℕ) → m ≡ min n (length xs) → take m xs ≡ take n xs
take-min n m xs e = elim (Bool-cases (ltb n (length xs))) [
  | inl short ↦ let same : m ≡ n = ground arith in ap (λ t. take t xs) same
  | inr long ↦
      let same : m ≡ length xs = ground arith in
      ap (λ t. take t xs) same
      ∙ take_of_length-le (length xs) xs (omega arith)
      ∙ sym (take_of_length-le n xs (ground arith))
]

nothing_left : (n : ℕ) (xs : List ℕ) → length xs ≤ n → drop n xs ≡ []
nothing_left zero [] h = refl
nothing_left zero (x ∷ xs) h = absurd (omega arith)
nothing_left (suc n) [] h = refl
nothing_left (suc n) (x ∷ xs) h = nothing_left n xs (omega arith)

-- Each source piece is the next `piece_size` bytes of the data, padded.
source_piece_lem :
    (bytes : List ℕ) (size i : ℕ)
    → source_piece bytes size i ≡ pad size (take size (drop (i * size) bytes))
unfolding source_piece
source_piece_lem bytes size i = elim (Bool-cases (ltb (i * size) (length bytes))) [
  | inl more ↦
      let part = min ((i + 1) * size) (length bytes) - i * size in
      let rest = drop (i * size) bytes in
      let len : part ≡ min size (length rest) = omega (arith, length-drop (i * size) bytes) in
      let len' : part ≡ length (take part rest) = omega (arith, length-take part rest) in
      rw more (
        ap (λ t. take part rest ++ replicate (size - t) 0) len'
        ∙ pad_lem size (take part rest) (omega arith)
        ∙ ap (pad size) (take-min size part rest len))
  | inr done ↦ rw done (
      sym (pad-replicate size)
      ∙ ap (pad size) (
          sym (take_of_length-le size [] (omega arith))
          ∙ ap (take size) (sym (nothing_left (i * size) bytes (ground arith)))))
]

concat-split :
    (bytes : List ℕ) (size left i : ℕ)
    → length bytes ≤ (i + left) * size
    → concat (split bytes size left i) ≡ pad (left * size) (drop (i * size) bytes)
unfolding split
concat-split bytes size zero i h =
    let e : 0 * size ≡ 0 = omega arith in
    rw e (
      sym (
        nothing_left (i * size) bytes
          (let q : (i + 0) * size ≡ i * size = omega arith in omega arith)))
concat-split bytes size (suc left) i h =
    let here : i * size + size ≡ (i + 1) * size = omega arith in
    let size_eq : size + left * size ≡ suc left * size = omega arith in
    ap (λ t. t ++ concat (split bytes size left (i + 1))) (source_piece_lem bytes size i)
    ∙ ap (λ t. pad size (take size (drop (i * size) bytes)) ++ t)
        (concat-split bytes size left (i + 1)
            (let q : (i + suc left) * size ≡ (i + 1 + left) * size = omega arith in omega arith)
          ∙ ap (λ t. pad (left * size) (drop t bytes)) (sym here)
          ∙ ap (pad (left * size)) (sym (drop-drop (i * size) size bytes)))
    ∙ pad-take-drop size (left * size) (drop (i * size) bytes)
    ∙ ap (λ t. pad t (drop (i * size) bytes)) size_eq

pub split-AllRows :
    (bytes : List ℕ) (size left i : ℕ) → IsBytes bytes → AllRows size (split bytes size left i)
unfolding split
split-AllRows bytes size zero i h = tt
split-AllRows bytes size (suc left) i h = rw (source_piece_lem bytes size i) (
  length-pad size (take size (drop (i * size) bytes))
      (omega (arith, length-take size (drop (i * size) bytes))),
  pad-IsBytes size (take size (drop (i * size) bytes))
      (take-IsBytes size (drop (i * size) bytes) (drop-IsBytes (i * size) bytes h)),
  split-AllRows bytes size left (i + 1) h,
)

pub length-split : (bytes : List ℕ) (size left i : ℕ) → length (split bytes size left i) ≡ left
unfolding split
length-split bytes size zero i = refl
length-split bytes size (suc left) i = ap suc (length-split bytes size left (i + 1))

AllRows-row_at :
    (size : ℕ) (ps : List (List ℕ)) (j : ℕ)
    → AllRows size ps
    → (j < length ps → length (row_at ps j) ≡ size) × IsBytes (row_at ps j)
AllRows-row_at size [] j h = (λ lt. absurd (omega arith), tt)
AllRows-row_at size (p ∷ ps) zero h = (λ lt. h.0, h.1)
AllRows-row_at size (p ∷ ps) (suc j) h =
    let (len, bytes) = AllRows-row_at size ps j h.2 in (λ lt. len (omega arith), bytes)

pub AllRows-IsSource :
    (k size : ℕ) (ps : List (List ℕ)) → length ps ≡ k → AllRows size ps → IsSource k size ps
AllRows-IsSource k size ps e h = record {
  count = e;
  sizes = λ j lt. (AllRows-row_at size ps j h).0 (omega arith);
  bytes = λ j. (AllRows-row_at size ps j h).1;
}

total-le : (total k : ℕ) → 0 < k → total ≤ k * piece_size_for total k
unfolding piece_size_for
total-le zero k h = omega arith
total-le (suc total) k h = ground (arith, ceil-le (suc total) k h)
  where
    ceil-le : (n m : ℕ) → 0 < m → n ≤ m * ((n + m - 1) / m)
    ceil-le n m pos = grind arith

-- For any data of bytes and any `k` other than 0 the encoder is built. Its source pieces are `k`,
-- of one size, and joined they are the data with zeros behind it.
pub new_lem :
    (hash : List ℕ → ℕ) (xof : ℕ → ℕ → ℕ → ℕ) (bytes : List ℕ) (k : ℕ)
    → IsBytes bytes
    → 0 < k
    → (e : Encoder) × (new hash xof bytes k ≡ ok e)
      × (e.k ≡ k)
      × (e.cid ≡ hash bytes)
      × (length e.original_pieces ≡ e.k)
      × AllRows e.piece_size e.original_pieces
      × (concat e.original_pieces ≡ pad (e.k * e.piece_size) bytes)
      × (length bytes ≤ e.k * e.piece_size)
unfolding new
new_lem hash xof bytes zero h pos = absurd (omega arith)
new_lem hash xof bytes (suc n) h pos =
    let size = piece_size_for (length bytes) (suc n) in
    (
      record {
        k = suc n;
        piece_size = size;
        original_pieces = split bytes size (suc n) 0;
        cid = hash bytes;
      },
      ground arith,
      refl,
      refl,
      length-split bytes size (suc n) 0,
      split-AllRows bytes size (suc n) 0 h,
      concat-split bytes size (suc n) 0 (
            let e : (0 + suc n) * size ≡ suc n * size = omega arith in
            omega (arith, total-le (length bytes) (suc n) pos))
          ∙ (let e : 0 * size ≡ 0 = omega arith in ap (λ t. pad (suc n * size) (drop t bytes)) e),
      total-le (length bytes) (suc n) pos,
    )
