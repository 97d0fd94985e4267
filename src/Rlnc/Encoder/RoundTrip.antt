-- ===== src/Rlnc/Encoder/RoundTrip.antt =====
-- From data through coded pieces and back: `encode_piece`, `add_piece` and `decode` together.
use Prim.Native.Nat.{bit_xor}
use craftec.Prelude.{
  ℕ, zero, suc, ◌+◌, ◌<◌, ◌≤◌, ◌≡◌, refl, ap, ap₂, sym, ◌∙◌, subst, List, [], ◌∷◌, ◌++◌, arith,
  length, replicate, length-replicate, get_or, get_or-replicate,
}
use craftec.Prelude.Xor.{zero-bit_xor}
use craftec.Rlnc.Decoder.{Decoder, ok, add_piece, reduced_row, decode, row_at}
use craftec.Rlnc.Decoder.Insert.{Fits, Added, add_piece_lem, add_piece-dimensions}
use craftec.Rlnc.Decoder.Recovers.{Encodes, Encodes-IsClosed, IsSource, concat, decode-recovers}
use craftec.Rlnc.Decoder.Valid.{IsValid, IsClosed}
use craftec.Rlnc.Encoder.{Encoder, draw, coefficient, encode_piece}
use craftec.Rlnc.Encoder.Combination.{
  AllRows, combine_rows-IsBytes, length-combine_rows, byte_at-combine_rows,
}
use craftec.Rlnc.Encoder.Sources.{AllRows-IsSource}
use craftec.Rlnc.Gf256.Rows.{IsBytes, byte_at, dot, dot_cong, replicate-IsBytes}
use craftec.Types.Piece
use craftec.Types.Piece.{CodedPiece}

-- What is known of the generator: bytes, and from 1 to 255 at the second draw.
abbrev pub IsRng : (ℕ → ℕ × ℕ) → Type 0
IsRng rng = (j : ℕ) → ((rng j).0 < 256) × (1 ≤ (rng j).1) × ((rng j).1 < 256)

pub length-draw : (rng : ℕ → ℕ × ℕ) (left j : ℕ) → length (draw rng left j) ≡ left
unfolding draw
length-draw rng zero j = refl
length-draw rng (suc left) j = ap suc (length-draw rng left (j + 1))

pub coefficient_range :
    (d : ℕ × ℕ) → d.0 < 256 → 1 ≤ d.1 → d.1 < 256 → (0 < coefficient d) × (coefficient d < 256)
unfolding coefficient
coefficient_range (c, again) p q r = ground arith

pub draw-IsBytes : (rng : ℕ → ℕ × ℕ) (left j : ℕ) → IsRng rng → IsBytes (draw rng left j)
unfolding draw
draw-IsBytes rng zero j h = tt
draw-IsBytes rng (suc left) j h =
    ((coefficient_range (rng j) (h j).0 (h j).1 (h j).2).1, draw-IsBytes rng left (j + 1) h)

get_or-append_left :
    (xs ys : List ℕ) (i : ℕ) → i < length xs → get_or (xs ++ ys) i 0 ≡ get_or xs i 0
get_or-append_left [] ys i h = elim h [ ]
get_or-append_left (x ∷ xs) ys zero h = refl
get_or-append_left (x ∷ xs) ys (suc i) h = get_or-append_left xs ys i (omega arith)

get_or-append_right : (xs ys : List ℕ) (i : ℕ) → get_or (xs ++ ys) (length xs + i) 0 ≡ get_or ys i 0
get_or-append_right [] ys i = let e : 0 + i ≡ i = omega arith in ap (λ t. get_or ys t 0) e
get_or-append_right (x ∷ xs) ys i =
    let e : suc (length xs) + i ≡ suc (length xs + i) = omega arith in
    ap (λ t. get_or (x ∷ (xs ++ ys)) t 0) e ∙ get_or-append_right xs ys i

-- A piece whose payload is, byte by byte, the combination of the sources by its coding vector.
pub Encodes-append :
    (k size : ℕ) (sources : List (List ℕ)) (cv bytes : List ℕ)
    → length cv ≡ k
    → ((t : ℕ)
        → t < size
        → byte_at bytes t ≡ dot k (byte_at cv) (λ j. byte_at (row_at sources j) t))
    → Encodes k size sources (cv ++ bytes)
Encodes-append k size sources cv bytes e h t lt =
    ap (λ s. byte_at (cv ++ bytes) (s + t)) (sym e)
    ∙ get_or-append_right cv bytes t
    ∙ h t lt
    ∙ dot_cong k (byte_at cv) (byte_at (cv ++ bytes)) (λ j. byte_at (row_at sources j) t)
        (λ j q. sym (get_or-append_left cv bytes j (omega arith)))

-- The piece is a coded piece of the encoder's data.
abbrev pub Carries : Encoder → CodedPiece → Type 0
Carries e = Fits (Encodes e.k e.piece_size e.original_pieces) e.k e.piece_size

pub record IsWellFormed (e : Encoder) : Type 0 where
  pub count : length e.original_pieces ≡ e.k
  pub rows : AllRows e.piece_size e.original_pieces

module _ (hash : List ℕ → ℕ) (xof : ℕ → ℕ → ℕ → ℕ) (rng : ℕ → ℕ × ℕ) (range : IsRng rng) where
  -- Every piece that a well-formed encoder makes, with whatever random coefficients, carries its
  -- data.
  pub encode_piece-Carries :
      (e : Encoder) → IsWellFormed e → Carries e (encode_piece hash xof rng e)
  unfolding encode_piece Piece.new
  encode_piece-Carries e w = record {
    vector_length = length-draw rng e.k 0;
    data_length =
        length-combine_rows e.piece_size (replicate e.piece_size 0) e.original_pieces
          (draw rng e.k 0) w.rows
        ∙ length-replicate e.piece_size 0;
    vector_bytes = vector;
    data_IsBytes =
        combine_rows-IsBytes e.piece_size (replicate e.piece_size 0) e.original_pieces
          (draw rng e.k 0) w.rows vector (replicate-IsBytes e.piece_size);
    good =
        Encodes-append e.k e.piece_size e.original_pieces (draw rng e.k 0) _ (length-draw rng e.k 0)
          (λ t lt.
            byte_at-combine_rows e.piece_size t (replicate e.piece_size 0) e.original_pieces
              (draw rng e.k 0) w.rows (length-replicate e.piece_size 0)
              (length-draw rng e.k 0 ∙ sym w.count)
            ∙ ap
                (λ s. bit_xor s (
                  dot (length e.original_pieces) (byte_at (draw rng e.k 0))
                    (λ j. byte_at (row_at e.original_pieces j) t)))
                (get_or-replicate e.piece_size t 0)
            ∙ zero-bit_xor _
            ∙ ap
                (λ n.
                  dot n (byte_at (draw rng e.k 0)) (λ j. byte_at (row_at e.original_pieces j) t))
                w.count);
  }
    where
      vector : IsBytes (draw rng e.k 0)
      vector = draw-IsBytes rng e.k 0 range

abbrev pub AllCarry : Encoder → List CodedPiece → Type 0
AllCarry e [] = Unit
AllCarry e (p ∷ ps) = Carries e p × AllCarry e ps

-- The decoder after the pieces, in the order in which they came.
unfoldable pub add_all : Decoder → List CodedPiece → Decoder
add_all d [] = d
add_all d (p ∷ ps) = add_all (add_piece d p).0 ps

module _ (e : Encoder) (w : IsWellFormed e) where
  abbrev pub HasData : Decoder → Type 0
  HasData d =
      (d.k ≡ e.k)
      × (d.piece_size ≡ e.piece_size)
      × IsValid (Encodes e.k e.piece_size e.original_pieces) d

  add_piece-both :
      (d : Decoder) (p : CodedPiece)
      → HasData d
      → Carries e p
      → HasData (add_piece d p).0 × Added d (reduced_row d p) (add_piece d p)
  add_piece-both d p (ek, es, v) c =
      (((add_piece-dimensions d p).0 ∙ ek, (add_piece-dimensions d p).1 ∙ es, both.0), both.1)
    where
      P : List ℕ → Type 0
      P = Encodes e.k e.piece_size e.original_pieces

      closed : IsClosed P (d.k + d.piece_size)
      closed =
          subst (λ t. IsClosed P t) (ap₂ ◌+◌ (sym ek) (sym es))
            (Encodes-IsClosed e.k e.piece_size e.original_pieces
              (AllRows-IsSource e.k e.piece_size e.original_pieces w.count w.rows))

      fits : Fits P d.k d.piece_size p
      fits = record {
        vector_length = c.vector_length ∙ sym ek;
        data_length = c.data_length ∙ sym es;
        vector_bytes = c.vector_bytes;
        data_IsBytes = c.data_IsBytes;
        good = c.good;
      }

      both : IsValid P (add_piece d p).0 × Added d (reduced_row d p) (add_piece d p)
      both = add_piece_lem P d closed v p fits

  pub add_piece-HasData :
      (d : Decoder) (p : CodedPiece) → HasData d → Carries e p → HasData (add_piece d p).0
  add_piece-HasData d p h c = (add_piece-both d p h c).0

  pub add_piece-Added :
      (d : Decoder) (p : CodedPiece)
      → HasData d
      → Carries e p
      → Added d (reduced_row d p) (add_piece d p)
  add_piece-Added d p h c = (add_piece-both d p h c).1

  pub decode-HasData :
      (d : Decoder) → HasData d → d.rank ≡ d.k → (decode d).1 ≡ ok (concat e.original_pieces)
  decode-HasData d (ek, es, v) full =
      (decode-recovers d e.original_pieces
        (record {
          count = src.count ∙ sym ek;
          sizes = λ j lt. src.sizes j (omega arith) ∙ sym es;
          bytes = src.bytes;
        })
        (subst (λ k. IsValid (Encodes k d.piece_size e.original_pieces) d) (sym ek)
          (subst (λ s. IsValid (Encodes e.k s e.original_pieces) d) (sym es) v))
        full).0
    where
      src : IsSource e.k e.piece_size e.original_pieces
      src = AllRows-IsSource e.k e.piece_size e.original_pieces w.count w.rows
