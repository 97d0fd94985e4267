-- ===== src/Rlnc/Recoder/Payload.antt =====
-- The combinations of coding vectors, payloads and tags in `recode`.
use craftec.Prelude.{
  ℕ, ◌+◌, ◌<◌, ◌≡◌, ap₂, sym, ◌∙◌, subst, List, [], ◌∷◌, ◌++◌, length, replicate, length-replicate,
  get_or-replicate, length-append,
}
use craftec.Crypto.HomMac.{combine_from, combine_step, compute_tag}
use craftec.Crypto.HomMac.Combine.{
  add_scaled-append, combine_step-add_scaled, compute_tag-IsBytes, compute_tag-add_scaled,
}
use craftec.Rlnc.Decoder.Insert.{Fits}
use craftec.Rlnc.Decoder.Recovers.{Encodes}
use craftec.Rlnc.Decoder.Valid.{IsRow, IsClosed}
use craftec.Rlnc.Encoder.{combine_rows}
use craftec.Rlnc.Encoder.RoundTrip.{Encodes-append}
use craftec.Rlnc.Gf256.{gf_vec_mul_add}
use craftec.Rlnc.Gf256.Rows.{
  IsBytes, byte_at, dot-zeros, add_scaled, gf_vec_mul_add_lem, length-add_scaled,
  add_scaled-IsBytes, append-IsBytes, replicate-IsBytes,
}
use craftec.Rlnc.Recoder.{vectors, payloads, tags}
use craftec.Types.Piece.{CodedPiece}

-- A coding vector and a payload that together make a row with the property.
pub record IsPair (P : List ℕ → Type 0) (k size : ℕ) (cv bytes : List ℕ) : Type 0 where
  pub vector_length : length cv ≡ k
  pub data_length : length bytes ≡ size
  pub vector_bytes : IsBytes cv
  pub data_IsBytes : IsBytes bytes
  pub good : P (cv ++ bytes)

pub zeros-IsPair :
    (k size : ℕ) (sources : List (List ℕ))
    → IsPair (Encodes k size sources) k size (replicate k 0) (replicate size 0)
zeros-IsPair k size sources = record {
  vector_length = length-replicate k 0;
  data_length = length-replicate size 0;
  vector_bytes = replicate-IsBytes k;
  data_IsBytes = replicate-IsBytes size;
  good =
      Encodes-append k size sources (replicate k 0) (replicate size 0) (length-replicate k 0)
        (λ t lt.
          get_or-replicate size t 0
          ∙ sym (dot-zeros k (byte_at (replicate k 0)) _ (λ i q. get_or-replicate k i 0)));
}

module _ (P : List ℕ → Type 0) (k size : ℕ) (closed : IsClosed P (k + size)) where
  abbrev pub AllFit : List CodedPiece → Type 0
  AllFit [] = Unit
  AllFit (p ∷ ps) = Fits P k size p × AllFit ps

  IsPair-IsRow : (cv bytes : List ℕ) → IsPair P k size cv bytes → IsRow P (k + size) (cv ++ bytes)
  IsPair-IsRow cv bytes h = record {
    wide = length-append cv bytes ∙ ap₂ ◌+◌ h.vector_length h.data_length;
    bytes = append-IsBytes cv bytes h.vector_bytes h.data_IsBytes;
    good = h.good;
  }

  Fits-IsPair : (p : CodedPiece) → Fits P k size p → IsPair P k size p.coding_vector p.data_bytes
  Fits-IsPair p h = record {
    vector_length = h.vector_length;
    data_length = h.data_length;
    vector_bytes = h.vector_bytes;
    data_IsBytes = h.data_IsBytes;
    good = h.good;
  }

  add_scaled-IsPair :
      (c : ℕ) (cv bytes cv' bytes' : List ℕ)
      → c < 256
      → IsPair P k size cv bytes
      → IsPair P k size cv' bytes'
      → IsPair P k size (add_scaled c cv cv') (add_scaled c bytes bytes')
  add_scaled-IsPair c cv bytes cv' bytes' p h h' = record {
    vector_length = length-add_scaled c cv cv' ∙ h.vector_length;
    data_length = length-add_scaled c bytes bytes' ∙ h.data_length;
    vector_bytes = add_scaled-IsBytes c cv cv' p h.vector_bytes h'.vector_bytes;
    data_IsBytes = add_scaled-IsBytes c bytes bytes' p h.data_IsBytes h'.data_IsBytes;
    good =
        subst P (add_scaled-append c cv bytes cv' bytes' (h.vector_length ∙ sym h'.vector_length)) (
          closed.add c (cv ++ bytes) (cv' ++ bytes') p (IsPair-IsRow cv bytes h)
            (IsPair-IsRow cv' bytes' h'));
  }

  -- The loops of `recode` keep the property.
  pub combine_rows-IsPair :
      (ps : List CodedPiece) (cs cv bytes : List ℕ)
      → AllFit ps
      → IsBytes cs
      → IsPair P k size cv bytes
      → IsPair P k size (combine_rows cv (vectors ps) cs) (combine_rows bytes (payloads ps) cs)
  unfolding combine_rows
  combine_rows-IsPair [] cs cv bytes fit hc h = h
  combine_rows-IsPair (p ∷ ps) [] cv bytes fit hc h = h
  combine_rows-IsPair (p ∷ ps) (c ∷ cs) cv bytes fit hc h =
      combine_rows-IsPair ps cs (gf_vec_mul_add cv p.coding_vector c)
        (gf_vec_mul_add bytes p.data_bytes c) fit.1 hc.1
        (rw
          (
            gf_vec_mul_add_lem cv p.coding_vector c fit.0.vector_bytes,
            gf_vec_mul_add_lem bytes p.data_bytes c fit.0.data_IsBytes,
          )
          (add_scaled-IsPair c cv bytes p.coding_vector p.data_bytes hc.0 h (Fits-IsPair p fit.0)))

  -- Every piece has its own tag under the key.
  abbrev pub AllTagged : (ℕ → ℕ → ℕ → ℕ) → ℕ → List CodedPiece → Type 0
  AllTagged xof key [] = Unit
  AllTagged xof key (p ∷ ps) =
      (p.hommac_tag ≡ compute_tag xof key p.coding_vector p.data_bytes) × AllTagged xof key ps

  pub combine_from-compute_tag :
      (xof : ℕ → ℕ → ℕ → ℕ)
      → ((key j i : ℕ) → xof key j i < 256)
      → (key : ℕ) → (ps : List CodedPiece) (cs cv bytes acc : List ℕ) → AllFit ps
      → AllTagged xof key ps
      → IsBytes cs
      → IsPair P k size cv bytes
      → acc ≡ compute_tag xof key cv bytes
      → combine_from acc (tags ps) cs
        ≡ compute_tag xof key
            (combine_rows cv (vectors ps) cs)
            (combine_rows bytes (payloads ps) cs)
  unfolding combine_rows combine_from
  combine_from-compute_tag xof range key [] cs cv bytes acc fit tag hc h e = e
  combine_from-compute_tag xof range key (p ∷ ps) [] cv bytes acc fit tag hc h e = e
  combine_from-compute_tag xof range key (p ∷ ps) (c ∷ cs) cv bytes acc fit tag hc h e =
      combine_from-compute_tag xof range key ps cs (gf_vec_mul_add cv p.coding_vector c)
        (gf_vec_mul_add bytes p.data_bytes c) (combine_step acc p.hommac_tag c) fit.1 tag.1 hc.1
        (rw (ecv, ebytes)
          (add_scaled-IsPair c cv bytes p.coding_vector p.data_bytes hc.0 h (Fits-IsPair p fit.0)))
        (ap₂ (λ a t. combine_step a t c) e tag.0
          ∙ combine_step-add_scaled (compute_tag xof key cv bytes) own c hc.0 (
              compute_tag-IsBytes xof range key p.coding_vector p.data_bytes fit.0.vector_bytes
                fit.0.data_IsBytes)
          ∙ sym (
              ap₂ (compute_tag xof key) ecv ebytes
              ∙ compute_tag-add_scaled xof range key c cv bytes p.coding_vector p.data_bytes hc.0
                  (h.vector_length ∙ sym fit.0.vector_length)
                  (h.data_length ∙ sym fit.0.data_length) h.vector_bytes h.data_IsBytes
                  fit.0.vector_bytes fit.0.data_IsBytes))
    where
      own : List ℕ
      own = compute_tag xof key p.coding_vector p.data_bytes

      ecv : gf_vec_mul_add cv p.coding_vector c ≡ add_scaled c cv p.coding_vector
      ecv = gf_vec_mul_add_lem cv p.coding_vector c fit.0.vector_bytes

      ebytes : gf_vec_mul_add bytes p.data_bytes c ≡ add_scaled c bytes p.data_bytes
      ebytes = gf_vec_mul_add_lem bytes p.data_bytes c fit.0.data_IsBytes
