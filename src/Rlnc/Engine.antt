-- ===== src/Rlnc/Engine.antt =====
-- The engine that encodes, decodes and recodes: crates/craftec-rlnc/src/engine.rs. A permit of the
-- semaphore can be had as long as the semaphore is not closed. Each piece has a generator of its
-- own.
pub mod Feeds
pub mod Decodes
pub mod Derived
pub mod RoundTrip
pub mod Tests
use craftec.Prelude.{
  ℕ, zero, suc, ◌+◌, ◌%◌, ◌^◌, List, [], ◌∷◌, Option, none, some, Bool, false, length,
  if◌then◌else◌,
}
use craftec.Rlnc.Decoder
use craftec.Rlnc.Decoder.{
  Decoder, Result, ok, err, RlncError, semaphore_error, coding_vector_length_mismatch,
  invalid_piece_size, insufficient_pieces, linearly_dependent, decode_failed,
  insufficient_recode_inputs, mismatched_cids, add_piece, is_decodable,
}
use craftec.Rlnc.Encoder
use craftec.Rlnc.Encoder.{Encoder, encode_n}
use craftec.Rlnc.Recoder
use craftec.Rlnc.Redundancy.{target_n}
use craftec.Types.Piece.{CodedPiece}

pub record RlncMetrics : Type 0 where
  pub encodes : ℕ
  pub decodes : ℕ
  pub recodes : ℕ
  pub encode_bytes : ℕ

pub record RlncEngine : Type 0 where
  pub closed : Bool
  pub metrics : RlncMetrics

abbrev pub new : RlncEngine
new = record {
  closed = false;
  metrics = record { encodes = 0; decodes = 0; recodes = 0; encode_bytes = 0 };
}

-- `AtomicU64::fetch_add`.
abbrev pub fetch_add : ℕ → ℕ → ℕ
fetch_add n by = (n + by) % 2 ^ 64

abbrev pub encoded : ℕ → RlncMetrics → RlncMetrics
encoded size m = record m {
  encodes = fetch_add m.encodes 1;
  encode_bytes = fetch_add m.encode_bytes size;
}

abbrev pub decoded : RlncMetrics → RlncMetrics
decoded m = record m { decodes = fetch_add m.decodes 1 }

abbrev pub recoded : RlncMetrics → RlncMetrics
recoded m = record m { recodes = fetch_add m.recodes 1 }

-- The generators of the next pieces, from the `i`th on.
unfoldable pub generators : (ℕ → ℕ → ℕ × ℕ) → ℕ → ℕ → List (ℕ → ℕ × ℕ)
generators rng zero i = []
generators rng (suc left) i = rng i ∷ generators rng left (i + 1)

-- The errors for which `decode` does not skip the piece.
unfoldable pub fatal : Result Bool → Option RlncError
fatal (ok _) = none
fatal (err (coding_vector_length_mismatch expected actual)) = none
fatal (err (invalid_piece_size expected actual)) = none
fatal (err e) = some e

-- What the loop of `decode` does once it has offered a piece: it stops at an error that is fatal
-- and when all is there, and else goes on.
unfoldable pub proceed :
    Option RlncError → Decoder → Decoder × Option RlncError → Decoder × Option RlncError
unfolding is_decodable
proceed none d rest = if is_decodable d then (d, none) else rest
proceed (some e) d rest = (d, some e)

-- The loop of `decode` over the pieces.
unfoldable pub feed : Decoder → List CodedPiece → Decoder × Option RlncError
unfolding fatal proceed
feed d [] = (d, none)
feed d (p ∷ ps) =
    let (d', result) = add_piece d p in let rest = feed d' ps in proceed (fatal result) d' rest

abbrev pub count_decoded : RlncEngine → Result (List ℕ) → RlncEngine × Result (List ℕ)
count_decoded g (ok bytes) = (record g { metrics = decoded g.metrics }, ok bytes)
count_decoded g (err e) = (g, err e)

-- What `decode` answers once the loop has ended.
unfoldable pub conclude : RlncEngine → Decoder × Option RlncError → RlncEngine × Result (List ℕ)
conclude g (d, some e) = (g, err e)
conclude g (d, none) = count_decoded g (Decoder.decode d).1

unfoldable pub decode : RlncEngine → ℕ → ℕ → List CodedPiece → RlncEngine × Result (List ℕ)
unfolding feed conclude Decoder.new
decode g k piece_size pieces =
    if g.closed
    then (g, err semaphore_error)
    else conclude g (feed (Decoder.new k piece_size) pieces)

abbrev pub count_recoded : RlncEngine → Result CodedPiece → RlncEngine × Result CodedPiece
count_recoded g (ok p) = (record g { metrics = recoded g.metrics }, ok p)
count_recoded g (err e) = (g, err e)

module _ (hash : List ℕ → ℕ) where
  unfoldable pub recode :
      (ℕ → ℕ × ℕ) → RlncEngine → List CodedPiece → RlncEngine × Result CodedPiece
  recode rng g pieces =
      if g.closed
      then (g, err semaphore_error)
      else count_recoded g (Recoder.recode hash rng pieces)

  module _ (xof : ℕ → ℕ → ℕ → ℕ) where
    abbrev pub count_encoded :
        (ℕ → ℕ → ℕ × ℕ)
        → RlncEngine
        → List ℕ
        → Result Encoder
        → RlncEngine × Result (List CodedPiece)
    count_encoded rng g bytes (ok e) = (
      record g { metrics = encoded (length bytes) g.metrics },
      ok (encode_n hash xof (generators rng (target_n e.k) 0) e),
    )
    count_encoded rng g bytes (err e) = (g, err e)

    unfoldable pub encode :
        (ℕ → ℕ → ℕ × ℕ) → RlncEngine → List ℕ → ℕ → RlncEngine × Result (List CodedPiece)
    unfolding generators
    encode rng g bytes k =
        if g.closed
        then (g, err semaphore_error)
        else count_encoded rng g bytes (Encoder.new hash xof bytes k)
