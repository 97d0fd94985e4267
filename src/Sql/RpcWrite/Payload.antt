-- ===== src/Sql/RpcWrite/Payload.antt =====
-- What a signature covers: crates/craftec-sql/src/rpc_write.rs.
use craftec.Prelude.{
  ℕ, ◌^◌, ◌%◌, ◌<◌, ◌≡◌, refl, ap, sym, ◌∙◌, arith, List, ◌++◌, Option, none, some, length, take,
  drop, take-length-append, drop-length-append,
}
use craftec.Prelude.Bytes.{
  to_le_bytes, from_le_bytes, from_le_bytes-to_le_bytes, length-to_le_bytes,
}
use craftec.Sql.RpcWrite.{build_signed_payload, root_bytes}

-- Two fronts of the same length are the same, and so are the rests.
append-inj :
    (xs ys us vs : List ℕ) → length xs ≡ length ys → xs ++ us ≡ ys ++ vs → (xs ≡ ys) × (us ≡ vs)
append-inj xs ys us vs same e = (
  sym (take-length-append xs us)
      ∙ (ap (λ n. take n (xs ++ us)) same ∙ (ap (take (length ys)) e ∙ take-length-append ys vs)),
  sym (drop-length-append xs us)
      ∙ (ap (λ n. drop n (xs ++ us)) same ∙ (ap (drop (length ys)) e ∙ drop-length-append ys vs)),
)

word-inj :
    (n v w : ℕ) (us vs : List ℕ)
    → v < 256 ^ n
    → w < 256 ^ n
    → to_le_bytes n v ++ us ≡ to_le_bytes n w ++ vs
    → (v ≡ w) × (us ≡ vs)
word-inj n v w us vs p q e =
    let (front, rest) =
      append-inj (to_le_bytes n v) (to_le_bytes n w) us vs
        (length-to_le_bytes n v ∙ sym (length-to_le_bytes n w)) e in
    (
      sym (from_le_bytes-to_le_bytes n v p)
          ∙ (ap from_le_bytes front ∙ from_le_bytes-to_le_bytes n w q),
      rest,
    )

-- A content id fits its 32 bytes.
abbrev pub IsId : Option ℕ → Type 0
IsId none = Unit
IsId (some cid) = cid < 256 ^ 32

root_bytes-inj : (r s : Option ℕ) → IsId r → IsId s → root_bytes r ≡ root_bytes s → r ≡ s
root_bytes-inj none none p q e = refl
root_bytes-inj none (some d) p q e = absurd (cc)
root_bytes-inj (some c) none p q e = absurd (cc)
root_bytes-inj (some c) (some d) p q e =
    let tails : to_le_bytes 32 c ≡ to_le_bytes 32 d = (cc) in
    ap some (
      sym (from_le_bytes-to_le_bytes 32 c p)
      ∙ (ap from_le_bytes tails ∙ from_le_bytes-to_le_bytes 32 d q))

-- A signed payload determines the writer, the statement and the expected root, where the ids fit 32
-- bytes and the statements are shorter than 2^32 bytes: a signature over one write is never one
-- over another.
pub build_signed_payload-inj :
    (writer other : ℕ) (sql query : List ℕ) (root root' : Option ℕ)
    → writer < 256 ^ 32
    → other < 256 ^ 32
    → length sql < 256 ^ 4
    → length query < 256 ^ 4
    → IsId root
    → IsId root'
    → build_signed_payload writer sql root ≡ build_signed_payload other query root'
    → (writer ≡ other) × (sql ≡ query) × (root ≡ root')
unfolding build_signed_payload
build_signed_payload-inj writer other sql query root root' w o s q r r' e =
    let start = word-inj 4 32 32 _ _ (omega arith) (omega arith) e in
    let ids = word-inj 32 writer other _ _ w o (start.1) in
    let whole : length sql % 2 ^ 32 ≡ length sql = omega (arith, s) in
    let whole' : length query % 2 ^ 32 ≡ length query = omega (arith, q) in
    let sizes =
      word-inj 4 (length sql % 2 ^ 32) (length query % 2 ^ 32) _ _ (rw whole s) (rw whole' q)
        (ids.1) in
    let same : length sql ≡ length query = sym whole ∙ (sizes.0 ∙ whole') in
    let texts = append-inj sql query _ _ same (sizes.1) in
    (ids.0, texts.0, root_bytes-inj root root' r r' (texts.1))
