-- ===== src/Types/Identity.antt =====
-- Checking signatures: crates/craftec-types/src/identity.rs. Of the crate `ed25519_dalek`,
-- `parse_key` is `VerifyingKey::from_bytes` and `check` is `VerifyingKey::verify`; the log is left
-- out.
use craftec.Prelude.{ℕ, List, Option, none, some, Bool, false}

unfoldable pub verify :
    {Key Sig : Type 0} → (ℕ → Option Key) → (Key → List ℕ → Sig → Bool) → List ℕ → Sig → ℕ → Bool
verify parse_key check msg sig node_id = elim (parse_key node_id) [
  | none ↦ false
  | some key ↦ check key msg sig
]
