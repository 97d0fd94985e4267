-- ===== src/Vfs/PageIndex.antt =====
-- The map from pages to content ids: crates/craftec-vfs/src/page_index.rs and error.rs. The hash
-- map is an association list, and a content id the number that its 32 bytes spell, the least one
-- first. The locks of the code are left out: each operation is one step.
pub mod Serialize
use craftec.Prelude.{
  ℕ, zero, suc, ◌+◌, ◌*◌, ◌%◌, ◌^◌, List, [], ◌∷◌, ◌++◌, Option, none, some, ltb, if◌then◌else◌,
  length, take, drop,
}
use craftec.Prelude.Result.{Result, ok, err}
use craftec.Obj.Store.{ObjError}
use craftec.Prelude.Assoc.{lookup, insert}
use craftec.Prelude.Assoc.{remove as remove_key}
use craftec.Prelude.Sort.{sort_by_key}
use craftec.Prelude.Bytes.{to_le_bytes, from_le_bytes}

-- The texts of the errors, with the numbers in them.
pub data Message : Type 0 where
  too_short : Message
  truncated : ℕ → ℕ → Message
  missing_from_store : ℕ → Message
  from_store : ObjError → Message

pub data VfsError : Type 0 where
  page_not_found : ℕ → VfsError
  integrity_check_failed : ℕ → ℕ → ℕ → VfsError
  store_error : Message → VfsError
  serialization_error : Message → VfsError
  commit_conflict : VfsError
  invalid_page_size : ℕ → VfsError
  no_root_cid : VfsError
  io : List ℕ → VfsError

pub record PageIndex : Type 0 where
  pub entries : List (ℕ × ℕ)
  pub root_cid : Option ℕ

abbrev pub empty_index : PageIndex
empty_index = record { entries = []; root_cid = none }

abbrev pub get : PageIndex → ℕ → Option ℕ
get ix page_num = lookup page_num ix.entries

unfoldable pub set : ℕ → ℕ → PageIndex → PageIndex
set page_num cid ix = record ix { entries = insert page_num cid ix.entries }

unfoldable pub remove : ℕ → PageIndex → PageIndex
remove page_num ix = record ix { entries = remove_key page_num ix.entries }

unfoldable pub set_root : ℕ → PageIndex → PageIndex
set_root cid ix = record ix { root_cid = some cid }

-- The loop over the sorted pairs.
unfoldable pub pair_bytes : List (ℕ × ℕ) → List ℕ
pair_bytes [] = []
pair_bytes ((page_num, cid) ∷ pairs) =
    to_le_bytes 4 page_num ++ (to_le_bytes 32 cid ++ pair_bytes pairs)

unfoldable pub serialize_entries : List (ℕ × ℕ) → List ℕ
unfolding pair_bytes
serialize_entries entries =
    to_le_bytes 4 (length entries % 2 ^ 32) ++ pair_bytes (sort_by_key entries)

abbrev pub serialize : PageIndex → List ℕ
serialize ix = serialize_entries ix.entries

-- `data[from..from + width]`.
abbrev pub slice : ℕ → ℕ → List ℕ → List ℕ
slice from width bytes = take width (drop from bytes)

-- The loop over `i`, `count` more times.
unfoldable pub read_entries : ℕ → ℕ → List ℕ → List (ℕ × ℕ) → List (ℕ × ℕ)
read_entries zero i bytes entries = entries
read_entries (suc count) i bytes entries =
    let offset = 4 + i * 36 in
    let page_num = from_le_bytes (slice offset 4 bytes) in
    let cid = from_le_bytes (slice (offset + 4) 32 bytes) in
    read_entries count (i + 1) bytes (insert page_num cid entries)

unfoldable pub deserialize : List ℕ → Result PageIndex VfsError
unfolding read_entries
deserialize bytes =
    if ltb (length bytes) 4
    then err (serialization_error too_short)
    else let count = from_le_bytes (slice 0 4 bytes) in
      let expected_len = 4 + count * 36 in
      if ltb (length bytes) expected_len
      then err (serialization_error (truncated expected_len (length bytes)))
      else ok (record { entries = read_entries count 0 bytes []; root_cid = none })

unfoldable pub page_count : PageIndex → ℕ
page_count ix = length ix.entries

abbrev pub snapshot_entries : PageIndex → List (ℕ × ℕ)
snapshot_entries ix = ix.entries
