-- ===== src/Net/Swim/Marks.antt =====
-- What `mark_alive`, `mark_suspect` and `mark_dead` do to the table: crates/craftec-net/src/swim.rs.
use craftec.Prelude.{
  ℕ, ◌≤◌, ◌≡◌, refl, arith, inl, inr, Option, none, some, ◌==◌, ltb, if◌then◌else◌, ◌≢◌, Bool-cases,
}
use craftec.Prelude.Assoc.{lookup, insert, Distinct, lookup-insert, insert-Distinct}
use craftec.Net.Swim.{
  Swim, MemberState, dead, alive_entry, suspect_entry, dead_entry, mark_alive, mark_suspect,
  mark_dead,
}

-- No member stands twice, and the local node is none of them.
pub record IsValid (s : Swim) : Type 0 where
  pub distinct : Distinct s.members
  pub no_local : lookup s.local_id s.members ≡ none

-- `t` is `s` with the entry of `id` replaced by `v`, unless `id` is the local node.
abbrev pub Sets : ℕ → MemberState → Swim → Swim → Type 0
Sets id v s t =
    (t.members ≡ (if id == s.local_id then s.members else insert id v s.members))
    × (t.local_id ≡ s.local_id)

pub mark_alive-Sets :
    (id inc : ℕ) (s : Swim)
    → Sets id (alive_entry inc (lookup id s.members)) s (mark_alive id inc s)
unfolding mark_alive
mark_alive-Sets id inc s = ground arith

pub mark_suspect-Sets :
    (now id inc : ℕ) (s : Swim)
    → Sets id (suspect_entry now inc (lookup id s.members)) s (mark_suspect now id inc s)
unfolding mark_suspect
mark_suspect-Sets now id inc s = ground arith

pub mark_dead-Sets :
    (id inc : ℕ) (s : Swim) → Sets id (dead_entry inc (lookup id s.members)) s (mark_dead id inc s)
unfolding mark_dead
mark_dead-Sets id inc s = ground arith

pub Sets-IsValid : (id : ℕ) (v : MemberState) (s t : Swim) → Sets id v s t → IsValid s → IsValid t
Sets-IsValid id v s t e ok = elim (Bool-cases (id == s.local_id)) [
  | inl h ↦
      let q : t.members ≡ s.members = rw (e.0, h) refl in
      record { distinct = rw q ok.distinct; no_local = rw (e.1, q) ok.no_local }
  | inr h ↦
      let q : t.members ≡ insert id v s.members = rw (e.0, h) refl in
      record {
        distinct = rw q (insert-Distinct id v s.members ok.distinct);
        no_local = rw (e.1, q, lookup-insert id s.local_id v s.members, h) ok.no_local;
      }
]

pub Sets-lookup :
    (id : ℕ) (v : MemberState) (s t : Swim) (j : ℕ)
    → Sets id v s t
    → j ≢ s.local_id
    → lookup j t.members ≡ (if id == j then some v else lookup j s.members)
Sets-lookup id v s t j e n = elim (Bool-cases (id == s.local_id)) [
  | inl h ↦ let q : t.members ≡ s.members = rw (e.0, h) refl in rw q (ground arith)
  | inr h ↦
      let q : t.members ≡ insert id v s.members = rw (e.0, h) refl in
      rw (q, lookup-insert id j v s.members) refl
]

-- The entry is dead, with an incarnation of at least `inc`.
abbrev pub IsDeadSince : ℕ → Option MemberState → Type 0
IsDeadSince inc o = (i : ℕ) × (o ≡ some (dead i)) × (inc ≤ i)

module _ (inc : ℕ) (o : Option MemberState) (d : IsDeadSince inc o) where
  pub alive_entry-dead : (i : ℕ) → i ≤ inc → IsDeadSince inc (some (alive_entry i o))
  unfolding alive_entry
  alive_entry-dead i h = let q = d.1 in rw q (d.0, ground arith, d.2)

  pub suspect_entry-dead : (now i : ℕ) → IsDeadSince inc (some (suspect_entry now i o))
  unfolding suspect_entry
  suspect_entry-dead now i = let q = d.1 in rw q (d.0, refl, d.2)

  pub dead_entry-dead : (i : ℕ) → IsDeadSince inc (some (dead_entry i o))
  unfolding dead_entry
  dead_entry-dead i =
      let q = d.1 in
      rw q (elim (Bool-cases (ltb d.0 i)) [
        | inl h ↦ (i, ground arith, ground arith)
        | inr h ↦ (d.0, ground arith, d.2)
      ])

-- A mark of `id` leaves the entry of `j` dead if its new state does, where `id` is `j`.
pub Sets-dead :
    (id : ℕ) (v : MemberState) (s t : Swim) (j inc : ℕ)
    → Sets id v s t
    → j ≢ s.local_id
    → IsDeadSince inc (lookup j s.members)
    → (id ≡ j → IsDeadSince inc (some v))
    → IsDeadSince inc (lookup j t.members)
Sets-dead id v s t j inc e n d new =
    rw (Sets-lookup id v s t j e n)
      (elim (Bool-cases (id == j)) [ inl h ↦ rw h (new (ground arith)) | inr h ↦ rw h d ])
