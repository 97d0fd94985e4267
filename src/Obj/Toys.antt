-- ===== src/Obj/Toys.antt =====
-- Small stand-ins for the parameters of the store in examples: a hash that is the length, with one
-- byte string in use for each, a cache of one entry, and a filter that rules nothing out.
use craftec.Prelude.{
  ℕ, ◌^◌, ◌<◌, ◌≡◌, refl, ap, sym, ◌∙◌, arith, List, none, Bool, true, false, ◌&&◌, ◌==◌, eq_refl,
  length,
}
use craftec.Prelude.Lru.{Lru, IsLru}
use craftec.Prelude.OneSlot.{one_slot, one_slot-IsLru}
use craftec.Obj.Store.{Bloom, Io}
use craftec.Obj.Store.Contents.{IsBloom}

abbrev pub toy_hash : List ℕ → ℕ
toy_hash bytes = length bytes

abbrev pub InUse : (ℕ → List ℕ) → List ℕ → Type 0
InUse canonical bytes = (bytes ≡ canonical (length bytes)) × (length bytes < 256 ^ 32)

pub InUse-collision_free :
    (canonical : ℕ → List ℕ) (a b : List ℕ)
    → InUse canonical a
    → InUse canonical b
    → toy_hash a ≡ toy_hash b
    → a ≡ b
InUse-collision_free canonical a b u v e = u.0 ∙ (ap canonical e ∙ sym (v.0))

abbrev pub object_cache : Lru ℕ (List ℕ)
object_cache = one_slot (λ j k. j == k)

pub object_cache-IsLru : IsLru object_cache
object_cache-IsLru = one_slot-IsLru (λ j k. j == k) (λ j k e. ground arith) eq_refl

abbrev pub same_page : ℕ × ℕ → ℕ × ℕ → Bool
same_page j k = (j.0 == k.0) && (j.1 == k.1)

same_page_sound : (j k : ℕ × ℕ) → same_page j k ≡ true → j ≡ k
same_page_sound (a, b) (c, d) e =
    let p : a ≡ c = ground arith in let q : b ≡ d = ground arith in rw (p, q) refl

same_page_self : (k : ℕ × ℕ) → same_page k k ≡ true
same_page_self (a, b) = rw (eq_refl a, eq_refl b) refl

abbrev pub page_lru : Lru (ℕ × ℕ) (List ℕ)
page_lru = one_slot same_page

pub page_lru-IsLru : IsLru page_lru
page_lru-IsLru = one_slot-IsLru same_page same_page_sound same_page_self

abbrev pub full_filter : Bloom
full_filter = record { Filter = Unit {0}; create = tt; set = λ k f. tt; check = λ k f. true }

pub full_filter-IsBloom : IsBloom full_filter
full_filter-IsBloom = record { set_self = λ k f. refl; set_keeps = λ j k f e. refl }

abbrev pub no_fault : Io
no_fault = record {
  metadata_fails = false;
  write_error = none;
  rename_error = none;
  read_error = none;
  remove_error = none;
}
