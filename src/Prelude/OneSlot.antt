-- ===== src/Prelude/OneSlot.antt =====
-- A cache of one entry, which is one that keeps the promises of an LRU cache.
use mathlib.Core.Bool.{Bool, true}
use mathlib.Core.Logic.{◌≢◌, inl, inr}
use mathlib.Core.Option.{Option, none, some}
use mathlib.Core.Path.{◌≡◌, refl, sym, ◌∙◌}
use craftec.Prelude.Tests.{if◌then◌else◌, Bool-cases}
use craftec.Prelude.Lru.{Lru, IsLru}

module _ {K V : Type 0} (same : K → K → Bool) where
  abbrev pub peek_slot : K → Option (K × V) → Option V
  peek_slot k none = none
  peek_slot k (some (j, v)) = if same j k then some v else none

  abbrev pub pop_slot : K → Option (K × V) → Option (K × V)
  pop_slot k none = none
  pop_slot k (some (j, v)) = if same j k then none else some (j, v)

  abbrev pub one_slot : Lru K V
  one_slot = record {
    Cache = Option (K × V);
    create = λ capacity. none;
    get = λ k c. (c, peek_slot k c);
    peek = peek_slot;
    put = λ k v c. some (k, v);
    pop = pop_slot;
    len = λ c. elim c [ none ↦ 0 | some e ↦ 1 ];
  }

  module _ (sound : (j k : K) → same j k ≡ true → j ≡ k)
      (reflects : (k : K) → same k k ≡ true) where
    pop_self : (k : K) (c : Option (K × V)) → peek_slot k (pop_slot k c) ≡ none
    pop_self k none = refl
    pop_self k (some (j, v)) = elim (Bool-cases (same j k)) [
      | inl h ↦ rw h refl
      | inr h ↦ rw (h, h) refl
    ]

    pop_other : (j k : K) (c : Option (K × V)) → k ≢ j → peek_slot j (pop_slot k c) ≡ peek_slot j c
    pop_other j k none n = refl
    pop_other j k (some (i, v)) n = elim (Bool-cases (same i k)) [
      | inl h ↦ elim (Bool-cases (same i j)) [
        | inl e ↦ absurd (n (sym (sound i k h) ∙ sound i j e))
        | inr e ↦ rw (h, e) refl
      ]
      | inr h ↦ rw h refl
    ]

    pub one_slot-IsLru : IsLru one_slot
    one_slot-IsLru = record {
      peek-create = λ k capacity. refl;
      get_lem = λ k c. refl;
      peek-get = λ j k c. refl;
      peek-put_self = λ k v w c e. (let q = (rw (reflects k) at e) in cc);
      peek-put_other = λ j k v w c n e. elim (Bool-cases (same k j)) [
        | inl h ↦ absurd (n (sound k j h))
        | inr h ↦ let q = rw h at e in absurd (cc)
      ];
      peek-pop_self = pop_self;
      peek-pop_other = pop_other;
    }
