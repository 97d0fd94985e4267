-- ===== src/Prelude/Digits.antt =====
-- Operations on binary digits, at variables: the native ones count digits down from the first number,
-- and any larger count does as well.
use Prim.Native.Nat.{ℕ, zero, suc, ◌+◌, ◌-◌, ◌*◌, ◌/◌, ◌%◌, ◌≤◌, digits}
use mathlib.Core.Path.{◌≡◌, refl, ap, sym, ◌∙◌}
use native.Mathlib.Omega.{arith}

module _ (rest : ℕ → ℕ) (f : ℕ → ℕ → ℕ) where
  one_more : (count a b : ℕ) → a ≤ count → digits rest f (suc count) a b ≡ digits rest f count a b
  one_more zero zero b h = refl
  one_more (suc count) zero b h = refl
  one_more zero (suc a) b h = absurd (omega arith)
  one_more (suc count) (suc a) b h =
      ap (λ t. t * 2 + f (suc a % 2) (b % 2)) (one_more count (suc a / 2) (b / 2) (omega arith))

  settled :
      (extra count a b : ℕ) → count ≡ a + extra → digits rest f count a b ≡ digits rest f a a b
  settled zero count a b e =
      let same : count ≡ a = omega arith in ap (λ t. digits rest f t a b) same
  settled (suc extra) count a b e =
      let more : count ≡ suc (a + extra) = omega arith in
      ap (λ t. digits rest f t a b) more
      ∙ one_more (a + extra) a b (omega arith)
      ∙ settled extra (a + extra) a b refl

  module _ (op : ℕ → ℕ → ℕ) (law : (a b : ℕ) → op a b ≡ digits rest f a a b)
      (first : (b : ℕ) → rest b ≡ rest (b / 2) * 2 + f 0 (b % 2)) where
    -- The law of the lowest digit.
    pub lowest_digit : (a b : ℕ) → op a b ≡ op (a / 2) (b / 2) * 2 + f (a % 2) (b % 2)
    lowest_digit zero b = law 0 b ∙ first b ∙ ap (λ t. t * 2 + f 0 (b % 2)) (sym (law 0 (b / 2)))
    lowest_digit (suc a) b =
        law (suc a) b
        ∙ ap (λ t. t * 2 + f (suc a % 2) (b % 2))
            (settled (a - suc a / 2) a (suc a / 2) (b / 2) (omega arith)
              ∙ sym (law (suc a / 2) (b / 2)))

    module _ (g : ℕ → ℕ) (start : rest 0 ≡ g 0)
        (halves : (a : ℕ) → g (a / 2) * 2 + f (a % 2) 0 ≡ g a) where
      against_zero : (bound a : ℕ) → a ≤ bound → op a 0 ≡ g a
      against_zero bound zero h = law 0 0 ∙ start
      against_zero zero (suc a) h = absurd (omega arith)
      against_zero (suc bound) (suc a) h =
          lowest_digit (suc a) 0
          ∙ ap (λ t. t * 2 + f (suc a % 2) 0) (against_zero bound (suc a / 2) (omega arith))
          ∙ halves (suc a)

      pub zero_right : (a : ℕ) → op a 0 ≡ g a
      zero_right a = against_zero a a (omega arith)
