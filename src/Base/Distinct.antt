-- ===== src/Base/Distinct.antt =====
-- Lists without a repeated element, as the sets of keys that the program keeps in maps.
use Prim.Native.Nat.{◌+◌, ◌≤◌}
use native.Mathlib.Omega.{arith}
use mathlib.Core.Bool.{Bool, true, false, ◌||◌}
use mathlib.Core.List.{List, [], ◌∷◌}
use mathlib.Core.Logic.{◌⊎◌, inl, inr, ◌≢◌}
use mathlib.Core.Path.{◌≡◌, sym, ◌∙◌, subst}
use perfeng_control_plane.Base.Tests.{holds, length, if◌then◌else◌}

-- An element stands in a list.
pub data In {ℓ} {A : Type ℓ} (a : A) : List A → Type ℓ where
  first : {x : A} {xs : List A} → a ≡ x → In a (x ∷ xs)
  later : {x : A} {xs : List A} → In a xs → In a (x ∷ xs)

true-false : true ≡ false → ⊥
true-false h = absurd (ground arith)

module _ {ℓ} {A : Type ℓ} (dec : Discrete A) where
  -- `_, exists := set[a]`
  unfoldable pub has : A → List A → Bool
  has a [] = false
  has a (x ∷ xs) = holds (dec x a) || has a xs

  -- `delete(set, a)`
  unfoldable pub without : A → List A → List A
  without a [] = []
  without a (x ∷ xs) = let rest = without a xs in if holds (dec x a) then rest else x ∷ rest

  unfoldable pub NoRepeat : List A → Type 0
  NoRepeat [] = Unit {0}
  NoRepeat (x ∷ xs) = (has x xs ≡ false) × NoRepeat xs

  pub has-cons : (a x : A) (xs : List A) → has a (x ∷ xs) ≡ true → (x ≡ a) ⊎ (has a xs ≡ true)
  unfolding has
  has-cons a x xs h = elim (dec x a) [ yes e ↦ inl e | no n ↦ inr (ground (arith, h)) ]

  pub has-head : (x : A) (xs : List A) → has x (x ∷ xs) ≡ true
  unfolding has
  has-head x xs = ground arith

  pub has-tail : (a x : A) (xs : List A) → has a xs ≡ true → has a (x ∷ xs) ≡ true
  unfolding has
  has-tail a x xs h = ground (arith, h)

  pub has-without : (a b : A) (xs : List A) → has b xs ≡ true → b ≢ a → has b (without a xs) ≡ true
  unfolding has without
  has-without a b [] h n = h
  has-without a b (x ∷ xs) h n =
      let rest = has-without a b xs in
      elim (dec x a) [ yes e ↦ ground arith | no other ↦ ground arith ]

  without-length_le : (a : A) (xs : List A) → length (without a xs) ≤ length xs
  unfolding without
  without-length_le a [] = omega arith
  without-length_le a (x ∷ xs) = ground (arith, without-length_le a xs)

  without-length : (a : A) (xs : List A) → has a xs ≡ true → length (without a xs) + 1 ≤ length xs
  unfolding has without
  without-length a [] h = absurd (ground arith)
  without-length a (x ∷ xs) h = ground (arith, without-length_le a xs, without-length a xs)

  -- Distinct elements that all lie in a list which is no longer are all of the list.
  pub NoRepeat-covers :
      (xs ys : List A)
      → NoRepeat xs
      → ((a : A) → has a xs ≡ true → has a ys ≡ true)
      → length ys ≤ length xs
      → (b : A) → has b ys ≡ true
      → has b xs ≡ true
  unfolding NoRepeat
  NoRepeat-covers [] [] d inside short b h = h
  NoRepeat-covers [] (y ∷ ys) d inside short b h = absurd (omega arith)
  NoRepeat-covers (x ∷ xs) ys (fresh, d) inside short b h =
      let smaller = without-length x ys (inside x (has-head x xs)) in
      elim (dec x b) [
        | yes e ↦ subst (λ a. has a (x ∷ xs) ≡ true) e (has-head x xs)
        | no other ↦ has-tail b x xs (
            NoRepeat-covers xs (without x ys) d
              (λ a k.
                has-without x a ys (inside a (has-tail a x xs k))
                  (λ e. true-false (sym (subst (λ c. has c xs ≡ true) e k) ∙ fresh)))
              (omega arith) b (has-without x b ys h (λ e. other (sym e))))
      ]
