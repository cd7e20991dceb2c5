-- ===== src/Prelude/Lists.antt =====
-- Lists under Boolean tests, counted by native numbers.
use Prim.Native.Nat.{ℕ, suc, ◌+◌}
use mathlib.Core.Path.{◌≡◌, refl}
use mathlib.Core.Bool.{Bool, false, ◌||◌}
use mathlib.Core.List.{List, [], ◌∷◌, map}
use native.Mathlib.Omega.{arith}
use lehen.Prelude.Tests.{if◌then◌else◌}

module _ {ℓ} {A : Type ℓ} where
  abbrev pub length : List A → ℕ
  length [] = 0
  length (x ∷ xs) = suc (length xs)

  -- `[x for x in xs if p(x)]`
  abbrev pub filter : (A → Bool) → List A → List A
  filter p [] = []
  filter p (x ∷ xs) = if p x then x ∷ filter p xs else filter p xs

  -- `any(p(x) for x in xs)`
  abbrev pub any : (A → Bool) → List A → Bool
  any p [] = false
  any p (x ∷ xs) = p x || any p xs

  -- How many elements pass the test.
  abbrev pub count_if : (A → Bool) → List A → ℕ
  count_if p [] = 0
  count_if p (x ∷ xs) = (if p x then 1 else 0) + count_if p xs

  abbrev pub All {κ} : (A → Type κ) → List A → Type κ
  All P [] = Unit
  All P (x ∷ xs) = P x × All P xs

  -- `ys` is `xs` with `r` put in at some place.
  pub data Inserted (r : A) : List A → List A → Type ℓ where
    here : {xs : List A} → Inserted r xs (r ∷ xs)
    later : {x : A} {xs ys : List A} → Inserted r xs ys → Inserted r (x ∷ xs) (x ∷ ys)

module _ {ℓ} {A : Type ℓ} where
  pub length-filter : (p : A → Bool) (xs : List A) → length (filter p xs) ≡ count_if p xs
  length-filter p [] = refl
  length-filter p (x ∷ xs) = ground (arith, length-filter p xs)

  pub count_if-inserted :
      (p : A → Bool) (r : A) {xs ys : List A}
      → Inserted r xs ys
      → count_if p ys ≡ (if p r then 1 else 0) + count_if p xs
  count_if-inserted p r here = refl
  count_if-inserted p r (later h) = omega (arith, count_if-inserted p r h)

  pub All-inserted {κ} :
      (P : A → Type κ) (r : A) {xs ys : List A} → Inserted r xs ys → P r → All P xs → All P ys
  All-inserted P r here h a = (h, a)
  All-inserted P r (later i) h a = (a.0, All-inserted P r i h a.1)

  pub All-map {κ} :
      (P Q : A → Type κ) (g : A → A) (xs : List A)
      → ((x : A) → P x → Q (g x))
      → All P xs
      → All Q (map g xs)
  All-map P Q g [] h a = tt
  All-map P Q g (x ∷ xs) h a = (h x a.0, All-map P Q g xs h a.1)
