-- ===== src/Prelude/Sorted.antt =====
-- `sorted(set(xs))`: the order and the members of what it returns.
use Prim.Native.String.{String}
use mathlib.Core.Path.{◌≡◌, refl, ap, ◌∙◌}
use mathlib.Core.Logic.{inl, inr}
use mathlib.Core.Bool.{true, false, ◌||◌}
use mathlib.Core.List.{List, [], ◌∷◌}
use native.Mathlib.Omega.{arith}
use text.Mathlib.TextEquality.{eq_iff}
use lehen.Prelude.Tests.{◌==◌, Bool-cases}
use lehen.Prelude.Lists.{any}
use lehen.Prelude.Order.{text_leb, text_leb-total, insert_text, sorted_set}

-- The text stands strictly before the head of the list.
abbrev pub IsBefore : String → List String → Type 0
IsBefore s [] = Unit
IsBefore s (t ∷ ts) = ((s == t) ≡ false) × (text_leb s t ≡ true)

abbrev pub IsAscending : List String → Type 0
IsAscending [] = Unit
IsAscending (s ∷ ts) = IsBefore s ts × IsAscending ts

differ_sym : (s t : String) → (s == t) ≡ false → (t == s) ≡ false
differ_sym s t h = ground (arith, eq_iff s t, eq_iff t s)

IsBefore-insert_text :
    (s t : String) (ts : List String)
    → IsBefore t ts
    → (s == t) ≡ false
    → text_leb s t ≡ false
    → IsBefore t (insert_text s ts)
unfolding insert_text
IsBefore-insert_text s t [] h ne gt = (differ_sym s t ne, text_leb-total s t gt)
IsBefore-insert_text s t (u ∷ us) h ne gt = elim (Bool-cases (s == u)) [
  | inl same ↦ rw same h
  | inr other ↦ elim (Bool-cases (text_leb s u)) [
    | inl le ↦ rw (other, le) (differ_sym s t ne, text_leb-total s t gt)
    | inr more ↦ rw (other, more) h
  ]
]

IsAscending-insert_text :
    (s : String) (ts : List String) → IsAscending ts → IsAscending (insert_text s ts)
unfolding insert_text
IsAscending-insert_text s [] h = (tt, tt)
IsAscending-insert_text s (t ∷ ts) h = elim (Bool-cases (s == t)) [
  | inl same ↦ rw same h
  | inr other ↦ elim (Bool-cases (text_leb s t)) [
    | inl le ↦ rw (other, le) ((other, le), h)
    | inr more ↦
        rw (other, more)
          (IsBefore-insert_text s t ts h.0 other more, IsAscending-insert_text s ts h.1)
  ]
]

pub sorted_set-IsAscending : (xs : List String) → IsAscending (sorted_set xs)
unfolding sorted_set
sorted_set-IsAscending [] = tt
sorted_set-IsAscending (x ∷ xs) =
    IsAscending-insert_text x (sorted_set xs) (sorted_set-IsAscending xs)

insert_text-IsBefore : (s : String) (ts : List String) → IsBefore s ts → insert_text s ts ≡ s ∷ ts
unfolding insert_text
insert_text-IsBefore s [] h = refl
insert_text-IsBefore s (t ∷ ts) h = rw (h.0, h.1) refl

pub sorted_set_fixed : (xs : List String) → IsAscending xs → sorted_set xs ≡ xs
unfolding sorted_set
sorted_set_fixed [] h = refl
sorted_set_fixed (x ∷ xs) h =
    ap (insert_text x) (sorted_set_fixed xs h.1) ∙ insert_text-IsBefore x xs h.0

any-insert_text :
    (i s : String) (ts : List String)
    → any (λ x. x == i) (insert_text s ts) ≡ ((s == i) || any (λ x. x == i) ts)
unfolding insert_text
any-insert_text i s [] = refl
any-insert_text i s (t ∷ ts) =
    ground (arith, eq_iff s t, eq_iff s i, eq_iff t i, any-insert_text i s ts)

pub any-sorted_set :
    (i : String) (xs : List String) → any (λ x. x == i) (sorted_set xs) ≡ any (λ x. x == i) xs
unfolding sorted_set
any-sorted_set i [] = refl
any-sorted_set i (x ∷ xs) =
    any-insert_text i x (sorted_set xs) ∙ ap (λ b. (x == i) || b) (any-sorted_set i xs)
