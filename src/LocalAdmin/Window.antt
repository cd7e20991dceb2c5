-- ===== src/LocalAdmin/Window.antt =====
-- `_SlidingWindowCounter` of local_admin_service.py, and a counter over all past hits.
use Prim.Native.Nat.{◌*◌}
use lehen.Prelude.{
  ℕ, suc, ◌+◌, ◌≤◌, String, Bool, none, some, List, [], ◌∷◌, ◌++◌, ◌≡◌, refl, ap, ap₂, arith, ◌&&◌,
  filter, count_if, length, length-filter, leb, ◌==◌, eq_iff, if◌then◌else◌, inl, inr, Bool-cases,
}
use lehen.Prelude.Dict.{Dict, lookup, insert, lookup-insert}
use lehen.Hub.{second}

-- self._events[key], of a `defaultdict(list)`
abbrev pub bucket_of : String → Dict (List ℕ) → List ℕ
bucket_of key events = elim (lookup key events) [ none ↦ [] | some b ↦ b ]

-- e >= ts - 60.0
abbrev pub is_recent : ℕ → ℕ → Bool
is_recent ts e = leb ts (e + 60 * second)

-- `hit_and_check`
unfoldable pub hit_and_check : ℕ → String → ℕ → Dict (List ℕ) → Bool × Dict (List ℕ)
hit_and_check limit key ts events =
    let bucket = filter (is_recent ts) (bucket_of key events) ++ ts ∷ [] in
    (leb (length bucket) limit, insert key bucket events)

abbrev pub Hit : Type 0
Hit = String × ℕ

-- Hits one after the other, with the answers.
unfoldable pub answers : ℕ → List Hit → Dict (List ℕ) → List Bool
answers limit [] events = []
answers limit ((key, ts) ∷ hits) events =
    let (answer, events') = hit_and_check limit key ts events in answer ∷ answers limit hits events'

-- The specification keeps every hit: one is allowed if, with it, its key has at most `limit` hits
-- that are not older than a minute.
abbrev pub is_counted : String → ℕ → Hit → Bool
is_counted key ts (k, t) = k == key && is_recent ts t

unfoldable pub allowed : ℕ → List Hit → List Hit → List Bool
allowed limit past [] = []
allowed limit past ((key, ts) ∷ hits) =
    leb (suc (count_if (is_counted key ts) past)) limit ∷ allowed limit ((key, ts) ∷ past) hits

-- The clock does not go back.
abbrev pub InOrder : ℕ → List Hit → Type 0
InOrder last [] = Unit
InOrder last ((key, ts) ∷ hits) = (last ≤ ts) × InOrder ts hits

-- From `last` on, the buckets count what the whole past counts.
abbrev Agrees : ℕ → Dict (List ℕ) → List Hit → Type 0
Agrees last events past =
    (key : String) (t : ℕ)
    → last ≤ t
    → count_if (is_recent t) (bucket_of key events) ≡ count_if (is_counted key t) past

count_if-append :
    (p : ℕ → Bool) (xs : List ℕ) (x : ℕ)
    → count_if p (xs ++ x ∷ []) ≡ (if p x then 1 else 0) + count_if p xs
count_if-append p [] x = refl
count_if-append p (y ∷ ys) x = omega (arith, count_if-append p ys x)

length-snoc : (xs : List ℕ) (x : ℕ) → length (xs ++ x ∷ []) ≡ suc (length xs)
length-snoc [] x = refl
length-snoc (y ∷ ys) x = ap suc (length-snoc ys x)

-- What is recent later was recent before.
count_if-filter_recent :
    (s t : ℕ) (xs : List ℕ)
    → s ≤ t
    → count_if (is_recent t) (filter (is_recent s) xs) ≡ count_if (is_recent t) xs
count_if-filter_recent s t [] h = refl
count_if-filter_recent s t (x ∷ xs) h = ground (arith, count_if-filter_recent s t xs h)

bucket_of-insert :
    (key k : String) (b : List ℕ) (events : Dict (List ℕ))
    → bucket_of k (insert key b events) ≡ (if key == k then b else bucket_of k events)
bucket_of-insert key k b events = ground (arith, lookup-insert key k b events)

module _ (limit : ℕ) (key : String) (ts : ℕ) (events : Dict (List ℕ)) (past : List Hit) where
  after_hit : Dict (List ℕ)
  after_hit = (hit_and_check limit key ts events).1

  hit-Agrees :
      (last : ℕ) → last ≤ ts → Agrees last events past → Agrees ts after_hit ((key, ts) ∷ past)
  unfolding after_hit hit_and_check
  hit-Agrees last le a k t h = rw (bucket_of-insert key k _ events) (elim (Bool-cases (key == k)) [
    | inl same ↦
        let p : key ≡ k = (eq_iff key k).0 same in
        rw
          (
            same,
            count_if-append (is_recent t),
            count_if-filter_recent ts t (bucket_of key events) h,
            a key t (omega arith),
          )
          (ap (λ j. (if is_recent t ts then 1 else 0) + count_if (is_counted j t) past) p)
    | inr other ↦ rw (other, a k t (omega arith)) (omega arith)
  ])

  hit-answer :
      (last : ℕ)
      → last ≤ ts
      → Agrees last events past
      → (hit_and_check limit key ts events).0 ≡ leb (suc (count_if (is_counted key ts) past)) limit
  unfolding hit_and_check
  hit-answer last le a = rw (length-snoc, length-filter (is_recent ts), a key ts le) refl

answers-eq-allowed :
    (limit last : ℕ) (past hits : List Hit) (events : Dict (List ℕ))
    → InOrder last hits
    → Agrees last events past
    → answers limit hits events ≡ allowed limit past hits
unfolding answers allowed after_hit
answers-eq-allowed limit last past [] events o a = refl
answers-eq-allowed limit last past ((key, ts) ∷ hits) events o a =
    ap₂ ◌∷◌ (hit-answer limit key ts events past last o.0 a) (
      answers-eq-allowed limit ts ((key, ts) ∷ past) hits _ o.1
        (hit-Agrees limit key ts events past last o.0 a))

-- On a clock that does not go back, the limiter, which forgets what is older than a minute,
-- answers every hit as one that counts over all past hits.
pub window_counts :
    (limit : ℕ) (hits : List Hit) → InOrder 0 hits → answers limit hits [] ≡ allowed limit [] hits
window_counts limit hits o =
    answers-eq-allowed limit 0 [] hits [] o (λ key t h. unfold lookup in refl)
