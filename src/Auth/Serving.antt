-- ===== src/Auth/Serving.antt =====
-- Which keys `JWKSCache.get_keys` gives, and which of them `decode_and_verify` takes.
use mathlib.Core.List.{Memᴰ}
use lehen.Prelude.{
  ℕ, ◌+◌, ◌≤◌, String, true, Option, none, some, List, [], ◌∷◌, ◌≡◌, refl, subst, ◌∙◌, ◌⊎◌, arith,
  ltb, inl, inr, Bool-cases, Option-cases,
}
use lehen.Prelude.Effects.{invalid_token, or_raise, Result-cases, After, After-bind, After-map}
use lehen.Arcade.{Arcade}
use lehen.Hub.{Jwk, JwksCache, World, Host}
use lehen.Auth.Jwks.{
  JwksEndpoint, JwksTimes, fresh_keys, store_keys, get_keys_locked, get_keys, invalidate,
}
use lehen.Auth.Jwt.{Jose, has_kid, key_by_kid, keys_or_invalid, found_or_retried, key_for}

fresh_keys-some :
    (times : JwksTimes) (now : ℕ) (cache : JwksCache) {keys : List Jwk}
    → fresh_keys times now cache ≡ some keys
    → (cache.keys ≡ some keys) × (ltb now (cache.fetched_at + times.ttl) ≡ true)
fresh_keys-some times now cache e = elim (Option-cases cache.keys) [
  | inl missing ↦ let h = rw missing at e in absurd (cc h)
  | inr (ks, there) ↦ elim (Bool-cases (ltb now (cache.fetched_at + times.ttl))) [
    | inl young ↦ (there ∙ rw (there, young) at e, young)
    | inr old ↦ let h = rw (there, old) at e in absurd (cc h)
  ]
]

-- The key by an id is one of the keys, with that id.
key_by_kid-Mem :
    (kid : String) (keys : List Jwk) (key : Jwk)
    → key_by_kid kid keys ≡ some key
    → Memᴰ key keys × (has_kid kid key ≡ true)
unfolding key_by_kid
key_by_kid-Mem kid [] key e = absurd (cc e)
key_by_kid-Mem kid (k ∷ ks) key e = elim (Bool-cases (has_kid kid k)) [
  | inl found ↦
      let h : some k ≡ some key = rw found at e in
      let same : k ≡ key = cc h in
      subst (λ x. Memᴰ x (k ∷ ks) × (has_kid kid x ≡ true)) same (Memᴰ.head refl, found)
  | inr other ↦
      let (there, has) = key_by_kid-Mem kid ks key (rw other at e) in (Memᴰ.tail there, has)
]

module _ (arcade : Arcade) (host : Host) (jose : Jose) (times : JwksTimes)
    (endpoint : JwksEndpoint) where
  -- Keys that are in the cache and not older than their time to live at a reading of the clock
  -- between two states, or that the endpoint answers between them.
  abbrev pub IsServed : World arcade → World arcade → List Jwk → Type 0
  IsServed w t keys =
      ((n : ℕ) × (w.readings ≤ n)
        × (n ≤ t.readings)
        × (w.jwks.keys ≡ some keys)
        × (ltb (host.monotonic n) (w.jwks.fetched_at + times.ttl) ≡ true))
      ⊎ ((n : ℕ) × (w.readings ≤ n) × (n ≤ t.readings) × (endpoint n ≡ some (some keys)))

  abbrev IsServing : World arcade → List Jwk → World arcade → Type 0
  IsServing w keys t = IsServed w t keys × (w.readings ≤ t.readings)

  store_keys-After :
      (at : ℕ) (answer : Option (Option (List Jwk))) (u : World arcade)
      → After
          (λ keys t. (answer ≡ some (some keys)) × (t.readings ≡ u.readings))
          (store_keys arcade host times endpoint at answer u)
  store_keys-After at none u = tt
  store_keys-After at (some none) u = tt
  store_keys-After at (some (some keys)) u = (refl, refl)

  get_keys_locked-IsServing :
      (u : World arcade) → After (IsServing u) (get_keys_locked arcade host times endpoint u)
  unfolding get_keys_locked
  get_keys_locked-IsServing u =
      let at = host.monotonic u.readings in
      elim (Option-cases (fresh_keys times at u.jwks)) [
        | inr (keys, young) ↦
            let (there, soon) = fresh_keys-some times at u.jwks young in
            rw young (inl (u.readings, omega arith, omega arith, there, soon), omega arith)
        | inl stale ↦
            let n = u.readings + 1 in
            let u' : World arcade = record u { readings = n } in
            rw stale (
              After-map (λ keys t. (endpoint n ≡ some (some keys)) × (t.readings ≡ n)) (IsServing u)
                (store_keys arcade host times endpoint at (endpoint n) u')
                (λ keys (e, same).
                  (inr (n, omega arith, omega (arith, same), e), omega (arith, same)))
                (store_keys-After at (endpoint n) u'))
      ]

  pub get_keys-IsServing :
      (w : World arcade) → After (IsServing w) (get_keys arcade host times endpoint w)
  unfolding get_keys
  get_keys-IsServing w =
      let at = host.monotonic w.readings in
      let w' : World arcade = record w { readings = w.readings + 1 } in
      elim (Option-cases (fresh_keys times at w.jwks)) [
        | inr (keys, young) ↦
            let (there, soon) = fresh_keys-some times at w.jwks young in
            rw young (inl (w.readings, omega arith, omega arith, there, soon), omega arith)
        | inl stale ↦ elim (Bool-cases (ltb at w.jwks.negative_until)) [
          | inl closed ↦ rw (stale, closed) tt
          | inr opened ↦
              rw (stale, opened)
                (After-map (IsServing w') (IsServing w)
                  (get_keys_locked arcade host times endpoint w')
                  (λ keys (served, later). (
                    elim served [
                      | inl (n, after, before, there, soon) ↦
                          inl (n, omega (arith, after), before, there, soon)
                      | inr (n, after, before, e) ↦ inr (n, omega (arith, after), before, e)
                    ],
                    omega (arith, later),
                  ))
                  (get_keys_locked-IsServing w'))
        ]
      ]

  keys_or_invalid-IsServing :
      (w : World arcade) → After (IsServing w) (keys_or_invalid arcade host jose times endpoint w)
  unfolding get_keys
  keys_or_invalid-IsServing w =
      let x = get_keys arcade host times endpoint w in
      elim (Result-cases x.0) [
        | inl (keys, e) ↦ rw e (subst (λ r. After (IsServing w) (r, x.1)) e (get_keys-IsServing w))
        | inr (failure, e) ↦ rw e tt
      ]

  pub IsServed-later :
      (w t v : World arcade) (keys : List Jwk)
      → t.readings ≤ v.readings
      → IsServed w t keys
      → IsServed w v keys
  IsServed-later w t v keys later (inl (n, after, before, there, soon)) =
      inl (n, after, omega (arith, before, later), there, soon)
  IsServed-later w t v keys later (inr (n, after, before, e)) =
      inr (n, after, omega (arith, before, later), e)

  -- A key with the id, out of keys that were served.
  abbrev pub IsKey : World arcade → String → Jwk → World arcade → Type 0
  IsKey w kid key t =
      (keys : List Jwk) × IsServed w t keys
      × Memᴰ key keys
      × (has_kid kid key ≡ true)
      × (w.readings ≤ t.readings)

  -- After an invalidation keys come from the endpoint.
  retried-IsKey :
      (kid : String) (w t : World arcade)
      → w.readings ≤ t.readings
      → After (IsKey w kid) (found_or_retried arcade host jose times endpoint kid none t)
  unfolding invalidate
  retried-IsKey kid w t later =
      let t' : World arcade = record t {
        jwks = record { keys = none; fetched_at = 0; negative_until = 0 };
      } in
      After-bind (IsServing t') (IsKey w kid) (keys_or_invalid arcade host jose times endpoint)
        (λ keys. or_raise (key_by_kid kid keys) invalid_token) t' (keys_or_invalid-IsServing t')
        (λ keys v (served, latest). elim (Option-cases (key_by_kid kid keys)) [
          | inl missing ↦ rw missing tt
          | inr (key, found) ↦
              let (there, has) = key_by_kid-Mem kid keys key found in
              elim served [
                | inl (n, after, before, kept, soon) ↦ absurd (cc kept)
                | inr (n, after, before, e) ↦ rw found (
                  keys,
                  inr (n, omega (arith, after, later), before, e),
                  there,
                  has,
                  omega (arith, later, latest),
                )
              ]
        ])

  pub key_for-IsKey :
      (kid : String) (w : World arcade)
      → After (IsKey w kid) (key_for arcade host jose times endpoint kid w)
  unfolding key_for
  key_for-IsKey kid w =
      After-bind (IsServing w) (IsKey w kid) (keys_or_invalid arcade host jose times endpoint)
        (λ keys. found_or_retried arcade host jose times endpoint kid (key_by_kid kid keys)) w
        (keys_or_invalid-IsServing w)
        (λ keys t (served, later). elim (Option-cases (key_by_kid kid keys)) [
          | inl missing ↦ rw missing (retried-IsKey kid w t later)
          | inr (key, found) ↦
              let (there, has) = key_by_kid-Mem kid keys key found in
              rw found (keys, served, there, has, later)
        ])
