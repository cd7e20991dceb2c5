-- ===== src/Auth/Caching.antt =====
-- How long `JWKSCache` leaves the endpoint alone.
use lehen.Prelude.{
  ℕ, ◌+◌, ◌≤◌, true, false, Option, none, some, List, ◌≡◌, refl, sym, subst, ap, ◌∙◌, arith, ltb,
  inl, inr, Bool-cases, Option-cases,
}
use lehen.Prelude.Effects.{Result, ok, err, jwks_fetch}
use lehen.Arcade.{Arcade}
use lehen.Hub.{Jwk, JwksCache, World, Host}
use lehen.Auth.Jwks.{JwksEndpoint, JwksTimes, fresh_keys, store_keys, get_keys_locked, get_keys}

-- How long a call that asked the endpoint keeps the next ones from it.
abbrev pub quiet_time : JwksTimes → Result (List Jwk) → ℕ
quiet_time times (ok keys) = times.ttl
quiet_time times (err e) = times.negative_ttl

-- Keys that are too old stay too old.
fresh_keys-later :
    (times : JwksTimes) (now later : ℕ) (cache : JwksCache)
    → now ≤ later
    → fresh_keys times now cache ≡ none
    → fresh_keys times later cache ≡ none
fresh_keys-later times now later cache after e = elim (Option-cases cache.keys) [
  | inl missing ↦ rw missing refl
  | inr (ks, there) ↦ elim (Bool-cases (ltb now (cache.fetched_at + times.ttl))) [
    | inl young ↦ let h = rw (there, young) at e in absurd (cc h)
    | inr old ↦
        let still : ltb later (cache.fetched_at + times.ttl) ≡ false = ground (arith, after, old) in
        rw (there, still) refl
  ]
]

module _ (arcade : Arcade) (host : Host) (times : JwksTimes) where
  -- The clock does not go back.
  abbrev pub ForwardLaw : Type 0
  ForwardLaw = (m n : ℕ) → m ≤ n → host.monotonic m ≤ host.monotonic n

  get_keys-young :
      (endpoint : JwksEndpoint) (v : World arcade) (keys : List Jwk)
      → fresh_keys times (host.monotonic v.readings) v.jwks ≡ some keys
      → get_keys arcade host times endpoint v ≡ (ok keys, record v { readings = v.readings + 1 })
  unfolding get_keys
  get_keys-young endpoint v keys young = rw young refl

  get_keys-closed :
      (endpoint : JwksEndpoint) (v : World arcade)
      → fresh_keys times (host.monotonic v.readings) v.jwks ≡ none
      → ltb (host.monotonic v.readings) v.jwks.negative_until ≡ true
      → get_keys arcade host times endpoint v
        ≡ (err jwks_fetch, record v { readings = v.readings + 1 })
  unfolding get_keys
  get_keys-closed endpoint v stale closed = rw (stale, closed) refl

  -- A call that finds neither young keys nor an open negative window asks the endpoint.
  get_keys-asks :
      ForwardLaw
      → (endpoint : JwksEndpoint) (w : World arcade)
      → fresh_keys times (host.monotonic w.readings) w.jwks ≡ none
      → ltb (host.monotonic w.readings) w.jwks.negative_until ≡ false
      → get_keys arcade host times endpoint w
        ≡ store_keys arcade host times endpoint
            (host.monotonic (w.readings + 1))
            (endpoint (w.readings + 1 + 1))
            (record w { readings = w.readings + 1 + 1 })
  unfolding get_keys get_keys_locked
  get_keys-asks forward endpoint w stale opened =
      let still =
        fresh_keys-later times (host.monotonic w.readings) (host.monotonic (w.readings + 1)) w.jwks
          (forward w.readings (w.readings + 1) (omega arith)) stale in
      rw (stale, opened, still) refl

  fail_until-quiet :
      (other : JwksEndpoint) (at : ℕ) (u v : World arcade)
      → fresh_keys times at u.jwks ≡ none
      → at ≤ host.monotonic v.readings
      → v.jwks ≡ record u.jwks { negative_until = at + times.negative_ttl }
      → ltb (host.monotonic v.readings) (at + times.negative_ttl) ≡ true
      → get_keys arcade host times other v
        ≡ (err jwks_fetch, record v { readings = v.readings + 1 })
  fail_until-quiet other at u v stale after same soon =
      get_keys-closed other v
        (subst (λ c. fresh_keys times (host.monotonic v.readings) c ≡ none) (sym same)
          (fresh_keys-later times at (host.monotonic v.readings) u.jwks after stale))
        (subst (λ c. ltb (host.monotonic v.readings) c.negative_until ≡ true) (sym same) soon)

  store_keys-quiet :
      (endpoint other : JwksEndpoint) (at : ℕ) (answer : Option (Option (List Jwk)))
      (u v : World arcade)
      → fresh_keys times at u.jwks ≡ none
      → at ≤ host.monotonic v.readings
      → v.jwks ≡ (store_keys arcade host times endpoint at answer u).1.jwks
      → ltb
          (host.monotonic v.readings)
          (at + quiet_time times (store_keys arcade host times endpoint at answer u).0)
        ≡ true
      → get_keys arcade host times other v ≡ (
        (store_keys arcade host times endpoint at answer u).0,
        record v { readings = v.readings + 1 },
      )
  store_keys-quiet endpoint other at none u v stale after same soon =
      fail_until-quiet other at u v stale after same soon
  store_keys-quiet endpoint other at (some none) u v stale after same soon =
      fail_until-quiet other at u v stale after same soon
  store_keys-quiet endpoint other at (some (some keys)) u v stale after same soon =
      get_keys-young other v keys (
        subst (λ c. fresh_keys times (host.monotonic v.readings) c ≡ some keys) (sym same)
          (rw soon refl))

  -- On a clock that does not go back, take a call that finds neither young keys nor an open negative
  -- window, and so asks the endpoint. As long as the cache is not written again, a later call within
  -- the time to live after keys, or within the negative time to live after a failure, gives the same
  -- result, whatever the endpoint would answer by then, and does no more than read the clock. The
  -- times count from the reading under the lock.
  pub get_keys_quiet :
      ForwardLaw
      → (endpoint other : JwksEndpoint) (w v : World arcade)
      → fresh_keys times (host.monotonic w.readings) w.jwks ≡ none
      → ltb (host.monotonic w.readings) w.jwks.negative_until ≡ false
      → w.readings + 1 ≤ v.readings
      → v.jwks ≡ (get_keys arcade host times endpoint w).1.jwks
      → ltb (host.monotonic v.readings) (
          host.monotonic (w.readings + 1)
          + quiet_time times (get_keys arcade host times endpoint w).0)
        ≡ true
      → get_keys arcade host times other v
        ≡ ((get_keys arcade host times endpoint w).0, record v { readings = v.readings + 1 })
  get_keys_quiet forward endpoint other w v stale opened after same soon =
      let asks = get_keys-asks forward endpoint w stale opened in
      let at = host.monotonic (w.readings + 1) in
      let still =
        fresh_keys-later times (host.monotonic w.readings) at w.jwks
          (forward w.readings (w.readings + 1) (omega arith)) stale in
      store_keys-quiet endpoint other at (endpoint (w.readings + 1 + 1))
        (record w { readings = w.readings + 1 + 1 }) v still
        (forward (w.readings + 1) v.readings after) (same ∙ ap (λ x. x.1.jwks) asks)
        (subst (λ r. ltb (host.monotonic v.readings) (at + quiet_time times r) ≡ true)
          (ap (λ x. x.0) asks) soon)
      ∙ ap (λ r. (r, record v { readings = v.readings + 1 })) (sym (ap (λ x. x.0) asks))
