-- ===== src/Auth/Jwks.antt =====
-- auth/jwks.py: `JWKSCache`. The endpoint is a parameter, whose answers depend on the reading of the
-- clock before the call; the logs are left out. `get_keys_locked` is what runs under the lock.
use lehen.Prelude.{ℕ, ◌+◌, Option, none, some, List, ltb, if◌then◌else◌}
use lehen.Prelude.Effects.{ok, jwks_fetch, gets, pure, raise, raise_if, modify, ◌>>=◌, ◌>>◌}
use lehen.Arcade.{Arcade}
use lehen.Hub.{Jwk, JwksCache, Hub, Host, monotonic}

-- The endpoint: none where the call, `raise_for_status` or `json` raises, and some none where the
-- body is no object with keys.
abbrev pub JwksEndpoint : Type 0
JwksEndpoint = ℕ → Option (Option (List Jwk))

-- The times in microseconds.
pub record JwksTimes : Type 0 where
  pub ttl : ℕ
  pub negative_ttl : ℕ

-- self._keys is not None and now - self._fetched_at < self._ttl
abbrev pub fresh_keys : JwksTimes → ℕ → JwksCache → Option (List Jwk)
fresh_keys times now cache = elim cache.keys [
  | none ↦ none
  | some keys ↦ if ltb now (cache.fetched_at + times.ttl) then some keys else none
]

module _ (arcade : Arcade) (host : Host) (times : JwksTimes) (endpoint : JwksEndpoint) where
  -- `return self._keys`, or what comes after
  abbrev pub serve : Option (List Jwk) → Hub arcade (List Jwk) → Hub arcade (List Jwk)
  serve (some keys) otherwise = pure keys
  serve none otherwise = otherwise

  abbrev pub fail_until : ℕ → Hub arcade (List Jwk)
  fail_until until =
      modify (λ w. record w { jwks = record w.jwks { negative_until = until } }) >> raise jwks_fetch

  abbrev pub store_keys : ℕ → Option (Option (List Jwk)) → Hub arcade (List Jwk)
  store_keys now none = fail_until (now + times.negative_ttl)
  store_keys now (some none) = fail_until (now + times.negative_ttl)
  store_keys now (some (some keys)) = do
    modify (λ w. record w { jwks = record w.jwks { keys = some keys; fetched_at = now } })
    pure keys

  unfoldable pub get_keys_locked : Hub arcade (List Jwk)
  get_keys_locked = do
    now ← monotonic arcade host
    cache ← gets (λ w. w.jwks)
    n ← gets (λ w. w.readings)
    serve (fresh_keys times now cache) (store_keys now (endpoint n))

  unfoldable pub get_keys : Hub arcade (List Jwk)
  unfolding get_keys_locked
  get_keys = do
    now ← monotonic arcade host
    cache ← gets (λ w. w.jwks)
    serve (fresh_keys times now cache)
        (raise_if (ltb now cache.negative_until) jwks_fetch >> get_keys_locked)

  -- `except JWKSFetchError`
  unfoldable pub warm : Hub arcade Unit
  unfolding get_keys
  warm w = let (r, w') = get_keys w in (ok tt, w')

unfoldable pub invalidate : (arcade : Arcade) → Hub arcade Unit
invalidate arcade =
    modify (λ w. record w { jwks = record { keys = none; fetched_at = 0; negative_until = 0 } })
