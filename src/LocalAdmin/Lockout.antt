-- ===== src/LocalAdmin/Lockout.antt =====
-- When a login of local_admin_service.py succeeds, what a wrong password does, and the lock.
use Prim.Native.Nat.{◌*◌}
use Prim.Native.String.{◌++◌ as text_append}
use lehen.Prelude.{
  ℕ, ◌+◌, ◌<◌, String, Bool, subst, true, false, Option, none, some, List, [], ◌∷◌, ◌≡◌, ◌↔◌, refl,
  sym, ap, ◌∙◌, arith, map, filter, leb, ◌==◌, eq_iff, if◌then◌else◌, inl, inr, Bool-cases,
  Option-cases,
}
use mathlib.Core.Bool.{false≢true}
use lehen.Prelude.Dict.{Dict}
use lehen.Prelude.Effects.{Result, err, is_ok, local_admin_auth}
use lehen.Arcade.{Arcade, select}
use lehen.Arcade.Counts.{select-update_same}
use lehen.Hub.{LocalAdmin, World, Host, second}
use lehen.Connections.Rows.{first}
use lehen.LocalAdmin.Window.{hit_and_check}
use lehen.LocalAdmin.Service.{
  Settings, LoginResult, verify_password, is_locked, fetch_row, fail_attempt, login,
}

-- What a query finds passes its test.
first-filter :
    {R : Type 0} (p : R → Bool) (xs : List R) {r : R} → first (filter p xs) ≡ some r → p r ≡ true
first-filter p [] h = cc
first-filter p (x ∷ xs) {r} h = elim (Bool-cases (p x)) [
  | inl found ↦
      let e : some x ≡ some r = rw found at h in
      let same : x ≡ r = cc in subst (λ y. p y ≡ true) same found
  | inr skipped ↦ first-filter p xs (rw skipped at h)
]

pub first-map :
    {R : Type 0} (f : R → R) (xs : List R) {r : R}
    → first xs ≡ some r
    → first (map f xs) ≡ some (f r)
first-map f [] h = cc
first-map f (x ∷ xs) h = cc

-- The answers of the limiter, and the time at which the account is looked at.
module _ {arcade : Arcade} (host : Host) (settings : Settings) where
  abbrev pub ip_hit : String → World arcade → Bool × Dict (List ℕ)
  ip_hit client_ip w =
      hit_and_check settings.rate_limit_per_minute (text_append "ip:" client_ip)
        (host.monotonic w.readings) w.windows

  abbrev pub user_hit : String → String → World arcade → Bool × Dict (List ℕ)
  user_hit client_ip username w =
      hit_and_check settings.rate_limit_per_minute (text_append "user:" username)
        (host.monotonic (w.readings + 1)) (ip_hit client_ip w).1

abbrev pub login_time : {arcade : Arcade} → Host → World arcade → ℕ
login_time host w = host.clock (w.readings + 1 + 1)

module _ (arcade : Arcade) (host : Host) (settings : Settings)
    (username password client_ip user_agent : String) (request_id : Option String) where
  abbrev pub attempt : World arcade → Result LoginResult × World arcade
  attempt = login arcade host settings username password client_ip user_agent request_id

  -- What a login asks for.
  abbrev pub IsAdmitted : World arcade → Type 0
  IsAdmitted w =
      ((ip_hit host settings client_ip w).0 ≡ true)
      × ((user_hit host settings client_ip username w).0 ≡ true)
      × (row : LocalAdmin) × (fetch_row arcade username w ≡ some row)
      × (row.enabled ≡ true)
      × (is_locked row (login_time host w) ≡ false)
      × (verify_password host password row.password_hash ≡ true)

  IsAdmitted-is_ok : (w : World arcade) → IsAdmitted w → is_ok (attempt w).0 ≡ true
  unfolding login
  IsAdmitted-is_ok w (ip, user, row, found, on, free, good) =
      rw (ip, user, found, on, free, good) refl

  is_ok-IsAdmitted : (w : World arcade) → is_ok (attempt w).0 ≡ true → IsAdmitted w
  unfolding login
  is_ok-IsAdmitted w h = elim (Bool-cases (ip_hit host settings client_ip w).0) [
    | inr over ↦ absurd (false≢true (rw over at h))
    | inl ip ↦ elim (Bool-cases (user_hit host settings client_ip username w).0) [
      | inr over ↦ absurd (false≢true (rw (ip, over) at h))
      | inl user ↦ elim (Option-cases (fetch_row arcade username w)) [
        | inl missing ↦ absurd (false≢true (rw (ip, user, missing) at h))
        | inr (row, found) ↦
            let k = rw (ip, user, found) at h in
            (ip, user, row, found, ground arith, ground arith, ground arith)
      ]
    ]
  ]

  -- A login returns a token exactly when the limiter lets the address and the name pass, the
  -- account exists and is enabled, it is not locked at that time, and the password verifies.
  pub login_iff :
      (w : World arcade)
      → (is_ok (attempt w).0 ≡ true) ↔ (
          ((ip_hit host settings client_ip w).0 ≡ true)
          × ((user_hit host settings client_ip username w).0 ≡ true)
          × (row : LocalAdmin) × (fetch_row arcade username w ≡ some row)
          × (row.enabled ≡ true)
          × (is_locked row (login_time host w) ≡ false)
          × (verify_password host password row.password_hash ≡ true))
  login_iff w = (is_ok-IsAdmitted w, IsAdmitted-is_ok w)

  -- A locked account is refused, whatever the password.
  locked_refused :
      (w : World arcade) (row : LocalAdmin)
      → fetch_row arcade username w ≡ some row
      → is_locked row (login_time host w) ≡ true
      → is_ok (attempt w).0 ≡ false
  locked_refused w row found shut = elim (Bool-cases (is_ok (attempt w).0)) [
    | inl through ↦
        let (_, _, r, found', _, free, _) = is_ok-IsAdmitted w through in
        let same : row ≡ r = cc in
        absurd (false≢true (sym free ∙ ap (λ a. is_locked a (login_time host w)) (sym same) ∙ shut))
    | inr refused ↦ refused
  ]

module _ (arcade : Arcade) (host : Host) (settings : Settings)
    (username password client_ip user_agent : String) (request_id : Option String)
    (w : World arcade) (row : LocalAdmin) (ip : (ip_hit host settings client_ip w).0 ≡ true)
    (user : (user_hit host settings client_ip username w).0 ≡ true)
    (found : fetch_row arcade username w ≡ some row) (on : row.enabled ≡ true)
    (free : is_locked row (login_time host w) ≡ false)
    (bad : verify_password host password row.password_hash ≡ false) where
  abbrev pub after_first : Result LoginResult × World arcade
  after_first = login arcade host settings username password client_ip user_agent request_id w

  own_name : (row.username == username) ≡ true
  unfolding fetch_row
  own_name = first-filter (λ a. a.username == username) (arcade.rows w.local_admins) found

  wrong_answer : after_first.0 ≡ err local_admin_auth
  unfolding login
  wrong_answer = rw (ip, user, found, on, free, bad) refl

  wrong_table :
      after_first.1.local_admins
      ≡ arcade.update
          (λ a. a.username == row.username)
          (fail_attempt arcade host settings (row.failed_attempts + 1) (login_time host w))
          w.local_admins
  unfolding login
  wrong_table = rw (ip, user, found, on, free, bad) refl

  -- A wrong password for an account that is enabled and not locked, on an attempt that the
  -- limiter lets pass, raises, adds one to the failed attempts of the account, and locks it
  -- for the lockout duration exactly if these reach the threshold.
  pub wrong_password :
      (after_first.0 ≡ err local_admin_auth)
      × (fetch_row arcade username after_first.1
          ≡ some (record row {
            failed_attempts = row.failed_attempts + 1;
            locked_until =
                if leb settings.failed_attempts_threshold (row.failed_attempts + 1)
                then some (login_time host w + settings.lockout_duration_seconds * second)
                else none;
          }))
  unfolding fetch_row fail_attempt
  wrong_password =
      let p = λ (a : LocalAdmin). a.username == username in
      let f = fail_attempt arcade host settings (row.failed_attempts + 1) (login_time host w) in
      let same : row.username ≡ username = (eq_iff row.username username).0 own_name in
      (
        wrong_answer,
        ap (λ t. first (select arcade p t)) wrong_table
            ∙ ap
                (λ n.
                  first (select arcade p (arcade.update (λ a. a.username == n) f w.local_admins)))
                same
            ∙ ap first (select-update_same arcade p f w.local_admins (λ c h. h))
            ∙ first-map f (select arcade p w.local_admins) found,
      )

  -- Once a wrong password, on an attempt that gets to the password, brings the failed
  -- attempts to the threshold, no login with this name returns a token before the lockout has
  -- passed, with whatever password and from wherever, as long as the accounts stay as they
  -- were left.
  pub lockout :
      (password' client_ip' user_agent' : String) (request_id' : Option String) (w' : World arcade)
      → leb settings.failed_attempts_threshold (row.failed_attempts + 1) ≡ true
      → w'.local_admins ≡ after_first.1.local_admins
      → login_time host w' < login_time host w + settings.lockout_duration_seconds * second
      → is_ok
          (login arcade host settings username password' client_ip' user_agent' request_id' w').0
        ≡ false
  unfolding fetch_row fail_attempt
  lockout password' client_ip' user_agent' request_id' w' reached same soon =
      locked_refused arcade host settings username password' client_ip' user_agent' request_id' w'
        (fail_attempt arcade host settings (row.failed_attempts + 1) (login_time host w) row)
        (ap (λ t. first (select arcade (λ a. a.username == username) t)) same ∙ wrong_password.1)
        (ground arith)
