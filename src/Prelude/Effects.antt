-- ===== src/Prelude/Effects.antt =====
-- Methods that change the Hub's state and may raise: what was written before a raise stays
-- written, so the state comes back beside the exception too.
use mathlib.Core.Bool.{Bool, true, false}
use mathlib.Core.Path.{◌≡◌, ap, refl, sym, subst, ◌∙◌}
use mathlib.Core.Logic.{◌⊎◌, inl, inr}
use mathlib.Core.Bool.{false≢true}
use mathlib.Core.Option.{Option, none, some}
use lehen.Prelude.Tests.{if◌then◌else◌}

-- The exception classes of the Hub, without their messages, and three of Python's: ValueError of
-- the settings, RuntimeError of the identity provider, and one that no handler of the Hub catches.
pub data HubError : Type 0 where
  connection_already_exists connection_not_found integration_disabled : HubError
  integration_not_authorized_for_role redirect_uri_not_allowed oauth_flow_config : HubError
  oauth_state oauth_exchange source_adapter source_adapter_not_implemented : HubError
  integration_instance_not_found integration_instance_conflict integration_config : HubError
  unknown_integration_type local_admin_auth invalid_token jwks_fetch local_token : HubError
  unauthorized forbidden settings_error identity_provider_error uncaught : HubError
  llm_config llm_config_not_found unknown_llm_provider : HubError
  invalid_key unsupported_key_version invalid_tag bad_base64 bad_utf8 : HubError

pub data Result {ℓ} (A : Type ℓ) : Type ℓ where
  ok : A → Result A
  err : HubError → Result A

abbrev pub Exec : Type 0 → Type 0 → Type 0
Exec S A = S → Result A × S

module _ {S A : Type 0} where
  abbrev pub pure : A → Exec S A
  pure a s = (ok a, s)

  abbrev pub raise : HubError → Exec S A
  raise e s = (err e, s)

  abbrev pub lift : Result A → Exec S A
  lift r s = (r, s)

  abbrev pub gets : (S → A) → Exec S A
  gets f s = (ok (f s), s)

abbrev pub modify : {S : Type 0} → (S → S) → Exec S Unit
modify f s = (ok tt, f s)

-- `if c: raise e`
abbrev pub raise_if : {S : Type 0} → Bool → HubError → Exec S Unit
raise_if c e s = (if c then err e else ok tt, s)

abbrev pub or_raise : {S A : Type 0} → Option A → HubError → Exec S A
or_raise none e = raise e
or_raise (some a) e = pure a

infixl 5 ◌>>=◌ ◌>>◌
abbrev pub ◌>>=◌ : {S A B : Type 0} → Exec S A → (A → Exec S B) → Exec S B
◌>>=◌ m f s = let (r, s') = m s in elim r [ ok a ↦ f a s' | err e ↦ (err e, s') ]

abbrev pub ◌>>◌ : {S A B : Type 0} → Exec S A → Exec S B → Exec S B
m >> k = m >>= λ _. k

abbrev pub is_ok {ℓ} : {A : Type ℓ} → Result A → Bool
is_ok (ok a) = true
is_ok (err e) = false

-- A call that returned, and what comes after it.
pub bind_ok :
    {S A B : Type 0} (m : Exec S A) (f : A → Exec S B) (s : S) {a : A}
    → (m s).0 ≡ ok a
    → (m >>= f) s ≡ f a (m s).1
bind_ok m f s h = ap (λ r. elim r [ ok a ↦ f a (m s).1 | err e ↦ (err e, (m s).1) ]) h

pub bind_eq :
    {S A B : Type 0} (m : Exec S A) (f : A → Exec S B) (s : S) {a : A} {s' : S}
    → m s ≡ (ok a, s')
    → (m >>= f) s ≡ f a s'
bind_eq m f s h = ap (λ x. elim x.0 [ ok a ↦ f a x.1 | err e ↦ (err e, x.1) ]) h

-- And one that raised.
pub bind_err :
    {S A B : Type 0} (m : Exec S A) (f : A → Exec S B) (s : S) {e : HubError}
    → (m s).0 ≡ err e
    → (m >>= f) s ≡ (err e, (m s).1)
bind_err m f s h = ap (λ r. elim r [ ok a ↦ f a (m s).1 | err e ↦ (err e, (m s).1) ]) h

pub Result-cases {ℓ} :
    {A : Type ℓ} (r : Result A) → ((a : A) × (r ≡ ok a)) ⊎ ((e : HubError) × (r ≡ err e))
Result-cases (ok a) = inl (a, refl)
Result-cases (err e) = inr (e, refl)

-- What holds after a call that returned, if it does after each value that came before it.
pub bind_post {ℓ} :
    {S A B : Type 0} (Q : S → Type ℓ) (m : Exec S A) (f : A → Exec S B) (s : S)
    → ((a : A) → (m s).0 ≡ ok a → is_ok (f a (m s).1).0 ≡ true → Q (f a (m s).1).1)
    → is_ok ((m >>= f) s).0 ≡ true
    → Q ((m >>= f) s).1
bind_post Q m f s step h = elim (Result-cases (m s).0) [
  | inl (a, e) ↦
      let ran = bind_ok m f s e in
      subst (λ x. Q x.1) (sym ran) (step a e (subst (λ x. is_ok x.0 ≡ true) ran h))
  | inr (x, e) ↦ absurd (false≢true (subst (λ y. is_ok y.0 ≡ true) (bind_err m f s e) h))
]

-- What a sequence that returned consists of.
pub bind_inv :
    {S A B : Type 0} (m : Exec S A) (f : A → Exec S B) (s : S)
    → is_ok ((m >>= f) s).0 ≡ true
    → (a : A) × ((m s).0 ≡ ok a) × ((m >>= f) s ≡ f a (m s).1) × (is_ok (f a (m s).1).0 ≡ true)
bind_inv m f s h = elim (Result-cases (m s).0) [
  | inl (a, e) ↦ let ran = bind_ok m f s e in (a, e, ran, subst (λ x. is_ok x.0 ≡ true) ran h)
  | inr (x, e) ↦ absurd (false≢true (subst (λ y. is_ok y.0 ≡ true) (bind_err m f s e) h))
]

-- What holds of the value of a call that returned.
abbrev pub OnOk {ℓ κ} : {A : Type ℓ} → (A → Type κ) → Result A → Type κ
OnOk P (ok a) = P a
OnOk P (err e) = Unit

pub OnOk-bind {ℓ κ} :
    {S A B : Type 0} (Q : A → Type ℓ) (P : B → Type κ) (m : Exec S A) (f : A → Exec S B) (s : S)
    → OnOk Q (m s).0
    → ((a : A) (t : S) → Q a → OnOk P (f a t).0)
    → OnOk P ((m >>= f) s).0
OnOk-bind Q P m f s q step = elim (Result-cases (m s).0) [
  | inl (a, e) ↦
      subst (λ x. OnOk P x.0) (sym (bind_ok m f s e)) (step a (m s).1 (subst (OnOk Q) e q))
  | inr (x, e) ↦ subst (λ y. OnOk P y.0) (sym (bind_err m f s e)) tt
]

-- Where nothing is asked of the first call.
pub OnOk-after {κ} :
    {S A B : Type 0} (P : B → Type κ) (m : Exec S A) (f : A → Exec S B) (s : S)
    → ((a : A) (t : S) → OnOk P (f a t).0)
    → OnOk P ((m >>= f) s).0
OnOk-after P m f s step = elim (Result-cases (m s).0) [
  | inl (a, e) ↦ subst (λ x. OnOk P x.0) (sym (bind_ok m f s e)) (step a (m s).1)
  | inr (x, e) ↦ subst (λ y. OnOk P y.0) (sym (bind_err m f s e)) tt
]

pub OnOk-map {ℓ κ ι} :
    {A : Type ℓ} (P : A → Type κ) (Q : A → Type ι)
    → ((a : A) → P a → Q a)
    → (r : Result A) → OnOk P r
    → OnOk Q r
OnOk-map P Q g (ok a) h = g a h
OnOk-map P Q g (err e) h = tt

-- Where it is known what the first call returns.
pub OnOk-then {κ} :
    {S A B : Type 0} (P : B → Type κ) (m : Exec S A) (f : A → Exec S B) (s : S) {a : A}
    → (m s).0 ≡ ok a
    → OnOk P (f a (m s).1).0
    → OnOk P ((m >>= f) s).0
OnOk-then P m f s e h = subst (λ x. OnOk P x.0) (sym (bind_ok m f s e)) h

-- `if c: raise e`, and what comes after it.
pub OnOk-raise_if {κ} :
    {S B : Type 0} (P : B → Type κ) (c : Bool) (e : HubError) (k : Exec S B) (s : S)
    → (c ≡ false → OnOk P (k s).0)
    → OnOk P ((raise_if c e >> k) s).0
OnOk-raise_if P true e k s h = tt
OnOk-raise_if P false e k s h = h refl

-- A part of the state that a call leaves alone, whether it returns or raises.
abbrev pub Keeps {ℓ} : {S A : Type 0} {X : Type ℓ} → (S → X) → Exec S A → Type ℓ
Keeps g m = (s : _) → g (m s).1 ≡ g s

pub Keeps-bind {ℓ} :
    {S A B : Type 0} {X : Type ℓ} (g : S → X) (m : Exec S A) (f : A → Exec S B)
    → Keeps g m
    → ((a : A) → Keeps g (f a))
    → Keeps g (m >>= f)
Keeps-bind g m f first after s = elim (Result-cases (m s).0) [
  | inl (a, e) ↦ ap (λ x. g x.1) (bind_ok m f s e) ∙ after a (m s).1 ∙ first s
  | inr (x, e) ↦ ap (λ y. g y.1) (bind_err m f s e) ∙ first s
]

pub Keeps-raise_if {ℓ} :
    {S B : Type 0} {X : Type ℓ} (g : S → X) (c : Bool) (e : HubError) (k : Exec S B)
    → Keeps g k
    → Keeps g (raise_if c e >> k)
Keeps-raise_if g true e k keeps s = refl
Keeps-raise_if g false e k keeps s = keeps s

pub Keeps-or_raise {ℓ} :
    {S A : Type 0} {X : Type ℓ} (g : S → X) (o : Option A) (e : HubError) → Keeps g (or_raise o e)
Keeps-or_raise g none e = λ s. refl
Keeps-or_raise g (some a) e = λ s. refl

-- What a call preserves, whether it returns or raises.
abbrev pub Preserves {ℓ} : {S A : Type 0} → (S → Type ℓ) → Exec S A → Type ℓ
Preserves P m = (s : _) → P s → P (m s).1

pub Preserves-bind {ℓ} :
    {S A B : Type 0} (P : S → Type ℓ) (m : Exec S A) (f : A → Exec S B)
    → Preserves P m
    → ((a : A) → Preserves P (f a))
    → Preserves P (m >>= f)
Preserves-bind P m f first after s p = elim (Result-cases (m s).0) [
  | inl (a, e) ↦ subst (λ x. P x.1) (sym (bind_ok m f s e)) (after a (m s).1 (first s p))
  | inr (x, e) ↦ subst (λ y. P y.1) (sym (bind_err m f s e)) (first s p)
]

-- A property of a part that the call leaves alone.
pub Keeps-Preserves {ℓ κ} :
    {S A : Type 0} {X : Type ℓ} (g : S → X) (P : X → Type κ) (m : Exec S A)
    → Keeps g m
    → Preserves (λ s. P (g s)) m
Keeps-Preserves g P m keeps s p = subst P (sym (keeps s)) p

-- Where what comes after needs the value and the state that the first call left.
pub OnOk-given {κ} :
    {S A B : Type 0} (P : B → Type κ) (m : Exec S A) (f : A → Exec S B) (s : S)
    → ((a : A) → (m s).0 ≡ ok a → OnOk P (f a (m s).1).0)
    → OnOk P ((m >>= f) s).0
OnOk-given P m f s step = elim (Result-cases (m s).0) [
  | inl (a, e) ↦ OnOk-then P m f s e (step a e)
  | inr (x, e) ↦ subst (λ y. OnOk P y.0) (sym (bind_err m f s e)) tt
]

-- What holds of the value and the state after a call that returned.
abbrev pub After {ℓ} : {S A : Type 0} → (A → S → Type ℓ) → Result A × S → Type ℓ
After P x = OnOk (λ a. P a x.1) x.0

pub After-bind {ℓ κ} :
    {S A B : Type 0} (Q : A → S → Type ℓ) (P : B → S → Type κ) (m : Exec S A) (f : A → Exec S B)
    (s : S)
    → After Q (m s)
    → ((a : A) (t : S) → Q a t → After P (f a t))
    → After P ((m >>= f) s)
After-bind Q P m f s q step = elim (Result-cases (m s).0) [
  | inl (a, e) ↦
      subst (After P) (sym (bind_ok m f s e)) (step a (m s).1 (subst (OnOk (λ b. Q b (m s).1)) e q))
  | inr (x, e) ↦ subst (After P) (sym (bind_err m f s e)) tt
]

pub After-raise_if {κ} :
    {S B : Type 0} (P : B → S → Type κ) (c : Bool) (e : HubError) (k : Exec S B) (s : S)
    → (c ≡ false → After P (k s))
    → After P ((raise_if c e >> k) s)
After-raise_if P true e k s h = tt
After-raise_if P false e k s h = h refl

pub After-or_raise {κ} :
    {S A B : Type 0} (P : B → S → Type κ) (o : Option A) (e : HubError) (f : A → Exec S B) (s : S)
    → ((a : A) → o ≡ some a → After P (f a s))
    → After P ((or_raise o e >>= f) s)
After-or_raise P none e f s h = tt
After-or_raise P (some a) e f s h = h a refl

pub After-map {ℓ κ} :
    {S A : Type 0} (P : A → S → Type ℓ) (Q : A → S → Type κ) (x : Result A × S)
    → ((a : A) → P a x.1 → Q a x.1)
    → After P x
    → After Q x
After-map P Q x g h = OnOk-map (λ a. P a x.1) (λ a. Q a x.1) g x.0 h
