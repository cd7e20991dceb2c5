-- ===== src/Oauth/Expiry.antt =====
-- `decode_state` gives back what `encode_state` made, within the bounds of its age.
use Prim.Native.Nat.{◌/◌}
use Prim.Native.String.{count}
use lehen.Prelude.{
  ℕ, ◌+◌, String, true, false, some, ◌≡◌, refl, ap, ◌∙◌, ltb, ◌==◌, if◌then◌else◌, All, inl, inr,
  Bool-cases,
}
use lehen.Prelude.Dict.{Dict, lookup}
use lehen.Prelude.Effects.{ok, err, oauth_state}
use lehen.Arcade.{Arcade}
use lehen.Hub.{Bytes, Value, text, num, World, Host, second}
use lehen.Crypto.Envelope.{decrypt, key_len, CipherLaws, decrypt-encrypt, nonempty_envelope}
use lehen.Oauth.State.{
  OAuthFlowState, asdict, flow_of, text_field, int_field, and_then, parsed, opened_state,
  encode_state, decode_state, check_age,
}
use lehen.Hub.Values.{is_plain}
use lehen.Oauth.Storage.{JsonLaw, IntLaw}

asdict-plain : (flow : OAuthFlowState) → All (λ kv. is_plain kv.1 ≡ true) (asdict flow)
unfolding asdict
asdict-plain flow = (refl, (refl, (refl, (refl, (refl, (refl, tt))))))

text_field-lookup :
    (host : Host) (k : String) (doc : Dict Value) (s : String)
    → lookup k doc ≡ some (text s)
    → text_field host k doc ≡ some s
text_field-lookup host k doc s e = rw (text_field, e) refl

int_field-lookup :
    (host : Host) (k : String) (doc : Dict Value) (n : ℕ)
    → IntLaw host
    → lookup k doc ≡ some (num n)
    → int_field host k doc ≡ some n
int_field-lookup host k doc n int e = rw (int_field, e) (int n)

flow_of-asdict :
    (host : Host) (doc : Dict Value) (flow : OAuthFlowState)
    → IntLaw host
    → ((k : String) → lookup k doc ≡ lookup k (asdict flow))
    → flow_of host doc ≡ some flow
unfolding flow_of asdict lookup
flow_of-asdict host doc flow int same =
    let user_sub = text_field-lookup host "user_sub" doc flow.user_sub (same "user_sub") in
    let instance_id =
      text_field-lookup host "instance_id" doc flow.instance_id (same "instance_id") in
    let nonce = text_field-lookup host "nonce" doc flow.nonce (same "nonce") in
    let issued_at : int_field host "issued_at" doc ≡ some flow.issued_at =
      int_field-lookup host "issued_at" doc flow.issued_at int (same "issued_at") in
    let code_verifier =
      text_field-lookup host "code_verifier" doc flow.code_verifier (same "code_verifier") in
    let redirect_uri =
      text_field-lookup host "redirect_uri" doc flow.redirect_uri (same "redirect_uri") in
    rw (flow_of, and_then, user_sub, instance_id, nonce, issued_at, code_verifier, redirect_uri)
      refl

module _ (arcade : Arcade) (host : Host) where
  -- int(time.time()) in a state
  abbrev pub seconds : World arcade → ℕ
  seconds w = host.clock w.readings / second

  check_age-lem :
      (max_age : ℕ) (flow : OAuthFlowState) (v : World arcade)
      → (check_age arcade host max_age flow v).0 ≡ (
          if ltb (flow.issued_at + max_age) (seconds v)
          then err oauth_state
          else if ltb (seconds v + 60) flow.issued_at
          then err oauth_state
          else ok flow)
  check_age-lem max_age flow v = elim (Bool-cases (ltb (flow.issued_at + max_age) (seconds v))) [
    | inl old ↦ rw old refl
    | inr young ↦ elim (Bool-cases (ltb (seconds v + 60) flow.issued_at)) [
      | inl early ↦ rw (young, early) refl
      | inr due ↦ rw (young, due) refl
    ]
  ]

  pub decode_state-opened :
      (key : Bytes) (max_age : ℕ) (e : String) (flow : OAuthFlowState) (v : World arcade)
      → (e == "") ≡ false
      → opened_state host (decrypt host e key) ≡ ok flow
      → decode_state arcade host key max_age e v ≡ check_age arcade host max_age flow v
  unfolding decode_state
  decode_state-opened key max_age e flow v full opened = rw (full, opened) refl

  -- Where the packages keep their promises and the key has 32 bytes, `encode_state` returns a
  -- text, from which `decode_state` gives the flow back at any later time, unless it is more than
  -- the greatest age after the time of issue or more than 60 seconds before it; then it raises.
  pub decode_state-encode_state :
      (key : Bytes) (max_age : ℕ) (flow : OAuthFlowState) (w v : World arcade)
      → CipherLaws host
      → JsonLaw host
      → IntLaw host
      → count key ≡ key_len
      → (e : String) × ((encode_state arcade host key flow w).0 ≡ ok e)
        × ((decode_state arcade host key max_age e v).0 ≡ (
            if ltb (flow.issued_at + max_age) (host.clock v.readings / second)
            then err oauth_state
            else if ltb (host.clock v.readings / second + 60) flow.issued_at
            then err oauth_state
            else ok flow))
  unfolding encode_state
  decode_state-encode_state key max_age flow w v laws json int size =
      let (r, read, same) = json (asdict flow) (asdict-plain flow) in
      let (e, made, opens) =
        decrypt-encrypt arcade host laws (host.json_dumps (asdict flow)) key w size in
      let full = nonempty_envelope host key e (host.json_dumps (asdict flow)) laws opens in
      let back : flow_of host r ≡ some flow = flow_of-asdict host r flow int same in
      let opened : opened_state host (decrypt host e key) ≡ ok flow =
        ap (opened_state host) opens ∙ ap (parsed host) read ∙ rw (parsed, back) refl in
      (
        e,
        made,
        ap (λ x. x.0) (decode_state-opened key max_age e flow v full opened)
            ∙ check_age-lem max_age flow v,
      )
