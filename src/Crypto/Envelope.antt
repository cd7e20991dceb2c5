-- ===== src/Crypto/Envelope.antt =====
-- `encrypt` and `decrypt` of crypto/secrets.py: one byte of version, the nonce, and the ciphertext
-- with its tag, in base64. The key was decoded at startup.
use Prim.Native.Char.{code}
use Prim.Native.String.{◌++◌, count}
use text.Mathlib.TextLemmas.{length-cons, length-append}
use lehen.Prelude.{
  ℕ, ◌+◌, ◌≤◌, String, false, Option, ◌==◌, eq_iff, inl, inr, Bool-cases, none, some, ◌≡◌, refl,
  subst, arith, not, eqb, ltb, if◌then◌else◌,
}
use lehen.Prelude.Text.{cut, skip, cut-append, skip-append}
use lehen.Prelude.Effects.{
  Result, ok, err, invalid_key, unsupported_key_version, invalid_tag, bad_base64, bad_utf8, pure,
  raise_if, ◌>>=◌, ◌>>◌,
}
use lehen.Arcade.{Arcade}
use lehen.Hub.{Bytes, Hub, Host, World, token_bytes}

abbrev pub nonce_len : ℕ
nonce_len = 12

abbrev pub key_len : ℕ
key_len = 32

-- bytes([1]) + nonce + ct
abbrev pub envelope_of : Bytes → Bytes → Bytes
envelope_of nonce ct = String.◌∷◌ "\u{1}" (nonce ++ ct)

unfoldable pub encrypt : (arcade : Arcade) → Host → String → Bytes → Hub arcade String
encrypt arcade host plaintext key = do
  raise_if (not (eqb (count key) key_len)) invalid_key
  nonce ← token_bytes arcade host nonce_len
  pure (
      host.b64_encode (envelope_of nonce (host.aes_encrypt key nonce (host.utf8_encode plaintext))))

-- pt.decode("utf-8")
abbrev pub decoded : Option String → Result String
decoded none = err bad_utf8
decoded (some s) = ok s

abbrev pub opened : Host → Option Bytes → Result String
opened host none = err invalid_tag
opened host (some pt) = decoded (host.utf8_decode pt)

-- from the check of the length on
unfoldable pub open_blob : Host → Bytes → Bytes → Result String
open_blob host key String.[] = err unsupported_key_version
open_blob host key (String.◌∷◌ version rest) =
    if ltb (count (String.◌∷◌ version rest)) (1 + nonce_len + 16)
    then err unsupported_key_version
    else if not (eqb (code version) 1)
    then err unsupported_key_version
    else opened host (host.aes_decrypt key (cut nonce_len rest) (skip nonce_len rest))

abbrev pub open_decoded : Host → Bytes → Option Bytes → Result String
open_decoded host key none = err bad_base64
open_decoded host key (some blob) = open_blob host key blob

unfoldable pub decrypt : Host → String → Bytes → Result String
decrypt host envelope_b64 key =
    if not (eqb (count key) key_len)
    then err invalid_key
    else open_decoded host key (host.b64_decode envelope_b64)

-- What the packages promise: a decoding undoes its encoding, and gives no byte from no text, an authenticated decryption under the
-- same key and nonce undoes the encryption, a ciphertext holds a tag of 16 bytes at least, and as
-- many random bytes come as were asked for.
pub record CipherLaws (host : Host) : Type 0 where
  pub opens :
      (key nonce plain : Bytes)
      → host.aes_decrypt key nonce (host.aes_encrypt key nonce plain) ≡ some plain
  pub tagged : (key nonce plain : Bytes) → 16 ≤ count (host.aes_encrypt key nonce plain)
  pub decodes : (s : String) → host.utf8_decode (host.utf8_encode s) ≡ some s
  pub unpacks : (b : Bytes) → host.b64_decode (host.b64_encode b) ≡ some b
  pub empty : host.b64_decode "" ≡ some ""
  pub sized : (n size : ℕ) → count (host.token_bytes n size) ≡ size

module _ (arcade : Arcade) (host : Host) (laws : CipherLaws host) where
  open_blob-envelope :
      (key nonce : Bytes) (s : String)
      → count nonce ≡ nonce_len
      → open_blob host key (envelope_of nonce (host.aes_encrypt key nonce (host.utf8_encode s)))
        ≡ ok s
  unfolding open_blob
  open_blob-envelope key nonce s size =
      let ct = host.aes_encrypt key nonce (host.utf8_encode s) in
      let long = laws.tagged key nonce (host.utf8_encode s) in
      let cuts : cut nonce_len (nonce ++ ct) ≡ nonce =
        subst (λ n. cut n (nonce ++ ct) ≡ nonce) size (cut-append nonce ct) in
      let skips : skip nonce_len (nonce ++ ct) ≡ ct =
        subst (λ n. skip n (nonce ++ ct) ≡ ct) size (skip-append nonce ct) in
      let len : count (envelope_of nonce ct) ≡ 1 + (12 + count ct) =
        rw (length-cons, length-append, size) (omega arith) in
      let enough : ltb (count (envelope_of nonce ct)) 29 ≡ false = rw len (ground (arith, long)) in
      rw (enough, cuts, skips, laws.opens, laws.decodes) refl

  -- Where the packages keep their promises, and with a key of 32 bytes, `encrypt` returns a
  -- text, and `decrypt` gives the plaintext back from it.
  pub decrypt-encrypt :
      (plaintext : String) (key : Bytes) (w : World arcade)
      → count key ≡ key_len
      → (e : String) × ((encrypt arcade host plaintext key w).0 ≡ ok e)
        × (decrypt host e key ≡ ok plaintext)
  unfolding encrypt decrypt
  decrypt-encrypt plaintext key w size =
      let nonce = host.token_bytes w.readings nonce_len in
      let e : String =
        host.b64_encode
          (envelope_of nonce (host.aes_encrypt key nonce (host.utf8_encode plaintext))) in
      (
        e,
        rw size refl,
        rw (size, laws.unpacks)
            (open_blob-envelope key nonce plaintext (laws.sized w.readings nonce_len)),
      )

-- What `decrypt` opens is not the empty text.
pub nonempty_envelope :
    (host : Host) (key : Bytes) (sealed plain : String)
    → CipherLaws host
    → decrypt host sealed key ≡ ok plain
    → (sealed == "") ≡ false
unfolding decrypt open_blob
nonempty_envelope host key sealed plain laws opens = elim (Bool-cases (sealed == "")) [
  | inr full ↦ full
  | inl empty ↦
      let same : sealed ≡ "" = (eq_iff sealed "").0 empty in
      let opens_empty : decrypt host "" key ≡ ok plain =
        subst (λ s. decrypt host s key ≡ ok plain) same opens in
      elim (Bool-cases (eqb (count key) key_len)) [
        | inl right ↦ let e = rw (right, laws.empty) at opens_empty in absurd (cc e)
        | inr wrong ↦ let e = rw wrong at opens_empty in absurd (cc e)
      ]
]
