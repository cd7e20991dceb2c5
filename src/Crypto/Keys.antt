-- ===== src/Crypto/Keys.antt =====
-- `decode_master_key` of crypto/secrets.py and `decode_audit_pepper` of
-- crypto/audit_fingerprint.py.
use Prim.Native.String.{count}
use lehen.Prelude.{String, Option, none, some, not, eqb, if◌then◌else◌}
use lehen.Prelude.Effects.{Result, ok, err, invalid_key}
use lehen.Hub.{Bytes, Host}
use lehen.Crypto.Envelope.{key_len}

-- 32 bytes, or the error
abbrev pub of_key_len : Option Bytes → Result Bytes
of_key_len none = err invalid_key
of_key_len (some raw) = if not (eqb (count raw) key_len) then err invalid_key else ok raw

unfoldable pub decode_master_key : Host → String → Result Bytes
decode_master_key host b64 = of_key_len (host.b64_decode b64)

unfoldable pub decode_audit_pepper : Host → String → Result Bytes
decode_audit_pepper host b64 = of_key_len (host.b64_decode b64)
