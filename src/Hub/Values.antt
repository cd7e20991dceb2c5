-- ===== src/Hub/Values.antt =====
-- Python's truth value of a JSON value, and its `or`.
use lehen.Prelude.{Bool, true, false, List, [], ◌∷◌, ◌||◌, not, eqb, ◌==◌, if◌then◌else◌}
use lehen.Hub.Documents.{Value}

abbrev has_roles {ℓ} : {A : Type ℓ} → List A → Bool
has_roles [] = false
has_roles (_ ∷ _) = true

-- `bool(value)`
unfoldable pub truthy : Value → Bool
truthy Value.null = false
truthy (Value.text s) = not (s == "")
truthy (Value.num n) = not (eqb n 0)
truthy (Value.flag b) = b
truthy (Value.other s) = not (s == "0.0" || s == "-0.0" || s == "[]" || s == "{}")
truthy (Value.roles_map m) = has_roles m

-- `a or b`
abbrev pub or_value : Value → Value → Value
or_value a b = if truthy a then a else b

-- A text, a number or null.
abbrev pub is_plain : Value → Bool
is_plain (Value.text s) = true
is_plain (Value.num n) = true
is_plain Value.null = true
is_plain _ = false
