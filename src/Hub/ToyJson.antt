-- ===== src/Hub/ToyJson.antt =====
-- A codec for objects of texts, numbers and nulls, for the machine of the tests: a dot before every
-- character, and two commas after every text.
use Prim.Native.String.{count}
use package.text.Mathlib.TextLemmas.{length-cons}
use lehen.Prelude.{
  ℕ, zero, suc, String, true, Option, some, List, [], ◌∷◌, ◌≡◌, refl, ap, ap₂, ◌∙◌, All, ◌==◌,
  if◌then◌else◌,
}
use mathlib.Core.Bool.{false≢true}
use lehen.Prelude.Dict.{Dict}
use lehen.Hub.Documents.{Value, null, text, num}
use lehen.Hub.Values.{is_plain}

unfoldable pub zeros : ℕ → String
zeros zero = ""
zeros (suc n) = String.◌∷◌ "\0" (zeros n)

pub count-zeros : (n : ℕ) → count (zeros n) ≡ n
unfolding zeros
count-zeros zero = refl
count-zeros (suc n) = rw length-cons (ap suc (count-zeros n))

-- a text, and what comes after it
abbrev pub escaped_then : String → String → String
escaped_then String.[] rest = String.◌∷◌ "," (String.◌∷◌ "," rest)
escaped_then (String.◌∷◌ c s) rest = String.◌∷◌ "." (String.◌∷◌ c (escaped_then s rest))

abbrev pub tag_of : Value → String
tag_of (Value.text s) = "t"
tag_of (Value.num n) = "n"
tag_of _ = "0"

unfoldable pub payload_of : Value → String
unfolding zeros
payload_of (Value.text s) = s
payload_of (Value.num n) = zeros n
payload_of _ = ""

unfoldable pub dumps : Dict Value → String
unfolding payload_of
dumps [] = ""
dumps ((k, v) ∷ d) =
    escaped_then k (escaped_then (tag_of v) (escaped_then (payload_of v) (dumps d)))

abbrev pub push : String → List String → List String
push c [] = c ∷ []
push c (s ∷ rest) = c ∷ rest

abbrev pub put_first : List String → String
put_first [] = ""
put_first (s ∷ rest) = s

unfoldable pub read_all : String → List String
read_all String.[] = []
read_all (String.◌∷◌ m String.[]) = []
read_all (String.◌∷◌ m (String.◌∷◌ c s)) =
    let rest = read_all s in
    if String.◌∷◌ m "" == "," then "" ∷ rest else push (String.◌∷◌ c (put_first rest)) rest

abbrev pub value_of : String → String → Value
value_of t p = if t == "t" then text p else if t == "n" then num (count p) else null

unfoldable pub items_of : List String → Dict Value
items_of (k ∷ t ∷ p ∷ rest) = (k, value_of t p) ∷ items_of rest
items_of _ = []

unfoldable pub loads : String → Option (Dict Value)
unfolding read_all items_of
loads s = some (items_of (read_all s))

read_all-escaped_then : (s rest : String) → read_all (escaped_then s rest) ≡ s ∷ read_all rest
unfolding read_all
read_all-escaped_then String.[] rest = refl
read_all-escaped_then (String.◌∷◌ c s) rest =
    ap (λ xs. push (String.◌∷◌ c (put_first xs)) xs) (read_all-escaped_then s rest)

value_of-payload : (v : Value) → is_plain v ≡ true → value_of (tag_of v) (payload_of v) ≡ v
unfolding payload_of
value_of-payload (Value.text s) h = refl
value_of-payload (Value.num n) h = ap num (count-zeros n)
value_of-payload Value.null h = refl
value_of-payload (Value.flag b) h = absurd (false≢true h)
value_of-payload (Value.other s) h = absurd (false≢true h)
value_of-payload (Value.roles_map m) h = absurd (false≢true h)

read_all-dumps :
    (k : String) (v : Value) (d : Dict Value)
    → read_all (dumps ((k, v) ∷ d)) ≡ k ∷ tag_of v ∷ payload_of v ∷ read_all (dumps d)
unfolding dumps
read_all-dumps k v d =
    read_all-escaped_then k (escaped_then (tag_of v) (escaped_then (payload_of v) (dumps d)))
    ∙ ap (λ xs. k ∷ xs)
        (read_all-escaped_then (tag_of v) (escaped_then (payload_of v) (dumps d))
          ∙ ap (λ xs. tag_of v ∷ xs) (read_all-escaped_then (payload_of v) (dumps d)))

items_of-nothing : items_of (read_all (dumps [])) ≡ []
unfolding items_of read_all dumps
items_of-nothing = refl

items_of-dumps :
    (d : Dict Value) → All (λ kv. is_plain kv.1 ≡ true) d → items_of (read_all (dumps d)) ≡ d
unfolding items_of
items_of-dumps [] plain = items_of-nothing
items_of-dumps ((k, v) ∷ d) (plain, rest) =
    ap items_of (read_all-dumps k v d)
    ∙ ap₂ (λ x xs. (k, x) ∷ xs) (value_of-payload v plain) (items_of-dumps d rest)

-- What is read is what was written.
pub loads-dumps : (d : Dict Value) → All (λ kv. is_plain kv.1 ≡ true) d → loads (dumps d) ≡ some d
unfolding loads
loads-dumps d plain = ap some (items_of-dumps d plain)
