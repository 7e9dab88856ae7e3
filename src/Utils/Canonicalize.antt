-- ===== src/Utils/Canonicalize.antt =====
-- canonicalizeJson of agent/src/common/utils/canonicalize.ts, on the values that JSON.parse returns.
-- A text is the list of its UTF-16 code units, by which `sort` compares keys. A number is the text
-- that JSON.stringify prints for it, and a key stands once in an object.
pub mod Order
pub mod Reordering
pub mod Collisions
mod Examples
use freysa_spark_hackathon.Common.{
  ℕ, Bool, true, false, Option, none, some, List, [], ◌∷◌, ◌++◌, map, ◌==◌, ltb, if◌then◌else◌,
  Text, text_eq,
}

mutual
  pub data Value : Type 0 where
    null : Value
    bool : Bool → Value
    num : Text → Value
    str : Text → Value
    arr : Values → Value
    obj : Entries → Value

  pub data Values : Type 0 where
    nil : Values
    cons : Value → Values → Values

  pub data Entries : Type 0 where
    end : Entries
    entry : Text → Value → Entries → Entries

-- The default order of `sort`: by code units, the shorter text first.
unfoldable pub text_leb : Text → Text → Bool
text_leb [] t = true
text_leb (c ∷ s) [] = false
text_leb (c ∷ s) (d ∷ t) = let rest = text_leb s t in if c == d then rest else ltb c d

unfoldable pub insert_key : Text → List Text → List Text
insert_key k [] = k ∷ []
insert_key k (j ∷ js) = let rest = j ∷ insert_key k js in if text_leb k j then k ∷ j ∷ js else rest

unfoldable pub sort : List Text → List Text
sort [] = []
sort (k ∷ ks) = insert_key k (sort ks)

-- `join(",")`.
unfoldable pub join : List Text → Text
join [] = []
join (t ∷ []) = t
join (t ∷ u ∷ ts) = t ++ b',' ∷ join (u ∷ ts)

-- The keys of an object, each with the canonical text of its value.
abbrev pub Printed : Type 0
Printed = List (Text × Text)

abbrev pub keys : Printed → List Text
keys es = map (λ (e : Text × Text). e.0) es

unfoldable pub find : Printed → Text → Option Text
find [] k = none
find ((j, t) ∷ es) k = if text_eq j k then some t else find es k

-- `canonicalizeJson(obj[key])`; JSON.stringify prints undefined as undefined.
abbrev pub text_of : Option Text → Text
text_of none = b'u' ∷ b'n' ∷ b'd' ∷ b'e' ∷ b'f' ∷ b'i' ∷ b'n' ∷ b'e' ∷ b'd' ∷ []
text_of (some t) = t

-- The template: the key stands between quotes as it is.
abbrev pub print_entry : Text → Text → Text
print_entry key value = b'"' ∷ (key ++ b'"' ∷ b':' ∷ value)

abbrev pub print_object : Printed → Text
print_object es =
    b'{' ∷ (join (map (λ k. print_entry k (text_of (find es k))) (sort (keys es))) ++ b'}' ∷ [])

-- `quote` is JSON.stringify on texts.
module _ (quote : Text → Text) where
  unfoldable mutual
    pub canonicalize_json : Value → Text
    canonicalize_json null = b'n' ∷ b'u' ∷ b'l' ∷ b'l' ∷ []
    canonicalize_json (bool true) = b't' ∷ b'r' ∷ b'u' ∷ b'e' ∷ []
    canonicalize_json (bool false) = b'f' ∷ b'a' ∷ b'l' ∷ b's' ∷ b'e' ∷ []
    canonicalize_json (num n) = n
    canonicalize_json (str s) = quote s
    canonicalize_json (arr vs) = b'[' ∷ (join (canonicalize_values vs) ++ b']' ∷ [])
    canonicalize_json (obj es) = print_object (canonicalize_entries es)

    pub canonicalize_values : Values → List Text
    canonicalize_values nil = []
    canonicalize_values (cons v vs) = canonicalize_json v ∷ canonicalize_values vs

    pub canonicalize_entries : Entries → Printed
    canonicalize_entries end = []
    canonicalize_entries (entry k v es) = (k, canonicalize_json v) ∷ canonicalize_entries es
