-- ===== src/RouterOs/Attributes.antt =====
-- Attribute words of a sentence, as a map.
use whatunga.Prelude.{◌≡◌, refl, ap, ◌∙◌}
use whatunga.Prelude.{false, Option, none, some, List, [], ◌∷◌, ◌++◌, map}
use whatunga.Prelude.{Str, str_eq, has_prefix, ◌==◌, if◌then◌else◌, All}
use whatunga.Prelude.Maps.{Map, lookup, insert, lookup-insert}
use whatunga.RouterOs.Client.{cut_at_eq, attributes_from, parse_attribute_words}

-- The text of an attribute word.
abbrev pub attribute_word : Str × Str → Str
attribute_word (k, v) = b'=' ∷ (k ++ b'=' ∷ v)

-- No byte of the name is an equals sign.
abbrev pub IsName : Str → Type 0
IsName k = All (λ c. (c == b'=') ≡ false) k

cut_at_eq-name : (k v : Str) → IsName k → cut_at_eq (k ++ b'=' ∷ v) ≡ some (k, v)
unfolding cut_at_eq
cut_at_eq-name [] v h = refl
cut_at_eq-name (c ∷ k) v h = rw (h.0, cut_at_eq-name k v h.1)

attributes_from_word :
    (k v : Str) (attrs : Map Str) (words : List Str)
    → IsName k
    → attributes_from attrs (attribute_word (k, v) ∷ words)
      ≡ attributes_from (insert k v attrs) words
unfolding attributes_from has_prefix
attributes_from_word k v attrs words h = rw (cut_at_eq-name k v h)

-- The value that was given last for a name.
abbrev pub last_value : Str → Option Str → List (Str × Str) → Option Str
last_value d before [] = before
last_value d before ((k, v) ∷ attrs) = last_value d (if str_eq k d then some v else before) attrs

lookup-attributes_from :
    (d : Str) (attrs : List (Str × Str)) (m : Map Str)
    → All (λ (a : Str × Str). IsName a.0) attrs
    → lookup d (attributes_from m (map attribute_word attrs)) ≡ last_value d (lookup d m) attrs
lookup-attributes_from d [] m h = unfold attributes_from in refl
lookup-attributes_from d ((k, v) ∷ attrs) m h =
    rw (attributes_from_word k v m (map attribute_word attrs) h.0) (
      lookup-attributes_from d attrs (insert k v m) h.1
      ∙ ap (λ o. last_value d o attrs) (lookup-insert k d v m))

-- The words "=name=value" of a sentence, with no equals sign in a name but any bytes in a value,
-- are parsed into a row that holds under each name the value that was given last.
pub lookup-parse_attribute_words :
    (d : Str) (attrs : List (Str × Str))
    → All (λ (a : Str × Str). IsName a.0) attrs
    → lookup d (parse_attribute_words (map attribute_word attrs)) ≡ last_value d none attrs
unfolding parse_attribute_words
lookup-parse_attribute_words d attrs h =
    lookup-attributes_from d attrs [] h ∙ (unfold lookup in refl)
