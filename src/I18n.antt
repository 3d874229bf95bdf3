-- ===== src/I18n.antt =====
-- internal/i18n/i18n.go: the languages and the lookup of a translation. The tables of the texts are
-- those of the children.
pub mod English
pub mod Maori
pub mod French
pub mod Chinese
pub mod Tables
mod Examples
use whatunga.Prelude.{Bool, false, ◌||◌, Option, none, some, List, [], ◌∷◌, Str, codes, str_eq}
use whatunga.Prelude.Maps.{Map, lookup}

-- The codes of SupportedLanguages.
abbrev pub supported_languages : List Str
supported_languages = codes "en" ∷ codes "mi" ∷ codes "fr" ∷ codes "zh" ∷ []

is_code : Str → List Str → Bool
is_code code [] = false
is_code code (c ∷ cs) = str_eq c code || is_code code cs

unfoldable pub is_supported : Str → Bool
unfolding is_code
is_supported code = is_code code supported_languages

text_in : Str → Option (Map Str) → Option Str
text_in key none = none
text_in key (some texts) = lookup key texts

or_else : Option Str → Option Str → Str → Str
or_else (some text) english key = text
or_else none (some text) key = text
or_else none none key = key

-- T(lang, key)
unfoldable pub translate : Map (Map Str) → Str → Str → Str
unfolding text_in or_else
translate table lang key =
    or_else (text_in key (lookup lang table)) (text_in key (lookup (codes "en") table)) key
