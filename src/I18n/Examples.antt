-- ===== src/I18n/Examples.antt =====
-- A text of each kind.
use whatunga.Prelude.{◌≡◌, refl, true, some, Str, codes, str_eq}
use whatunga.Prelude.Utf8.{utf8}
use whatunga.Prelude.Maps.{Map, lookup, keys, contains}
use whatunga.I18n.{translate, is_supported}
use whatunga.I18n.English.{english}
use whatunga.I18n.Tables.{translations, translate-is_supported}

uptime_french : translate translations (codes "fr") (codes "uptime") ≡ utf8 "Disponibilité"
unfolding translate translations lookup str_eq
uptime_french = refl

-- A key that no table has comes back.
missing_key : translate translations (codes "mi") (codes "no_such_key") ≡ codes "no_such_key"
unfolding translate translations lookup str_eq
missing_key = refl

supported_zh : is_supported (codes "zh") ≡ true
unfolding is_supported str_eq
supported_zh = refl

known_kind_ilo : contains (codes "kind_ilo") (keys english) ≡ true
unfolding contains keys str_eq
known_kind_ilo = refl

translate-is_supported_example :
    (texts : Map Str) × (text : Str) × (lookup (codes "zh") translations ≡ some texts)
    × (lookup (codes "kind_ilo") texts ≡ some text)
    × (translate translations (codes "zh") (codes "kind_ilo") ≡ text)
translate-is_supported_example =
    translate-is_supported (codes "zh") (codes "kind_ilo") supported_zh known_kind_ilo
