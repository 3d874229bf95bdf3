-- ===== src/I18n/Tables.antt =====
-- The variable translations of internal/i18n/i18n.go, and that it is complete.
use whatunga.Prelude.{
  ◌≡◌, refl, subst, arith, Bool, true, ◌&&◌, some, List, [], ◌∷◌, Str, codes, str_eq, str_eq_iff,
  is_some, Bool-cases, Option-cases, inl, inr,
}
use whatunga.Prelude.Maps.{Map, lookup, keys, contains}
use whatunga.I18n.{is_supported, is_code, translate}
use whatunga.I18n.English.{english}
use whatunga.I18n.Maori.{maori}
use whatunga.I18n.French.{french}
use whatunga.I18n.Chinese.{chinese}

unfoldable pub translations : Map (Map Str)
translations =
    (codes "en", english) ∷ (codes "mi", maori) ∷ (codes "fr", french) ∷ (codes "zh", chinese) ∷ []

-- The texts have each key of a list.
has_all : List Str → Map Str → Bool
has_all [] texts = true
has_all (k ∷ ks) texts = is_some (lookup k texts) && has_all ks texts

has_all-contains :
    (ks : List Str) (texts : Map Str) (key : Str)
    → has_all ks texts ≡ true
    → contains key ks ≡ true
    → is_some (lookup key texts) ≡ true
unfolding has_all contains
has_all-contains [] texts key h c = cc
has_all-contains (k ∷ ks) texts key h c = elim (Bool-cases (str_eq k key)) [
  | inl hit ↦
      let same : k ≡ key = (str_eq_iff k key).0 hit in
      subst (λ (j : Str). is_some (lookup j texts) ≡ true) same (ground arith)
  | inr miss ↦ has_all-contains ks texts key (ground arith) (ground arith)
]

has_all-english : has_all (keys english) english ≡ true
unfolding has_all keys lookup str_eq
has_all-english = refl

has_all-maori : has_all (keys english) maori ≡ true
unfolding has_all keys lookup str_eq
has_all-maori = refl

has_all-french : has_all (keys english) french ≡ true
unfolding has_all keys lookup str_eq
has_all-french = refl

has_all-chinese : has_all (keys english) chinese ≡ true
unfolding has_all keys lookup str_eq
has_all-chinese = refl

-- The language has a table with every English key.
abbrev IsComplete : Str → Type 0
IsComplete lang =
    (texts : Map Str) × (lookup lang translations ≡ some texts)
    × (has_all (keys english) texts ≡ true)

IsComplete-eq : (code lang : Str) → str_eq code lang ≡ true → IsComplete code → IsComplete lang
IsComplete-eq code lang hit c = subst IsComplete ((str_eq_iff code lang).0 hit) c

IsComplete-en : IsComplete (codes "en")
unfolding translations lookup str_eq
IsComplete-en = (english, refl, has_all-english)

IsComplete-mi : IsComplete (codes "mi")
unfolding translations lookup str_eq
IsComplete-mi = (maori, refl, has_all-maori)

IsComplete-fr : IsComplete (codes "fr")
unfolding translations lookup str_eq
IsComplete-fr = (french, refl, has_all-french)

IsComplete-zh : IsComplete (codes "zh")
unfolding translations lookup str_eq
IsComplete-zh = (chinese, refl, has_all-chinese)

is_supported-IsComplete : (lang : Str) → is_supported lang ≡ true → IsComplete lang
unfolding is_supported is_code
is_supported-IsComplete lang h = elim (Bool-cases (str_eq (codes "en") lang)) [
  | inl en ↦ IsComplete-eq (codes "en") lang en IsComplete-en
  | inr no_en ↦ elim (Bool-cases (str_eq (codes "mi") lang)) [
    | inl mi ↦ IsComplete-eq (codes "mi") lang mi IsComplete-mi
    | inr no_mi ↦ elim (Bool-cases (str_eq (codes "fr") lang)) [
      | inl fr ↦ IsComplete-eq (codes "fr") lang fr IsComplete-fr
      | inr no_fr ↦ IsComplete-eq (codes "zh") lang (ground arith) IsComplete-zh
    ]
  ]
]

-- In every supported language each key of the English table has a text in the table of that
-- language, and this text is what T returns: it falls back neither to English nor to the key.
pub translate-is_supported :
    (lang key : Str)
    → is_supported lang ≡ true
    → contains key (keys english) ≡ true
    → (texts : Map Str) × (text : Str) × (lookup lang translations ≡ some texts)
      × (lookup key texts ≡ some text)
      × (translate translations lang key ≡ text)
unfolding translate
translate-is_supported lang key supported known =
    let (texts, e, all) = is_supported-IsComplete lang supported in
    elim (Option-cases (lookup key texts)) [
      | inl missing ↦
          let present : is_some (lookup key texts) ≡ true =
            has_all-contains (keys english) texts key all known in
          cc
      | inr (text, found) ↦ (texts, text, e, found, rw (e, found) refl)
    ]
