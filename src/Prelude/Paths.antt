-- ===== src/Prelude/Paths.antt =====
-- How net/http's ServeMux reads the path of a request (Go 1.22). A path is given in its escaped form,
-- r.URL.EscapedPath(). CONNECT requests, which the mux does not clean, and the request for `*` are
-- left out.
pub mod Clean
use whatunga.Prelude.{
  ℕ, ◌+◌, ◌-◌, ◌*◌, ◌≡◌, ◌≢◌, refl, ap, ◌∙◌, arith, Bool, true, false, not, ◌&&◌, ◌||◌, Option,
  none, some, List, [], ◌∷◌, ◌++◌, map, append-nil, append_assoc,
}
use whatunga.Prelude.{
  Str, codes, str_eq, str_eq_iff, str_eq_refl, All, ◌==◌, ltb, leb, if◌then◌else◌, is_nil, last?,
}
use whatunga.Prelude.Split.{split, join, Without, split-join}

-- The value of a hexadecimal digit.
abbrev hex_value : ℕ → Option ℕ
hex_value c =
    if leb b'0' c && leb c b'9'
    then some (c - b'0')
    else if leb b'a' c && leb c b'f'
    then some (c - b'a' + 10)
    else if leb b'A' c && leb c b'F'
    then some (c - b'A' + 10)
    else none

abbrev unescape_onto : ℕ → Option ℕ → Option ℕ → Str → Str → Str
unescape_onto c (some x) (some y) short long = (x * 16 + y) ∷ short
unescape_onto c none y short long = c ∷ long
unescape_onto c (some x) none short long = c ∷ long

-- url.PathUnescape of a part of a path; the escaped form has a `%` only before two hexadecimal
-- digits, and one that has not is kept.
unfoldable pub unescape : Str → Str
unescape [] = []
unescape (c ∷ []) = c ∷ []
unescape (c ∷ a ∷ []) = c ∷ a ∷ []
unescape (c ∷ a ∷ b ∷ s) =
    let short = unescape s in
    let long = unescape (a ∷ b ∷ s) in
    if c == b'%' then unescape_onto c (hex_value a) (hex_value b) short long else c ∷ long

-- The parts between slashes, unescaped one by one: `/` is no hexadecimal digit.
unfoldable pub parts_of : Str → List Str
parts_of path = map unescape (split b'/' path)

-- r.URL.Path
unfoldable pub decoded : Str → Str
decoded path = join b'/' (parts_of path)

abbrev rest_of : List Str → List Str
rest_of [] = []
rest_of (part ∷ parts) = parts

-- One part of a rooted path, onto those that are kept, the last of them first.
unfoldable pub clean_part : Str → List Str → List Str
unfolding rest_of
clean_part part kept =
    if is_nil part || str_eq part (codes ".")
    then kept
    else if str_eq part (codes "..")
    then rest_of kept
    else part ∷ kept

unfoldable pub clean_parts : List Str → List Str → List Str
clean_parts [] kept = kept
clean_parts (part ∷ parts) kept = clean_parts parts (clean_part part kept)

abbrev pub reverse_onto : List Str → List Str → List Str
reverse_onto [] parts = parts
reverse_onto (part ∷ kept) parts = reverse_onto kept (part ∷ parts)

-- The end of a path behind its kept parts: a slash where the path ended in one.
abbrev pub ending : Option Str → List Str
ending none = []
ending (some part) = if is_nil part then [] ∷ [] else []

unfoldable pub rooted : Str → Str
rooted [] = b'/' ∷ []
rooted (c ∷ path) = if c == b'/' then c ∷ path else b'/' ∷ c ∷ path

abbrev pub cleaned : List Str → List Str
cleaned parts =
    let kept = clean_parts parts [] in
    [] ∷ (if is_nil kept then [] ∷ [] else reverse_onto kept (ending (last? parts)))

-- cleanPath of net/http: path.Clean of the rooted path, with its last slash kept.
unfoldable pub clean_path : Str → Str
clean_path path = join b'/' (cleaned (split b'/' (rooted path)))

unfoldable pub parts_eq : List Str → List Str → Bool
parts_eq [] [] = true
parts_eq [] (part ∷ parts) = false
parts_eq (part ∷ parts) [] = false
parts_eq (part ∷ parts) (part' ∷ parts') = str_eq part part' && parts_eq parts parts'

-- The pattern that ends in a slash, whose parts before it are given, takes the path: further parts
-- follow, of which the last may be empty.
unfoldable pub parts_below : List Str → List Str → Bool
parts_below [] parts = not (is_nil parts)
parts_below (part ∷ parts) [] = false
parts_below (part ∷ parts) (part' ∷ parts') = str_eq part part' && parts_below parts parts'

-- The patterns "/x/y" and "/x/y/", written by their parts behind the first slash, and the path.
unfoldable pub is_at : List Str → Str → Bool
is_at parts path = parts_eq ([] ∷ parts) (parts_of path)

unfoldable pub is_below : List Str → Str → Bool
is_below parts path = parts_below ([] ∷ parts) (parts_of path)

-- Where the mux sends a request of this path before it looks for a handler: `trees` are the
-- patterns that end in a slash and have no twin without. The redirection is to the URL of the path
-- that is returned.
unfoldable pub redirection : List (List Str) → Str → Option Str
redirection trees path =
    let clean = clean_path path in
    if at_tree trees clean
    then some (clean_path (decoded path) ++ codes "/")
    else if str_eq clean path
    then none
    else some clean
  where
    at_tree : List (List Str) → Str → Bool
    at_tree [] clean = false
    at_tree (tree ∷ trees) clean = is_at tree clean || at_tree trees clean

-- A part of an escaped path that cleaning keeps.
pub record IsKept (part : Str) : Type 0 where
  pub whole : Without b'/' part
  pub not_empty : part ≢ []
  pub not_dot : part ≢ codes "."
  pub not_dots : part ≢ codes ".."
