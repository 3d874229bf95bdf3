-- ===== src/Monitor/SnmpPoller/Tables.antt =====
-- The interface table that an agent's columns make.
use mathlib.Core.List.{Perm}
use mathlib.Core.List.Perm
use whatunga.Prelude.{
  subst, ◌≡◌, ◌≢◌, refl, arith, false, Option, none, some, List, [], ◌∷◌, ◌++◌, map, All, Str,
  codes, str_eq, str_eq_refl, str_eq_iff, has_prefix-append, drop-length-append, if◌then◌else◌,
  Bool-cases, inl, inr, ℕ,
}
use whatunga.Prelude.Int.{ℤ, pos, eqb_ℤ}
use whatunga.Prelude.Maps.{Map, lookup}
use whatunga.Snmp.Message.{Value, int, counter, octets, done}
use whatunga.Snmp.{Result}
use whatunga.Monitor.{Interface}
use whatunga.Monitor.SnmpPoller.{
  answered, value_int, value_str, int_at, if_table_index, trim_prefix, row_oid, interface_of_entry,
  interface_table, walk_column, interfaces, oid_if_descr, oid_if_oper_status, oid_if_in_octets,
  oid_if_out_octets,
}

-- A row of the agent's table.
pub record TableRow : Type 0 where
  pub index : Str
  pub name : Str
  pub status : ℤ
  pub rx : ℤ
  pub tx : ℤ

-- The entries of one column.
unfoldable pub column : Str → (TableRow → Value) → List TableRow → Map Value
column base value [] = []
column base value (r ∷ rows) = (row_oid base r.index, value r) ∷ column base value rows

find : Str → List TableRow → Option TableRow
find i [] = none
find i (r ∷ rows) = if str_eq r.index i then some r else find i rows

-- No two rows share an index.
abbrev pub IsTable : List TableRow → Type 0
IsTable [] = Unit {0}
IsTable (r ∷ rows) = All (λ s. r.index ≢ s.index) rows × IsTable rows

unfoldable pub interface_of : TableRow → Interface
interface_of r = record {
  name = r.name;
  type = codes "ethernet";
  running = eqb_ℤ r.status (pos 1);
  disabled = false;
  rx_bytes = r.rx;
  tx_bytes = r.tx;
}

str_eq-append : (p s t : Str) → str_eq (p ++ s) (p ++ t) ≡ str_eq s t
unfolding str_eq
str_eq-append [] s t = refl
str_eq-append (c ∷ p) s t = ground (arith, str_eq-append p s t)

or_value : (TableRow → Value) → Option TableRow → Option Value
or_value value none = none
or_value value (some r) = some (value r)

lookup-column :
    (base : Str) (value : TableRow → Value) (i : Str) (rows : List TableRow)
    → lookup (row_oid base i) (column base value rows) ≡ or_value value (find i rows)
unfolding lookup column find or_value
lookup-column base value i [] = refl
lookup-column base value i (r ∷ rows) =
    let same : str_eq (row_oid base r.index) (row_oid base i) ≡ str_eq r.index i =
      str_eq-append (base ++ codes ".") r.index i in
    elim (Bool-cases (str_eq r.index i)) [
      | inl hit ↦ rw (same, hit) refl
      | inr miss ↦ rw (same, miss) (lookup-column base value i rows)
    ]

if_table_index-row_oid : (i base : Str) → if_table_index (row_oid base i) base ≡ i
unfolding if_table_index trim_prefix
if_table_index-row_oid i base =
    rw (has_prefix-append (base ++ codes ".") i) (drop-length-append (base ++ codes ".") i)

int_at-column :
    (base : Str) (value : TableRow → Value) (r : TableRow) (rows : List TableRow)
    → find r.index rows ≡ some r
    → int_at (column base value rows) (row_oid base r.index) ≡ value_int (value r)
unfolding int_at or_value
int_at-column base value r rows h = rw (lookup-column base value r.index rows, h) refl

-- The rows are all found by their indices.
found_behind :
    (r : TableRow) (subset rows : List TableRow)
    → All (λ s. r.index ≢ s.index) subset
    → All (λ s. find s.index rows ≡ some s) subset
    → All (λ s. find s.index (r ∷ rows) ≡ some s) subset
unfolding find
found_behind r [] rows h k = tt
found_behind r (s ∷ subset) rows h k =
    (ground (arith, str_eq_iff r.index s.index), found_behind r subset rows h.1 k.1)

All-find : (rows : List TableRow) → IsTable rows → All (λ s. find s.index rows ≡ some s) rows
All-find [] h = tt
All-find (r ∷ rows) h = (
  (unfold find in rw (str_eq_refl r.index) refl),
  found_behind r rows rows h.0 (All-find rows h.1),
)

first_entry :
    (r : TableRow) (rows : List TableRow)
    → find r.index rows ≡ some r
    → interface_of_entry
        (column oid_if_oper_status (λ r. int r.status) rows)
        (column oid_if_in_octets (λ r. counter r.rx) rows)
        (column oid_if_out_octets (λ r. counter r.tx) rows)
        (row_oid oid_if_descr r.index, octets r.name)
      ≡ interface_of r
unfolding interface_of_entry interface_of value_str value_int
first_entry r rows h =
    rw
      (
        if_table_index-row_oid r.index oid_if_descr,
        int_at-column oid_if_oper_status (λ r. int r.status) r rows h,
        int_at-column oid_if_in_octets (λ r. counter r.rx) r rows h,
        int_at-column oid_if_out_octets (λ r. counter r.tx) r rows h,
      )
      refl

abbrev pub statuses_of : List TableRow → Map Value
statuses_of rows = column oid_if_oper_status (λ r. int r.status) rows

abbrev pub in_octets_of : List TableRow → Map Value
in_octets_of rows = column oid_if_in_octets (λ r. counter r.rx) rows

abbrev pub out_octets_of : List TableRow → Map Value
out_octets_of rows = column oid_if_out_octets (λ r. counter r.tx) rows

abbrev pub names_of : List TableRow → Map Value
names_of rows = column oid_if_descr (λ r. octets r.name) rows

entry_ahead :
    (rows : List TableRow) (r : TableRow) (subset : List TableRow)
    → interface_of_entry
        (statuses_of rows)
        (in_octets_of rows)
        (out_octets_of rows)
        (row_oid oid_if_descr r.index, octets r.name)
      ≡ interface_of r
    → interface_table (names_of subset) (statuses_of rows) (in_octets_of rows) (out_octets_of rows)
      ≡ map interface_of subset
    → interface_table
        (names_of (r ∷ subset))
        (statuses_of rows)
        (in_octets_of rows)
        (out_octets_of rows)
      ≡ map interface_of (r ∷ subset)
unfolding interface_table column
entry_ahead rows r subset first rest = cc (first, rest)

interface_table-subset :
    (subset rows : List TableRow)
    → All (λ s. find s.index rows ≡ some s) subset
    → interface_table (names_of subset) (statuses_of rows) (in_octets_of rows) (out_octets_of rows)
      ≡ map interface_of subset
unfolding interface_table
interface_table-subset [] rows h = unfold column in refl
interface_table-subset (r ∷ subset) rows h =
    entry_ahead rows r subset (first_entry r rows h.0) (interface_table-subset subset rows h.1)

-- Where the four walks of a poll give the columns of one table, whose rows have different indices,
-- the poll's interfaces are the rows of the table: the name of each with its own status and
-- counters, each once, in an order that depends on how Go's range visits the map of the names.
pub interfaces-column :
    {W : Type 0} (next : Str → W → W × Result (Str × Value)) (range : W → Map Value → Map Value)
    (rounds : ℕ) (rows : List TableRow) (w0 w1 w2 w3 w4 : W)
    → ((w : W) (m : Map Value) → Perm (range w m) m)
    → IsTable rows
    → walk_column next range rounds oid_if_descr w0 ≡ (w1, done (names_of rows))
    → walk_column next range rounds oid_if_oper_status w1 ≡ (w2, done (statuses_of rows))
    → walk_column next range rounds oid_if_in_octets w2 ≡ (w3, done (in_octets_of rows))
    → walk_column next range rounds oid_if_out_octets w3 ≡ (w4, done (out_octets_of rows))
    → (table : List Interface) × (interfaces next range rounds w0 ≡ (w4, answered table))
      × Perm table (map interface_of rows)
unfolding interfaces interface_table
interfaces-column next range rounds rows w0 w1 w2 w3 w4 visits table e1 e2 e3 e4 =
    let entry = interface_of_entry (statuses_of rows) (in_octets_of rows) (out_octets_of rows) in
    let same : map entry (names_of rows) ≡ map interface_of rows =
      interface_table-subset rows rows (All-find rows table) in
    (
      map entry (range w4 (names_of rows)),
      rw (e1, e2, e3, e4) refl,
      subst (Perm (map entry (range w4 (names_of rows)))) same
          (Perm.map entry (visits w4 (names_of rows))),
    )
