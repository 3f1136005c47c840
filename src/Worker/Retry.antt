-- ===== src/Worker/Retry.antt =====
-- internal/worker/retry.go: how often a delivery was attempted, from its headers. A header value is
-- one of Go's dynamic types; what int(n) makes of a float is the machine's, and is given with it.
pub mod Laws
use arvan.Prelude.{
  ℕ, String, Bool, true, false, Option, none, some, List, [], ◌∷◌, str_eq, if◌then◌else◌,
}
use arvan.Prelude.Int.{ℤ, pos, ◌+ℤ◌, ltb_ℤ, int64}

mutual
  -- The values of an AMQP table: integers of every width, floats with their conversion to int, lists
  -- of values, tables, and all the other types.
  pub data Value : Type 0 where
    signed : ℤ → Value
    unsigned : ℕ → Value
    float : ℤ → Value
    list : Values → Value
    table : Table → Value
    other : Value

  pub data Values : Type 0 where
    nil : Values
    cons : Value → Values → Values

  pub data Table : Type 0 where
    empty : Table
    entry : String → Value → Table → Table

-- `table[key]`, with nil for a missing key.
unfoldable pub get : String → Table → Option Value
get key empty = none
get key (entry k v rest) = if str_eq k key then some v else get key rest

-- int is 64 bits wide: an unsigned value is reduced.
unfoldable pub header_int : Option Value → ℤ
header_int none = pos 0
header_int (some (signed n)) = n
header_int (some (unsigned n)) = int64 (pos n)
header_int (some (float n)) = n
header_int (some _) = pos 0

unfoldable pub tables_from_slice : Values → List Table
tables_from_slice nil = []
tables_from_slice (cons (table t) rest) = t ∷ tables_from_slice rest
tables_from_slice (cons _ rest) = tables_from_slice rest

unfoldable pub death_records : Value → List Table
death_records (list items) = tables_from_slice items
death_records _ = []

unfoldable pub sum_counts : ℤ → List Table → ℤ
unfolding header_int get
sum_counts total [] = total
sum_counts total (t ∷ rest) = sum_counts (int64 (total +ℤ header_int (get "count" t))) rest

unfoldable pub count_deaths : Option Value → ℤ
unfolding sum_counts death_records
count_deaths none = pos 0
count_deaths (some raw) = sum_counts (pos 0) (death_records raw)

-- A nil table has no key, as an empty one.
unfoldable pub x_death_count : Table → ℤ
unfolding count_deaths get
x_death_count headers = count_deaths (get "x-death" headers)

unfoldable pub delivery_attempt_count : Table → Bool → ℤ
unfolding x_death_count
delivery_attempt_count headers redelivered =
    let total = x_death_count headers in
    if ltb_ℤ (pos 0) total then total else if redelivered then pos 1 else pos 0
