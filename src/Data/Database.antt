-- ===== src/Data/Database.antt =====
-- What the seed scripts' statements mean: three tables with keys, references and column types.
pub mod Fills
pub mod Typed
pub mod Reads
use open_warehouse_agent.Data.Generator.{SyntheticDataset}
use open_warehouse_agent.Data.Rows.{
  Value, text, int, amount, day, product_row, order_row, settlement_row,
}
use open_warehouse_agent.Base.Distinct.{contains, distinct}
use open_warehouse_agent.Base.{
  ℕ, ltb, if◌then◌else◌, Bool, true, false, ◌&&◌, Option, none, some, List, [], ◌∷◌, ◌++◌, map,
}

abbrev pub Row : Type 0
Row = List Value

pub data Table : Type 0 where
  products_table orders_table settlements_table : Table

-- The rows of each table that is there.
pub record Db : Type 0 where
  pub products : Option (List Row)
  pub orders : Option (List Row)
  pub settlements : Option (List Row)

abbrev pub get : Table → Db → Option (List Row)
get products_table db = db.products
get orders_table db = db.orders
get settlements_table db = db.settlements

abbrev pub set : Table → Option (List Row) → Db → Db
set products_table rows db = record db { products = rows }
set orders_table rows db = record db { orders = rows }
set settlements_table rows db = record db { settlements = rows }

-- The table that a table's second column refers to, and the one that refers to it.
abbrev pub parent : Table → Option Table
parent products_table = none
parent orders_table = some products_table
parent settlements_table = some orders_table

abbrev pub child : Table → Option Table
child products_table = some orders_table
child orders_table = some settlements_table
child settlements_table = none

pub data Column : Type 0 where
  integer varchar decimal date : Column

abbrev pub columns : Table → List Column
columns products_table = integer ∷ varchar ∷ varchar ∷ []
columns orders_table = integer ∷ integer ∷ varchar ∷ varchar ∷ decimal ∷ date ∷ []
columns settlements_table = integer ∷ integer ∷ varchar ∷ decimal ∷ decimal ∷ decimal ∷ date ∷ []

-- An integer has 32 bits, its sign among them; a decimal(10,2) has ten digits.
abbrev pub fits_column : Column → Value → Bool
fits_column integer (int n) = ltb n 0x80000000
fits_column varchar (text s) = true
fits_column decimal (amount n) = ltb n 10000000000
fits_column date (day d) = true
fits_column c v = false

abbrev pub fits : List Column → Row → Bool
fits [] [] = true
fits (c ∷ cs) (v ∷ row) = fits_column c v && fits cs row
fits cs row = false

abbrev pub all {ℓ} : {A : Type ℓ} → (A → Bool) → List A → Bool
all p [] = true
all p (x ∷ xs) = p x && all p xs

-- The primary key, and the reference, of a row that fits.
abbrev pub key : Row → ℕ
key (int n ∷ row) = n
key row = 0

abbrev pub reference : Row → ℕ
reference (v ∷ int n ∷ row) = n
reference row = 0

abbrev pub refers : Option (List Row) → List Row → Bool
refers none rows = false
refers (some known) rows = all (λ r. contains (reference r) (map key known)) rows

abbrev pub references_hold : Table → List Row → Db → Bool
references_hold t rows db = elim (parent t) [ none ↦ true | some p ↦ refers (get p db) rows ]

abbrev pub is_there : Option (List Row) → Bool
is_there none = false
is_there (some rows) = true

-- A statement, and the database after it; `none` is an error.
pub data Step : Type 0 where
  drop_if_exists create : Table → Step
  insert : Table → List Row → Step

unfoldable pub apply : Step → Db → Option Db
apply (drop_if_exists t) db = elim (child t) [
  | none ↦ some (set t none db)
  | some c ↦ if is_there (get t db) && is_there (get c db) then none else some (set t none db)
]
apply (create t) db = if is_there (get t db) then none else elim (parent t) [
  | none ↦ some (set t (some []) db)
  | some p ↦ if is_there (get p db) then some (set t (some []) db) else none
]
apply (insert t rows) db = elim (get t db) [
  | none ↦ none
  | some old ↦
      if all (fits (columns t)) rows
        && distinct (map key (old ++ rows))
        && references_hold t rows db
      then some (set t (some (old ++ rows)) db)
      else none
]

unfoldable pub run : List Step → Db → Option Db
run [] db = some db
run (x ∷ xs) db = elim (apply x db) [ none ↦ none | some e ↦ run xs e ]

-- The data set as tables.
abbrev pub rows_of : SyntheticDataset → Table → List Row
rows_of d products_table = map product_row d.products
rows_of d orders_table = map order_row d.orders
rows_of d settlements_table = map settlement_row d.settlements

abbrev pub db_of : SyntheticDataset → Db
db_of d = record {
  products = some (map product_row d.products);
  orders = some (map order_row d.orders);
  settlements = some (map settlement_row d.settlements);
}

-- The steps of every seed script.
abbrev pub steps_of : SyntheticDataset → List Step
steps_of d =
    drop_if_exists settlements_table
    ∷ drop_if_exists orders_table
    ∷ drop_if_exists products_table
    ∷ create products_table
    ∷ create orders_table
    ∷ create settlements_table
    ∷ insert products_table (map product_row d.products)
    ∷ insert orders_table (map order_row d.orders)
    ∷ insert settlements_table (map settlement_row d.settlements)
    ∷ []
