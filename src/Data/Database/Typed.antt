-- ===== src/Data/Database/Typed.antt =====
-- The rows of a generated data set have the types of the columns of their tables.
use open_warehouse_agent.Data.Generator.{Draws, SyntheticDataset, generate}
use open_warehouse_agent.Data.Generator.Books.{IsCoherent, IsLawful}
use open_warehouse_agent.Data.Generator.Coherent.{generate-IsCoherent}
use open_warehouse_agent.Data.Database.{
  Table, products_table, orders_table, settlements_table, columns, fits, all, rows_of,
}
use open_warehouse_agent.Data.Database.Fills.{products-fit, orders-fit, settlements-fit}
use open_warehouse_agent.Py.Result.{ok}
use open_warehouse_agent.Base.{ℕ, ◌<◌, ◌≡◌, true}

rows-fit :
    (n k a b : ℕ) (d : SyntheticDataset)
    → IsCoherent n k a b d
    → n < 0x80000000
    → k < 0x80000000
    → (t : Table) → all (fits (columns t)) (rows_of d t) ≡ true
rows-fit n k a b d c h l products_table = products-fit n k a b d c h l
rows-fit n k a b d c h l orders_table = orders-fit n k a b d c h l
rows-fit n k a b d c h l settlements_table = settlements-fit n k a b d c h l

-- With lawful draws, and numbers of products and of orders that an INTEGER holds: every row of a
-- generated data set fits the columns of its table, in their number and their types; each number is
-- one that an INTEGER holds, and each amount one that a DECIMAL(10,2) holds.
pub generate-fits :
    (R : Draws) (num_products num_orders start_date end_date : ℕ) (s : R.State)
    → (d : SyntheticDataset) → IsLawful R
    → num_products < 0x80000000
    → num_orders < 0x80000000
    → (generate R num_products num_orders start_date end_date s).0 ≡ ok d
    → (t : Table) → all (fits (columns t)) (rows_of d t) ≡ true
generate-fits R n k a b s d lawful few_products few_orders h =
    rows-fit n k a b d (generate-IsCoherent R lawful n k a b s d h) few_products few_orders
