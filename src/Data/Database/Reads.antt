-- ===== src/Data/Database/Reads.antt =====
-- Reading the tables back: the data set that a database holds.
use open_warehouse_agent.Data.Generator.{Product, Order, Settlement, SyntheticDataset}
use open_warehouse_agent.Data.Rows.{text, int, amount, day, product_row, order_row, settlement_row}
use open_warehouse_agent.Data.Database.{Row, Db, db_of}
use open_warehouse_agent.Base.{◌≡◌, refl, Option, none, some, List, [], ◌∷◌, map}

-- A row of the table `products`: product_id, name, category.
unfoldable pub read_product : Row → Option Product
read_product (int i ∷ text n ∷ text c ∷ []) =
    some (record { product_id = i; name = n; category = c })
read_product row = none

-- A row of the table `orders`: order_id, product_id, customer_email, channel, order_amount,
-- order_date.
unfoldable pub read_order : Row → Option Order
read_order (int i ∷ int p ∷ text e ∷ text c ∷ amount a ∷ day d ∷ []) = some (record {
  order_id = i;
  product_id = p;
  customer_email = e;
  channel = c;
  order_amount = a;
  order_date = d;
})
read_order row = none

-- A row of the table `settlements`: settlement_id, order_id, channel, gross_amount, fee_amount,
-- net_amount, settlement_date.
unfoldable pub read_settlement : Row → Option Settlement
read_settlement (int i ∷ int o ∷ text c ∷ amount g ∷ amount f ∷ amount n ∷ day d ∷ []) =
    some (record {
      settlement_id = i;
      order_id = o;
      channel = c;
      gross_amount = g;
      fee_amount = f;
      net_amount = n;
      settlement_date = d;
    })
read_settlement row = none

abbrev with_rest : {A : Type 0} → Option A → Option (List A) → Option (List A)
with_rest (some a) (some rest) = some (a ∷ rest)
with_rest a rest = none

-- Every row is read.
unfoldable pub read_rows : {A : Type 0} → (Row → Option A) → List Row → Option (List A)
read_rows read [] = some []
read_rows read (r ∷ rows) = with_rest (read r) (read_rows read rows)

abbrev read_table : {A : Type 0} → (Row → Option A) → Option (List Row) → Option (List A)
read_table read none = none
read_table read (some rows) = read_rows read rows

abbrev data_set_of :
    Option (List Product) → Option (List Order) → Option (List Settlement) → Option SyntheticDataset
data_set_of (some ps) (some os) (some ss) =
    some (record { products = ps; orders = os; settlements = ss })
data_set_of ps os ss = none

-- The data set of a database whose three tables are there, with rows that read.
unfoldable pub read_db : Db → Option SyntheticDataset
read_db db =
    data_set_of (read_table read_product db.products) (read_table read_order db.orders)
      (read_table read_settlement db.settlements)

read_rows-map :
    {A : Type 0} (read : Row → Option A) (write : A → Row)
    → ((a : A) → read (write a) ≡ some a)
    → (xs : List A) → read_rows read (map write xs) ≡ some xs
unfolding read_rows
read_rows-map read write h [] = refl
read_rows-map read write h (x ∷ xs) = rw (h x, read_rows-map read write h xs) refl

pub read_db-db_of : (d : SyntheticDataset) → read_db (db_of d) ≡ some d
unfolding read_db
read_db-db_of d =
    rw
      (
        read_rows-map read_product product_row (λ p. unfold read_product in refl) d.products,
        read_rows-map read_order order_row (λ o. unfold read_order in refl) d.orders,
        read_rows-map read_settlement settlement_row (λ s. unfold read_settlement in refl)
            d.settlements,
      )
      refl
