-- ===== src/Data/Rows.antt =====
-- data/seed_*.py: the data set as rows of the three tables, the same in each of the scripts.
use open_warehouse_agent.Data.Generator.{Product, Order, Settlement}
use open_warehouse_agent.Py.Str.{Str}
use open_warehouse_agent.Base.{ℕ, List, [], ◌∷◌}

-- A value of a row: a text, an integer, an amount of cents, or the number of a day.
pub data Value : Type 0 where
  text : Str → Value
  int : ℕ → Value
  amount : ℕ → Value
  day : ℕ → Value

abbrev pub product_row : Product → List Value
product_row p = int p.product_id ∷ text p.name ∷ text p.category ∷ []

abbrev pub order_row : Order → List Value
order_row o =
    int o.order_id
    ∷ int o.product_id
    ∷ text o.customer_email
    ∷ text o.channel
    ∷ amount o.order_amount
    ∷ day o.order_date
    ∷ []

abbrev pub settlement_row : Settlement → List Value
settlement_row s =
    int s.settlement_id
    ∷ int s.order_id
    ∷ text s.channel
    ∷ amount s.gross_amount
    ∷ amount s.fee_amount
    ∷ amount s.net_amount
    ∷ day s.settlement_date
    ∷ []
