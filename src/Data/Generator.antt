-- ===== src/Data/Generator.antt =====
-- data/generator.py: the data set, from any source of random draws. Amounts are whole cents, and
-- dates are day numbers.
pub mod Books
pub mod Coherent
pub mod Returns
use open_warehouse_agent.Py.Str.{Str, str, str_eq}
use open_warehouse_agent.Py.Result.{Exc, key_error, Result, ok, err}
use open_warehouse_agent.Py.Exec.{Exec, pure, lift, ◌>>=◌}
use open_warehouse_agent.Base.{
  ℕ, zero, suc, ◌+◌, ◌-◌, ◌*◌, ◌/◌, ◌%◌, ◌≤◌, ◌<◌, ltb, leb, ◌==◌, if◌then◌else◌, ◌≡◌, refl, sym,
  ap, ◌∙◌, ◌≢◌, ◌↔◌, ◌⊎◌, inl, inr, Bool, true, false, not, ◌&&◌, ◌||◌, Option, none, some, List,
  [], ◌∷◌, ◌++◌, map, append_assoc, append-nil, map-append, arith, length, take, get_elem?,
  length-append, length-take, length-map, All, All-append, All-map, Bool-cases, Option-cases,
  or_default, is_some, ltb→lt, leb→le, ==_iff, subst, fun_ext,
}

abbrev pub channels : List Str
channels = str "stripe" ∷ str "paypal" ∷ str "amazon" ∷ []

abbrev pub categories : List Str
categories =
    str "supplements" ∷ str "skincare" ∷ str "apparel" ∷ str "electronics" ∷ str "home" ∷ []

-- `FEE_RATE`, in thousandths.
abbrev pub fee_rates : List (Str × ℕ)
fee_rates = (str "stripe", 29) ∷ (str "paypal", 34) ∷ (str "amazon", 150) ∷ []

pub record Product : Type 0 where
  pub product_id : ℕ
  pub name : Str
  pub category : Str

pub record Order : Type 0 where
  pub order_id : ℕ
  pub product_id : ℕ
  pub customer_email : Str
  pub channel : Str
  pub order_amount : ℕ
  pub order_date : ℕ

pub record Settlement : Type 0 where
  pub settlement_id : ℕ
  pub order_id : ℕ
  pub channel : Str
  pub gross_amount : ℕ
  pub fee_amount : ℕ
  pub net_amount : ℕ
  pub settlement_date : ℕ

pub record SyntheticDataset : Type 0 where
  pub products : List Product
  pub orders : List Order
  pub settlements : List Settlement

-- The draws from `random.Random` and `Faker`, which share one state here. `randint` is given a range
-- that is not empty; `empty_range` is what it raises otherwise. `amount` is
-- `round(rng.uniform(15, 250), 2)`, `settles` is `rng.random() < 0.9`, `fee` is the product of a rate
-- and an amount, rounded to cents, and `repr` is that of a text.
pub record Draws : Type 1 where
  pub State : Type 0
  pub choice : {A : Type 0} → List A → Exec State A
  pub randint : ℕ → ℕ → Exec State ℕ
  pub empty_range : ℕ → ℕ → Exc
  pub amount : Exec State ℕ
  pub settles : Exec State Bool
  pub catch_phrase : Exec State Str
  pub email : Exec State Str
  pub fee : ℕ → ℕ → ℕ
  pub repr : Str → Str

-- The variables of the loop over the orders.
pub record Ledger : Type 0 where
  pub orders : List Order
  pub settlements : List Settlement
  pub settlement_id : ℕ

module _ (R : Draws) where
  unfoldable pub product_of : ℕ → Exec R.State Product
  product_of i = do
    name ← R.catch_phrase
    category ← R.choice categories
    pure (record { product_id = i; name = name; category = category })

  -- `[Product(...) for i in range(i, i + n)]`
  unfoldable pub products_from : ℕ → ℕ → Exec R.State (List Product)
  products_from i zero = pure []
  products_from i (suc n) = do p ← product_of i; rest ← products_from (i + 1) n; pure (p ∷ rest)

  -- `start_date + timedelta(days=rng.randint(0, span_days))`
  unfoldable pub order_day : ℕ → ℕ → Exec R.State ℕ
  order_day start_date end_date =
      if leb start_date end_date
      then (do days ← R.randint 0 (end_date - start_date); pure (start_date + days))
      else (λ s. (err (R.empty_range start_date end_date), s))

  unfoldable pub order_of : List Product → ℕ → ℕ → ℕ → Exec R.State Order
  order_of products start_date end_date order_id = do
    product ← R.choice products
    channel ← R.choice channels
    order_date ← order_day start_date end_date
    order_amount ← R.amount
    customer_email ← R.email
    pure (record {
      order_id = order_id;
      product_id = product.product_id;
      customer_email = customer_email;
      channel = channel;
      order_amount = order_amount;
      order_date = order_date;
    })

  -- `rates[channel]`
  unfoldable pub rate_in : Str → List (Str × ℕ) → Result ℕ
  rate_in channel [] = err (key_error (R.repr channel))
  rate_in channel (r ∷ rates) = if str_eq channel r.0 then ok r.1 else rate_in channel rates

  -- The settlement of an order at the rate of its channel, `days` after it.
  abbrev pub settlement_of : Order → ℕ → ℕ → ℕ → Settlement
  settlement_of o settlement_id rate days =
      let fee_amount = R.fee rate o.order_amount in
      record {
        settlement_id = settlement_id;
        order_id = o.order_id;
        channel = o.channel;
        gross_amount = o.order_amount;
        fee_amount = fee_amount;
        net_amount = o.order_amount - fee_amount;
        settlement_date = o.order_date + days;
      }

  -- `if rng.random() < 0.9:`
  unfoldable pub settle : Bool → Order → Ledger → Exec R.State Ledger
  settle true o l = do
    rate ← lift (rate_in o.channel fee_rates)
    days ← R.randint 1 5
    pure (record l {
      settlements = l.settlements ++ (settlement_of o l.settlement_id rate days ∷ []);
      settlement_id = l.settlement_id + 1;
    })
  settle false o l = pure l

  -- One round of the loop.
  unfoldable pub place : List Product → ℕ → ℕ → ℕ → Ledger → Exec R.State Ledger
  place products start_date end_date order_id l = do
    o ← order_of products start_date end_date order_id
    settles ← R.settles
    settle settles o (record l { orders = l.orders ++ (o ∷ []) })

  -- `for order_id in range(order_id, order_id + n)`
  unfoldable pub place_all : List Product → ℕ → ℕ → ℕ → ℕ → Ledger → Exec R.State Ledger
  place_all products start_date end_date order_id zero l = pure l
  place_all products start_date end_date order_id (suc n) l = do
    next ← place products start_date end_date order_id l
    place_all products start_date end_date (order_id + 1) n next

  unfoldable pub generate : ℕ → ℕ → ℕ → ℕ → Exec R.State SyntheticDataset
  generate num_products num_orders start_date end_date = do
    products ← products_from 1 num_products
    l ←
        place_all products start_date end_date 1 num_orders
          (record { orders = []; settlements = []; settlement_id = 1 })
    pure (record { products = products; orders = l.orders; settlements = l.settlements })

  -- `generate()`, from the state that `SEED` gives: 20 products and 600 orders in 2024, whose first
  -- and last day have these numbers.
  unfoldable pub generate_default : R.State → Result SyntheticDataset
  unfolding generate
  generate_default seeded = (generate 20 600 738886 739251 seeded).0
