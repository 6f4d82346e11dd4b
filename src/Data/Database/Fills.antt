-- ===== src/Data/Database/Fills.antt =====
-- The steps of the seed scripts succeed on any database, and leave the data set in it.
use open_warehouse_agent.Data.Generator.{Product, Order, Settlement, SyntheticDataset}
use open_warehouse_agent.Data.Generator.Books.{
  IsPlaced, Settles, Some, product_key, order_key, settlement_key, IsCoherent,
}
use open_warehouse_agent.Data.Rows.{product_row, order_row, settlement_row}
use open_warehouse_agent.Data.Database.{
  Db, products_table, orders_table, settlements_table, columns, fits, all, key, refers, apply, run,
  db_of, steps_of,
}
use open_warehouse_agent.Base.Distinct.{contains, count, count-le, distinct-count, contains-count}
use open_warehouse_agent.Base.{
  ℕ, ◌≤◌, ◌<◌, ◌≡◌, refl, ap, inl, inr, Bool, true, some, List, [], ◌∷◌, map, arith, length, All,
  All-map,
}

all-map {ℓ κ} :
    {A : Type ℓ} {B : Type κ} (f : A → B) (p : B → Bool) (xs : List A)
    → All (λ a. p (f a) ≡ true) xs
    → all p (map f xs) ≡ true
all-map f p [] h = refl
all-map f p (x ∷ xs) (e, h) = ground (arith, all-map f p xs h)

-- What holds of every image holds of every element.
All-of_map {ℓ κ} :
    {A : Type ℓ} {B : Type κ} (P : B → Type 0) (f : A → B) (xs : List A)
    → All P (map f xs)
    → All (λ a. P (f a)) xs
All-of_map P f [] h = tt
All-of_map P f (x ∷ xs) (e, h) = (e, All-of_map P f xs h)

All-both {ℓ} :
    {A : Type ℓ} (P Q R : A → Type 0) (xs : List A)
    → ((a : A) → P a → Q a → R a)
    → All P xs
    → All Q xs
    → All R xs
All-both P Q R [] f h k = tt
All-both P Q R (x ∷ xs) f (p, h) (q, k) = (f x p q, All-both P Q R xs f h k)

Some-All {ℓ} :
    {A : Type ℓ} (P Q : A → Type 0) (xs : List A) → Some P xs → All Q xs → (a : A) × P a × Q a
Some-All P Q [] h k = absurd h
Some-All P Q (x ∷ xs) (inl p) (q, k) = (x, p, q)
Some-All P Q (x ∷ xs) (inr h) (q, k) = Some-All P Q xs h k

-- Numbers 1 to `n` are at most `n`.
keys-le {ℓ} :
    {A : Type ℓ} (f : A → ℕ) (xs : List A) (n : ℕ) → map f xs ≡ count n → All (λ a. f a ≤ n) xs
keys-le f xs n h = All-of_map (λ x. x ≤ n) f xs (rw h (count-le n))

key-products : (xs : List Product) → map key (map product_row xs) ≡ map product_key xs
key-products [] = refl
key-products (x ∷ xs) = ap (λ t. x.product_id ∷ t) (key-products xs)

key-orders : (xs : List Order) → map key (map order_row xs) ≡ map order_key xs
key-orders [] = refl
key-orders (x ∷ xs) = ap (λ t. x.order_id ∷ t) (key-orders xs)

key-settlements : (xs : List Settlement) → map key (map settlement_row xs) ≡ map settlement_key xs
key-settlements [] = refl
key-settlements (x ∷ xs) = ap (λ t. x.settlement_id ∷ t) (key-settlements xs)

settled-contained :
    (s : Settlement) (xs : List Order)
    → Some (Settles s) xs
    → contains s.order_id (map order_key xs) ≡ true
settled-contained s [] h = absurd h
settled-contained s (x ∷ xs) (inl h) = ground arith
settled-contained s (x ∷ xs) (inr h) = ground (arith, settled-contained s xs h)

module _ (n k start_date end_date : ℕ) (d : SyntheticDataset)
    (coherent : IsCoherent n k start_date end_date d) (few_products : n < 0x80000000)
    (few_orders : k < 0x80000000) where
  product_keys : map product_key d.products ≡ count n
  product_keys = coherent.0

  order_keys : map order_key d.orders ≡ count k
  order_keys = coherent.1

  placed : All (IsPlaced n start_date end_date) d.orders
  placed = coherent.4

  pub products-fit : all (fits (columns products_table)) (map product_row d.products) ≡ true
  products-fit = all-map product_row _ d.products (
      All-map (λ p. p.product_id ≤ n) _ d.products (λ p h. ground arith)
        (keys-le product_key d.products n product_keys))

  pub orders-fit : all (fits (columns orders_table)) (map order_row d.orders) ≡ true
  orders-fit = all-map order_row _ d.orders (
      All-both (λ o. o.order_id ≤ k) (IsPlaced n start_date end_date) _ d.orders
        (λ o h p. ground arith) (keys-le order_key d.orders k order_keys) placed)

  pub settlements-fit :
      all (fits (columns settlements_table)) (map settlement_row d.settlements) ≡ true
  settlements-fit = all-map settlement_row _ d.settlements (
      All-both (λ s. s.settlement_id ≤ length d.settlements) (λ s. Some (Settles s) d.orders) _
        d.settlements
        (λ s h p. fitting s h (
          Some-All (Settles s) _ d.orders p (
            All-both (λ o. o.order_id ≤ k) (IsPlaced n start_date end_date)
              (λ o. (o.order_id ≤ k) × (o.order_amount ≤ 25000)) d.orders (λ o l q. ground arith)
              (keys-le order_key d.orders k order_keys) placed)))
        (keys-le settlement_key d.settlements (length d.settlements) (coherent.2)) (coherent.5))
    where
      fitting :
          (s : Settlement)
          → s.settlement_id ≤ length d.settlements
          → ((o : Order) × Settles s o × ((o.order_id ≤ k) × (o.order_amount ≤ 25000)))
          → fits (columns settlements_table) (settlement_row s) ≡ true
      fitting s h (o, t, q) = ground (arith, coherent.3)

  orders-refer : refers (some (map product_row d.products)) (map order_row d.orders) ≡ true
  orders-refer =
      rw (key-products d.products, product_keys)
        (all-map order_row _ d.orders (
          All-map (IsPlaced n start_date end_date) _ d.orders
            (λ o p. contains-count o.product_id n (ground arith) (ground arith)) placed))

  settlements-refer :
      refers (some (map order_row d.orders)) (map settlement_row d.settlements) ≡ true
  settlements-refer = rw (key-orders d.orders) (
      all-map settlement_row _ d.settlements (
        All-map (λ s. Some (Settles s) d.orders) _ d.settlements
          (λ s h. settled-contained s d.orders h) (coherent.5)))

  -- The steps of the seed scripts succeed whatever was in the database before, and what is in it
  -- afterwards is the data set, with its keys, references and column types intact.
  pub run-steps_of : (db : Db) → run (steps_of d) db ≡ some (db_of d)
  unfolding run apply
  run-steps_of db = ground (
    arith,
    products-fit,
    orders-fit,
    settlements-fit,
    orders-refer,
    settlements-refer,
    key-products d.products,
    key-orders d.orders,
    key-settlements d.settlements,
    product_keys,
    order_keys,
    coherent.2,
    distinct-count n,
    distinct-count k,
    distinct-count (length d.settlements),
  )
