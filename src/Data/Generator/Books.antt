-- ===== src/Data/Generator/Books.antt =====
-- A data set as a database: its keys, its references, its sums and its dates.
use open_warehouse_agent.Py.Result.{Result, ok, err}
use open_warehouse_agent.Py.Exec.{Leaves}
use open_warehouse_agent.Data.Generator.{
  channels, Product, Order, Settlement, SyntheticDataset, Draws, Ledger,
}
use open_warehouse_agent.Base.Distinct.{
  distinct, count, length-count, distinct-append_last, not_contains_above,
}
use open_warehouse_agent.Base.{
  ℕ, suc, ◌+◌, ◌≤◌, ◌<◌, ◌≡◌, sym, ap, ◌∙◌, ◌⊎◌, inl, inr, true, List, [], ◌∷◌, ◌++◌, map,
  map-append, arith, length, length-map, All, All-append, All-map,
}

-- Some element satisfies the predicate.
abbrev pub Some {ℓ} : {A : Type ℓ} → (A → Type 0) → List A → Type 0
Some P [] = ⊥
Some P (x ∷ xs) = P x ⊎ Some P xs

Some-append {ℓ} : {A : Type ℓ} (P : A → Type 0) (xs ys : List A) → Some P xs → Some P (xs ++ ys)
Some-append P [] ys h = absurd h
Some-append P (x ∷ xs) ys (inl h) = inl h
Some-append P (x ∷ xs) ys (inr h) = inr (Some-append P xs ys h)

pub Some-append_last {ℓ} :
    {A : Type ℓ} (P : A → Type 0) (xs : List A) (y : A) → P y → Some P (xs ++ (y ∷ []))
Some-append_last P [] y h = inl h
Some-append_last P (x ∷ xs) y h = inr (Some-append_last P xs y h)

-- What is relied on of the draws: a choice is one of the list, a number is in its range, an amount is
-- between 15 and 250 dollars, and a fee is at most its amount if its rate is at most one.
pub record IsLawful (R : Draws) : Type 1 where
  pub choice_of :
      {A : Type 0} (P : A → Type 0) (xs : List A) (s : R.State)
      → All P xs
      → Leaves (λ a t. P a) (λ t. Unit {0}) (R.choice xs s)
  pub randint_in :
      (a b : ℕ) (s : R.State) → Leaves (λ d t. (a ≤ d) × (d ≤ b)) (λ t. Unit {0}) (R.randint a b s)
  pub amount_in :
      (s : R.State) → Leaves (λ x t. (1500 ≤ x) × (x ≤ 25000)) (λ t. Unit {0}) (R.amount s)
  pub fee_le : (rate amount : ℕ) → rate ≤ 1000 → R.fee rate amount ≤ amount

-- A product's key is one of the next `n` from `i`.
abbrev pub KeyIn : ℕ → ℕ → Product → Type 0
KeyIn i n p = (i ≤ p.product_id) × (p.product_id < i + n)

-- An order is of a product that there is, over a channel that there is, in the span of dates, and of
-- 15 to 250 dollars.
abbrev pub IsPlaced : ℕ → ℕ → ℕ → Order → Type 0
IsPlaced n start_date end_date o =
    (1 ≤ o.product_id)
    × (o.product_id ≤ n)
    × Some (λ c. o.channel ≡ c) channels
    × (start_date ≤ o.order_date)
    × (o.order_date ≤ end_date)
    × (1500 ≤ o.order_amount)
    × (o.order_amount ≤ 25000)

-- A settlement is of this order: the gross amount is the order's, fee and net add up to it, and it
-- comes one to five days after.
abbrev pub Settles : Settlement → Order → Type 0
Settles s o =
    (s.order_id ≡ o.order_id)
    × (s.channel ≡ o.channel)
    × (s.gross_amount ≡ o.order_amount)
    × (s.net_amount + s.fee_amount ≡ s.gross_amount)
    × (o.order_date + 1 ≤ s.settlement_date)
    × (s.settlement_date ≤ o.order_date + 5)

abbrev pub product_key : Product → ℕ
product_key p = p.product_id

abbrev pub order_key : Order → ℕ
order_key o = o.order_id

abbrev pub settlement_key : Settlement → ℕ
settlement_key s = s.settlement_id

abbrev pub settled_order : Settlement → ℕ
settled_order s = s.order_id

-- The orders are numbered 1 to `k`, and the first `j` of them had their chance to be settled: the
-- settlements are numbered 1 to one less than the next number, and each is of another one of those.
abbrev pub KeepsBooks : ℕ → ℕ → ℕ → ℕ → ℕ → Ledger → Type 0
KeepsBooks n start_date end_date k j l =
    (m : ℕ) × (l.settlement_id ≡ suc m)
    × (m ≤ j)
    × (map order_key l.orders ≡ count k)
    × (map settlement_key l.settlements ≡ count m)
    × All (IsPlaced n start_date end_date) l.orders
    × All (λ s. Some (Settles s) l.orders) l.settlements
    × All (λ i. i ≤ j) (map settled_order l.settlements)
    × (distinct (map settled_order l.settlements) ≡ true)

-- The data set as a database with keys and references.
abbrev pub IsCoherent : ℕ → ℕ → ℕ → ℕ → SyntheticDataset → Type 0
IsCoherent n k start_date end_date d =
    (map product_key d.products ≡ count n)
    × (map order_key d.orders ≡ count k)
    × (map settlement_key d.settlements ≡ count (length d.settlements))
    × (length d.settlements ≤ k)
    × All (IsPlaced n start_date end_date) d.orders
    × All (λ s. Some (Settles s) d.orders) d.settlements
    × (distinct (map settled_order d.settlements) ≡ true)

pub anything : {S A : Type 0} (x : Result A × S) → Leaves (λ a s. Unit {0}) (λ s. Unit {0}) x
anything (ok a, s) = tt
anything (err e, s) = tt

pub KeepsBooks-order :
    (n start_date end_date k : ℕ) (l : Ledger) (o : Order)
    → KeepsBooks n start_date end_date k k l
    → o.order_id ≡ suc k
    → IsPlaced n start_date end_date o
    → KeepsBooks n start_date end_date (suc k) k (record l { orders = l.orders ++ (o ∷ []) })
unfolding count
KeepsBooks-order n a b k l o (m, e, le, keys, settled, placed, refs, past, once) h p = (
  m,
  e,
  le,
  ground (arith, map-append order_key l.orders (o ∷ [])),
  settled,
  All-append (IsPlaced n a b) l.orders (o ∷ []) placed (p, tt),
  All-map (λ s. Some (Settles s) l.orders) (λ s. Some (Settles s) (l.orders ++ (o ∷ [])))
      l.settlements (λ s. Some-append (Settles s) l.orders (o ∷ [])) refs,
  past,
  once,
)

-- One more settlement, of the order just placed.
pub KeepsBooks-settlement :
    (n start_date end_date j : ℕ) (l : Ledger) (s : Settlement)
    → KeepsBooks n start_date end_date (suc j) j l
    → s.settlement_id ≡ l.settlement_id
    → s.order_id ≡ suc j
    → Some (Settles s) l.orders
    → KeepsBooks n start_date end_date
        (suc j)
        (suc j)
        (record l { settlements = l.settlements ++ (s ∷ []); settlement_id = l.settlement_id + 1 })
unfolding count
KeepsBooks-settlement n a b j l s (m, e, le, keys, settled, placed, refs, past, once) f g h = (
  suc m,
  omega (arith, e),
  omega (arith, le),
  keys,
  ground (arith, map-append settlement_key l.settlements (s ∷ [])),
  placed,
  All-append (λ x. Some (Settles x) l.orders) l.settlements (s ∷ []) refs (h, tt),
  rw (map-append settled_order l.settlements (s ∷ [])) (
      All-append (λ i. i ≤ suc j) (map settled_order l.settlements) (s.order_id ∷ [])
        (All-map (λ i. i ≤ j) (λ i. i ≤ suc j) (map settled_order l.settlements)
          (λ i q. omega (arith, q)) past)
        (omega (arith, g), tt)),
  rw (map-append settled_order l.settlements (s ∷ [])) (
      distinct-append_last (map settled_order l.settlements) s.order_id once (
        not_contains_above j s.order_id (map settled_order l.settlements) past (omega (arith, g)))),
)

-- No settlement of the order just placed.
pub KeepsBooks-in_flight :
    (n start_date end_date j : ℕ) (l : Ledger)
    → KeepsBooks n start_date end_date (suc j) j l
    → KeepsBooks n start_date end_date (suc j) (suc j) l
KeepsBooks-in_flight n a b j l (m, e, le, keys, settled, placed, refs, past, once) = (
  m,
  e,
  omega (arith, le),
  keys,
  settled,
  placed,
  refs,
  All-map (λ i. i ≤ j) (λ i. i ≤ suc j) (map settled_order l.settlements) (λ i q. omega (arith, q))
      past,
  once,
)

pub length-numbered :
    (m : ℕ) (xs : List Settlement) → map settlement_key xs ≡ count m → m ≡ length xs
length-numbered m xs h = sym (length-count m) ∙ ap length (sym h) ∙ length-map xs settlement_key
