-- ===== src/Data/Generator/Coherent.antt =====
-- Every generated data set is coherent.
use open_warehouse_agent.Py.Str.{Str, str_eq}
use open_warehouse_agent.Py.Result.{ok}
use open_warehouse_agent.Py.Exec.{Leaves, continue-Leaves, Leaves_of_ok}
use open_warehouse_agent.Data.Generator.{
  channels, categories, Product, Order, SyntheticDataset, Draws, Ledger, product_of, products_from,
  order_day, order_of, fee_rates, rate_in, settlement_of, settle, place, place_all, generate,
}
use open_warehouse_agent.Data.Generator.Books.{
  Some, Some-append_last, IsLawful, KeyIn, IsPlaced, Settles, settlement_key, KeepsBooks,
  IsCoherent, anything, KeepsBooks-order, KeepsBooks-settlement, KeepsBooks-in_flight,
  length-numbered, product_key,
}
use open_warehouse_agent.Base.Distinct.{count, from, from_one}
use open_warehouse_agent.Base.{
  ℕ, zero, suc, ◌+◌, ◌-◌, ◌≤◌, leb, ◌≡◌, refl, ◌∙◌, inl, inr, Bool, true, false, List, [], ◌∷◌,
  ◌++◌, map, arith, All, All-map, Bool-cases, subst,
}

module _ (R : Draws) (L : IsLawful R) where
  product_of-key :
      (i : ℕ) (s : R.State) → Leaves (λ p t. p.product_id ≡ i) (λ t. Unit {0}) (product_of R i s)
  unfolding product_of
  product_of-key i s =
      continue-Leaves (λ a t. Unit {0}) _ _ (R.catch_phrase s) _ (anything (R.catch_phrase s))
        λ name t _.
          continue-Leaves (λ a t. Unit {0}) _ _ (R.choice categories t) _
            (anything (R.choice categories t)) λ c u _. refl

  products_from-keys :
      (i n : ℕ) (s : R.State)
      → Leaves
          (λ ps t. All (KeyIn i n) ps × (map product_key ps ≡ from i n))
          (λ t. Unit {0})
          (products_from R i n s)
  unfolding products_from from
  products_from-keys i zero s = (tt, refl)
  products_from-keys i (suc n) s =
      continue-Leaves (λ p t. p.product_id ≡ i) _ _ (product_of R i s) _ (product_of-key i s)
        λ p t e.
          continue-Leaves (λ ps t. All (KeyIn (i + 1) n) ps × (map product_key ps ≡ from (i + 1) n))
            _ _ (products_from R (i + 1) n t) _ (products_from-keys (i + 1) n t)
            λ ps u (h, keys). (
              (
                (omega (arith, e), omega (arith, e)),
                All-map (KeyIn (i + 1) n) (KeyIn i (suc n)) ps
                    (λ q k. (omega (arith, k), omega (arith, k))) h,
              ),
              ground (arith, keys),
            )

  order_day-in :
      (a b : ℕ) (s : R.State)
      → Leaves (λ d t. (a ≤ d) × (d ≤ b)) (λ t. Unit {0}) (order_day R a b s)
  unfolding order_day
  order_day-in a b s = elim (Bool-cases (leb a b)) [
    | inl e ↦ rw e (
        continue-Leaves (λ d t. (0 ≤ d) × (d ≤ b - a)) _ _ (R.randint 0 (b - a) s) _
          (L.randint_in 0 (b - a) s) λ d t h. (omega arith, ground arith))
    | inr e ↦ rw e tt
  ]

  order_of-IsPlaced :
      (products : List Product) (n a b k : ℕ) (s : R.State)
      → All (KeyIn 1 n) products
      → Leaves
          (λ o t. (o.order_id ≡ k) × IsPlaced n a b o)
          (λ t. Unit {0})
          (order_of R products a b k s)
  unfolding order_of
  order_of-IsPlaced products n a b k s h =
      continue-Leaves (λ p t. KeyIn 1 n p) _ _ (R.choice products s) _
        (L.choice_of (KeyIn 1 n) products s h)
        λ p t key.
          continue-Leaves (λ c t. Some (λ x. c ≡ x) channels) _ _ (R.choice channels t) _
            (L.choice_of (λ c. Some (λ x. c ≡ x) channels) channels t
              (inl refl, (inr (inl refl), (inr (inr (inl refl)), tt))))
            λ c u one.
              continue-Leaves (λ d t. (a ≤ d) × (d ≤ b)) _ _ (order_day R a b u) _
                (order_day-in a b u)
                λ d v day.
                  continue-Leaves (λ x t. (1500 ≤ x) × (x ≤ 25000)) _ _ (R.amount v) _
                    (L.amount_in v)
                    λ x w range.
                      continue-Leaves (λ x t. Unit {0}) _ _ (R.email w) _ (anything (R.email w))
                        λ m z _.
                          (refl, (key.0, omega (arith, key), one, day.0, day.1, range.0, range.1))

  -- A rate that is read is one of those that there are.
  rate_in-le :
      (channel : Str) (rates : List (Str × ℕ)) (s : R.State)
      → All (λ r. r.1 ≤ 1000) rates
      → Leaves (λ r t. r ≤ 1000) (λ t. Unit {0}) (rate_in R channel rates, s)
  unfolding rate_in
  rate_in-le channel [] s h = tt
  rate_in-le channel (r ∷ rates) s h = elim (Bool-cases (str_eq channel r.0)) [
    | inl e ↦ rw e h.0
    | inr e ↦ rw e (rate_in-le channel rates s h.1)
  ]

  settle-KeepsBooks :
      (n a b j : ℕ) (now : Bool) (o : Order) (front : List Order) (l : Ledger) (s : R.State)
      → l.orders ≡ front ++ (o ∷ [])
      → o.order_id ≡ suc j
      → KeepsBooks n a b (suc j) j l
      → Leaves
          (λ next t. KeepsBooks n a b (suc j) (suc j) next)
          (λ t. Unit {0})
          (settle R now o l s)
  unfolding settle
  settle-KeepsBooks n a b j false o front l s e f h = KeepsBooks-in_flight n a b j l h
  settle-KeepsBooks n a b j true o front l s e f h =
      continue-Leaves (λ r t. r ≤ 1000) _ _ (rate_in R o.channel fee_rates, s) _
        (rate_in-le o.channel fee_rates s (omega arith, (omega arith, (omega arith, tt))))
        λ rate t rated.
          continue-Leaves (λ d t. (1 ≤ d) × (d ≤ 5)) _ _ (R.randint 1 5 t) _ (L.randint_in 1 5 t)
            λ d u day.
              KeepsBooks-settlement n a b j l (settlement_of R o l.settlement_id rate d) h refl f (
                rw e (
                  Some-append_last (Settles (settlement_of R o l.settlement_id rate d)) front o (
                    refl,
                    refl,
                    refl,
                    omega (arith, L.fee_le rate o.order_amount rated),
                    omega (arith, day),
                    omega (arith, day),
                  )))

  place-KeepsBooks :
      (products : List Product) (n a b k i : ℕ) (l : Ledger) (s : R.State)
      → i ≡ suc k
      → All (KeyIn 1 n) products
      → KeepsBooks n a b k k l
      → Leaves
          (λ next t. KeepsBooks n a b (suc k) (suc k) next)
          (λ t. Unit {0})
          (place R products a b i l s)
  unfolding place
  place-KeepsBooks products n a b k i l s f known h =
      continue-Leaves (λ o t. (o.order_id ≡ i) × IsPlaced n a b o) _ _ (order_of R products a b i s)
        _ (order_of-IsPlaced products n a b i s known)
        λ o t placed.
          continue-Leaves (λ x t. Unit {0}) _ _ (R.settles t) _ (anything (R.settles t))
            λ now u _.
              settle-KeepsBooks n a b k now o l.orders _ u refl (placed.0 ∙ f)
                (KeepsBooks-order n a b k l o h (placed.0 ∙ f) placed.1)

  place_all-KeepsBooks :
      (products : List Product) (n a b k i more total : ℕ) (l : Ledger) (s : R.State)
      → k + more ≡ total
      → i ≡ suc k
      → All (KeyIn 1 n) products
      → KeepsBooks n a b k k l
      → Leaves
          (λ next t. KeepsBooks n a b total total next)
          (λ t. Unit {0})
          (place_all R products a b i more l s)
  unfolding place_all
  place_all-KeepsBooks products n a b k i zero total l s e f known h =
      subst (λ x. KeepsBooks n a b x x l) (omega (arith, e)) h
  place_all-KeepsBooks products n a b k i (suc more) total l s e f known h =
      continue-Leaves (λ next t. KeepsBooks n a b (suc k) (suc k) next) _ _
        (place R products a b i l s) _ (place-KeepsBooks products n a b k i l s f known h)
        λ next t books.
          place_all-KeepsBooks products n a b (suc k) (i + 1) more total next t (omega (arith, e))
            (omega (arith, f)) known books

  generated :
      (n k a b : ℕ) (s : R.State)
      → Leaves (λ d t. IsCoherent n k a b d) (λ t. Unit {0}) (generate R n k a b s)
  unfolding generate
  generated n k a b s =
      continue-Leaves (λ ps t. All (KeyIn 1 n) ps × (map product_key ps ≡ from 1 n)) _ _
        (products_from R 1 n s) _ (products_from-keys 1 n s)
        λ ps t (known, product_keys).
          continue-Leaves (λ l t. KeepsBooks n a b k k l) _ _
            (place_all R ps a b 1 k (record { orders = []; settlements = []; settlement_id = 1 }) t)
            _
            (place_all-KeepsBooks ps n a b 0 1 k k _ t (omega arith) (omega arith) known
              (0, refl, omega arith, unfold count in refl, unfold count in refl, tt, tt, tt, refl))
            λ l u (m, e, le, keys, settled, placed, refs, past, once).
              let len = length-numbered m l.settlements settled in
              (
                product_keys ∙ from_one n,
                keys,
                subst (λ x. map settlement_key l.settlements ≡ count x) len settled,
                omega (arith, len, le),
                placed,
                refs,
                once,
              )

  -- With lawful draws, every data set that is generated is coherent: products, orders and
  -- settlements are numbered from 1 without a gap, every order is of a product and a channel that
  -- there are, in the span of dates and of 15 to 250 dollars, and every settlement is of an order,
  -- with its channel and its amount, which fee and net amount add up to, one to five days after it;
  -- no order is settled twice.
  pub generate-IsCoherent :
      (num_products num_orders start_date end_date : ℕ) (s : R.State) (d : SyntheticDataset)
      → (generate R num_products num_orders start_date end_date s).0 ≡ ok d
      → IsCoherent num_products num_orders start_date end_date d
  generate-IsCoherent n k a b s d h =
      Leaves_of_ok (λ d t. IsCoherent n k a b d) (λ t. Unit {0}) (generate R n k a b s) d
        (generated n k a b s) h
