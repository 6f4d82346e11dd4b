-- ===== src/Data/Generator/Returns.antt =====
-- data/generator.py returns.
use open_warehouse_agent.Data.Generator.{
  Product, Order, Ledger, SyntheticDataset, Draws, channels, categories, product_of, products_from,
  order_day, order_of, settle, place, place_all, generate, fee_rates, rate_in,
}
use open_warehouse_agent.Data.Generator.Books.{Some}
use open_warehouse_agent.Py.Str.{Str}
use open_warehouse_agent.Py.Result.{Exc, Result, ok, err}
use open_warehouse_agent.Py.Exec.{Exec, pure, continue}
use open_warehouse_agent.Base.{
  ℕ, zero, suc, ◌+◌, ◌-◌, ◌≤◌, leb, ◌≡◌, refl, inl, inr, Bool, true, false, List, [], ◌∷◌, arith,
  length, All, Bool-cases,
}

-- The run returns a value with the property `Q`, or raises what is of `E`.
abbrev pub Gives : {S A : Type 0} → (Exc → Type 0) → (A → Type 0) → Result A × S → Type 0
Gives E Q (ok a, s) = Q a
Gives E Q (err e, s) = E e

continue-Gives :
    {S A B : Type 0} (E : Exc → Type 0) (Q : A → Type 0) (P : B → Type 0) (x : Result A × S)
    (f : A → Exec S B)
    → Gives E Q x
    → ((a : A) (s : S) → Q a → Gives E P (f a s))
    → Gives E P (continue x f)
continue-Gives E Q P (ok a, s) f h k = k a s h
continue-Gives E Q P (err e, s) f h k = h

-- Nothing is said of the value.
abbrev Any : {A : Type 0} → A → Type 0
Any a = Unit

any : {A : Type 0} (xs : List A) → All Any xs
any [] = tt
any (x ∷ xs) = (tt, any xs)

-- Draws that raise only what is of `E`, when they are asked for something that there is.
pub record RaiseOnly (E : Exc → Type 0) (R : Draws) : Type 1 where
  pub choice_gives :
      {A : Type 0} (P : A → Type 0) (x : A) (xs : List A) (s : R.State)
      → All P (x ∷ xs)
      → Gives E P (R.choice (x ∷ xs) s)
  pub randint_gives : (a b : ℕ) (s : R.State) → a ≤ b → Gives E (λ d. Unit {0}) (R.randint a b s)
  pub amount_gives : (s : R.State) → Gives E (λ d. Unit {0}) (R.amount s)
  pub settles_gives : (s : R.State) → Gives E (λ d. Unit {0}) (R.settles s)
  pub catch_phrase_gives : (s : R.State) → Gives E (λ d. Unit {0}) (R.catch_phrase s)
  pub email_gives : (s : R.State) → Gives E (λ d. Unit {0}) (R.email s)

module _ (E : Exc → Type 0) (R : Draws) (T : RaiseOnly E R) where
  product_of-Gives : (i : ℕ) (s : R.State) → Gives E Any (product_of R i s)
  unfolding product_of
  product_of-Gives i s =
      continue-Gives E Any Any (R.catch_phrase s) _ (T.catch_phrase_gives s) (λ name t _.
        continue-Gives E Any Any (R.choice categories t) _
          (T.choice_gives Any _ _ t (tt, (tt, (tt, (tt, (tt, tt)))))) (λ c u _. tt))

  -- As many products as asked for.
  products_from-Gives :
      (i n : ℕ) (s : R.State) → Gives E (λ ps. length ps ≡ n) (products_from R i n s)
  unfolding products_from
  products_from-Gives i zero s = refl
  products_from-Gives i (suc n) s =
      continue-Gives E Any (λ ps. length ps ≡ suc n) (product_of R i s) _ (product_of-Gives i s)
        (λ p t _.
          continue-Gives E (λ ps. length ps ≡ n) (λ ps. length ps ≡ suc n)
            (products_from R (i + 1) n t) _ (products_from-Gives (i + 1) n t)
            (λ ps u h. ground (arith, h)))

  order_day-Gives :
      (start_date end_date : ℕ) (s : R.State)
      → start_date ≤ end_date
      → Gives E Any (order_day R start_date end_date s)
  unfolding order_day
  order_day-Gives start_date end_date s h = elim (Bool-cases (leb start_date end_date)) [
    | inl e ↦ rw e (
        continue-Gives E Any Any (R.randint 0 (end_date - start_date) s) _
          (T.randint_gives 0 (end_date - start_date) s (omega arith)) (λ d t _. tt))
    | inr e ↦ absurd (ground arith)
  ]

  -- The order's channel is one of those that there are.
  abbrev HasChannel : Order → Type 0
  HasChannel o = Some (λ c. o.channel ≡ c) channels

  order_of-Gives :
      (p : Product) (ps : List Product) (start_date end_date i : ℕ) (s : R.State)
      → start_date ≤ end_date
      → Gives E HasChannel (order_of R (p ∷ ps) start_date end_date i s)
  unfolding order_of
  order_of-Gives p ps start_date end_date i s h =
      continue-Gives E Any HasChannel (R.choice (p ∷ ps) s) _
        (T.choice_gives Any p ps s (any (p ∷ ps)))
        (λ product t _.
          continue-Gives E (λ c. Some (λ x. c ≡ x) channels) HasChannel (R.choice channels t) _
            (T.choice_gives (λ c. Some (λ x. c ≡ x) channels) _ _ t
              (inl refl, (inr (inl refl), (inr (inr (inl refl)), tt))))
            (λ channel u one.
              continue-Gives E Any HasChannel (order_day R start_date end_date u) _
                (order_day-Gives start_date end_date u h)
                (λ d v _.
                  continue-Gives E Any HasChannel (R.amount v) _ (T.amount_gives v) (λ a w _.
                    continue-Gives E Any HasChannel (R.email w) _ (T.email_gives w)
                      (λ e x _. one)))))

  -- Each channel has a rate.
  rate_in-channel :
      (channel : Str)
      → Some (λ c. channel ≡ c) channels
      → (rate : ℕ) × (rate_in R channel fee_rates ≡ ok rate)
  unfolding rate_in
  rate_in-channel channel (inl e) = (29, rw e refl)
  rate_in-channel channel (inr (inl e)) = (34, rw e refl)
  rate_in-channel channel (inr (inr (inl e))) = (150, rw e refl)
  rate_in-channel channel (inr (inr (inr e))) = absurd e

  settle-Gives :
      (b : Bool) (o : Order) (l : Ledger) (s : R.State)
      → HasChannel o
      → Gives E Any (settle R b o l s)
  unfolding settle
  settle-Gives true o l s h =
      let (rate, e) = rate_in-channel o.channel h in
      rw e (
        continue-Gives E Any Any (R.randint 1 5 s) _ (T.randint_gives 1 5 s (omega arith))
          (λ d t _. tt))
  settle-Gives false o l s h = tt

  place_all-Gives :
      (p : Product) (ps : List Product) (start_date end_date i n : ℕ) (l : Ledger) (s : R.State)
      → start_date ≤ end_date
      → Gives E Any (place_all R (p ∷ ps) start_date end_date i n l s)
  unfolding place_all place
  place_all-Gives p ps start_date end_date i zero l s h = tt
  place_all-Gives p ps start_date end_date i (suc n) l s h =
      continue-Gives E Any Any (place R (p ∷ ps) start_date end_date i l s) _
        (continue-Gives E HasChannel Any (order_of R (p ∷ ps) start_date end_date i s) _
          (order_of-Gives p ps start_date end_date i s h)
          (λ o t one.
            continue-Gives E Any Any (R.settles t) _ (T.settles_gives t)
              (λ b u _. settle-Gives b o _ u one)))
        (λ l t _. place_all-Gives p ps start_date end_date (i + 1) n l t h)

  -- With draws that raise only what is of `E` when there is something to draw, a data set of at
  -- least one product, over a span of dates that is not empty, is generated with as many products
  -- as asked for, or what was raised is of `E`: no choice is of an empty list, no range is empty and
  -- no channel is without its rate.
  pub generate-Gives :
      (n k start_date end_date : ℕ) (s : R.State)
      → start_date ≤ end_date
      → Gives E
          (λ (d : SyntheticDataset). length d.products ≡ suc n)
          (generate R (suc n) k start_date end_date s)
  unfolding generate
  generate-Gives n k start_date end_date s h =
      continue-Gives E (λ ps. length ps ≡ suc n)
        (λ (d : SyntheticDataset). length d.products ≡ suc n) (products_from R 1 (suc n) s) _
        (products_from-Gives 1 (suc n) s) (λ ps t e. go ps t e)
    where
      go :
          (ps : List Product) (t : R.State)
          → length ps ≡ suc n
          → Gives E
              (λ (d : SyntheticDataset). length d.products ≡ suc n)
              (continue
                (place_all R ps start_date end_date 1 k
                  (record { orders = []; settlements = []; settlement_id = 1 })
                  t)
                (λ l.
                  pure (record { products = ps; orders = l.orders; settlements = l.settlements })))
      go [] t e = absurd (ground arith)
      go (p ∷ ps) t e =
          continue-Gives E Any (λ (d : SyntheticDataset). length d.products ≡ suc n)
            (place_all R (p ∷ ps) start_date end_date 1 k _ t) _
            (place_all-Gives p ps start_date end_date 1 k _ t h) (λ l u _. e)
