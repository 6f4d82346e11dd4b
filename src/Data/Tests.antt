-- ===== src/Data/Tests.antt =====
-- A data set from draws that are always the first of a list and the lowest of a range.
use open_warehouse_agent.Py.Str.{str}
use open_warehouse_agent.Py.Result.{Exc, index_error, value_error, ok, err}
use open_warehouse_agent.Py.Exec.{Exec, Leaves}
use open_warehouse_agent.Data.Generator.{
  Order, Settlement, SyntheticDataset, Draws, product_of, products_from, order_day, order_of,
  settle, place, place_all, generate, rate_in,
}
use open_warehouse_agent.Data.Generator.Books.{IsLawful, IsCoherent}
use open_warehouse_agent.Data.Generator.Coherent.{generate-IsCoherent}
use open_warehouse_agent.Data.Generator.Returns.{Gives, RaiseOnly, generate-Gives}
use open_warehouse_agent.Data.Rows.{text}
use open_warehouse_agent.Data.SeedDatabricks.{sql_literal}
use open_warehouse_agent.Data.SeedDatabricks.Quoted.{read_literal, read_literal-sql_literal}
use open_warehouse_agent.Data.Database.{settlements_table, columns, fits, all, rows_of}
use open_warehouse_agent.Data.Database.Typed.{generate-fits}
use open_warehouse_agent.Base.{
  ℕ, ◌*◌, ◌/◌, ◌≤◌, leb, if◌then◌else◌, ◌≡◌, refl, inl, inr, true, some, List, [], ◌∷◌, ◌++◌, arith,
  length, All, Bool-cases, leb→le,
}

abbrev first_of : {A : Type 0} → List A → Exec (Unit {0}) A
first_of [] s = (err (index_error (str "Cannot choose from an empty sequence")), s)
first_of (x ∷ xs) s = (ok x, s)

abbrev lowest : ℕ → ℕ → Exec (Unit {0}) ℕ
lowest a b s = if leb a b then (ok a, s) else (err (value_error (str "empty range")), s)

abbrev pub draws : Draws
draws = record {
  State = Unit;
  choice = first_of;
  randint = lowest;
  empty_range = λ a b. value_error (str "empty range");
  amount = λ s. (ok 10000, s);
  settles = λ s. (ok true, s);
  catch_phrase = λ s. (ok (str "serum"), s);
  email = λ s. (ok (str "a@example.com"), s);
  fee = λ rate amount. (rate * amount) / 1000;
  repr = λ s. s;
}

first_of-All :
    {A : Type 0} (P : A → Type 0) (xs : List A) (s : Unit {0})
    → All P xs
    → Leaves (λ a t. P a) (λ t. Unit {0}) (first_of xs s)
first_of-All P [] s h = tt
first_of-All P (x ∷ xs) s h = h.0

lowest-in :
    (a b : ℕ) (s : Unit {0}) → Leaves (λ d t. (a ≤ d) × (d ≤ b)) (λ t. Unit {0}) (lowest a b s)
lowest-in a b s = elim (Bool-cases (leb a b)) [
  | inl e ↦ rw e (omega arith, leb→le a b e)
  | inr e ↦ rw e tt
]

fee-le : (rate amount : ℕ) → rate ≤ 1000 → (rate * amount) / 1000 ≤ amount
fee-le rate amount h = grind arith

pub draws-IsLawful : IsLawful draws
draws-IsLawful = record {
  choice_of = first_of-All;
  randint_in = lowest-in;
  amount_in = λ s. (omega arith, omega arith);
  fee_le = fee-le;
}

abbrev order : ℕ → Order
order i = record {
  order_id = i;
  product_id = 1;
  customer_email = str "a@example.com";
  channel = str "stripe";
  order_amount = 10000;
  order_date = 100;
}

abbrev settlement : ℕ → Settlement
settlement i = record {
  settlement_id = i;
  order_id = i;
  channel = str "stripe";
  gross_amount = 10000;
  fee_amount = 290;
  net_amount = 9710;
  settlement_date = 101;
}

abbrev pub data_set : SyntheticDataset
data_set = record {
  products = record { product_id = 1; name = str "serum"; category = str "supplements" } ∷ [];
  orders = order 1 ∷ order 2 ∷ [];
  settlements = settlement 1 ∷ settlement 2 ∷ [];
}

generate-IsCoherent_example : IsCoherent 1 2 100 130 data_set
unfolding generate place_all place settle order_of order_day products_from product_of rate_in
generate-IsCoherent_example = generate-IsCoherent draws draws-IsLawful 1 2 100 130 tt data_set refl

generate-fits_example :
    all (fits (columns settlements_table)) (rows_of data_set settlements_table) ≡ true
unfolding generate place_all place settle order_of order_day products_from product_of rate_in
generate-fits_example =
    generate-fits draws 1 2 100 130 tt data_set draws-IsLawful (omega arith) (omega arith) refl
      settlements_table

read_literal-sql_literal_example :
    read_literal (sql_literal (λ d. []) (λ n. []) (text (str "buyer's choice")) ++ str ", 1)")
    ≡ some (str "buyer's choice", str ", 1)")
read_literal-sql_literal_example =
    read_literal-sql_literal (λ d. []) (λ n. []) (str "buyer's choice") (str ", 1)")
      (λ e. omega (arith, e))

-- No exception at all.
abbrev None : Exc → Type 0
None e = ⊥

lowest-Gives : (a b : ℕ) (s : Unit {0}) → a ≤ b → Gives None (λ d. Unit {0}) (lowest a b s)
lowest-Gives a b s h = elim (Bool-cases (leb a b)) [
  | inl e ↦ rw e tt
  | inr e ↦ absurd (ground arith)
]

draws-RaiseOnly : RaiseOnly None draws
draws-RaiseOnly = record {
  choice_gives = λ P x xs s h. h.0;
  randint_gives = lowest-Gives;
  amount_gives = λ s. tt;
  settles_gives = λ s. tt;
  catch_phrase_gives = λ s. tt;
  email_gives = λ s. tt;
}

generate-Gives_example :
    Gives None (λ (d : SyntheticDataset). length d.products ≡ 3) (generate draws 3 20 100 130 tt)
generate-Gives_example = generate-Gives None draws draws-RaiseOnly 2 20 100 130 tt (omega arith)
