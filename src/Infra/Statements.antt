-- ===== src/Infra/Statements.antt =====
-- infra/*_bootstrap.py: statements that are printed and executed one after the other.
use open_warehouse_agent.Py.Str.{Str, str}
use open_warehouse_agent.Py.Result.{Result, ok, err, is_ok}
use open_warehouse_agent.Py.Exec.{Exec, pure, ◌>>◌, continue, try_finally}
use open_warehouse_agent.Base.{
  ◌≡◌, refl, ◌⊎◌, inl, inr, true, false, List, [], ◌∷◌, ◌++◌, append_assoc, append-nil, arith,
  subst,
}

-- A connection to a warehouse, and the terminal.
pub record Admin : Type 1 where
  pub World : Type 0
  pub execute : Str → Exec World (Unit {0})
  pub print : Str → Exec World (Unit {0})
  pub close : Exec World (Unit {0})

module _ (D : Admin) where
  -- `print(f"> {shown}")`, `cursor.execute(stmt)`
  unfoldable pub announce : Str → Str → Exec D.World (Unit {0})
  announce shown stmt = do D.print (str "> " ++ shown); D.execute stmt

  -- `for stmt in statements:`
  unfoldable pub announce_all : List Str → Exec D.World (Unit {0})
  announce_all [] = pure tt
  announce_all (s ∷ statements) = do announce s s; announce_all statements

-- What is relied on of it: a statement is executed or raises, and is on the record of the warehouse
-- in the first case only; printing and closing leave the record as it is.
pub record IsRecording (D : Admin) : Type 0 where
  pub executed : D.World → List Str
  pub executes :
      (s : Str) (w : D.World)
      → (((D.execute s w).0 ≡ ok tt) × (executed (D.execute s w).1 ≡ executed w ++ (s ∷ [])))
        ⊎ ((is_ok (D.execute s w).0 ≡ false) × (executed (D.execute s w).1 ≡ executed w))
  pub prints : (s : Str) (w : D.World) → executed (D.print s w).1 ≡ executed w
  pub closes : (w : D.World) → executed (D.close w).1 ≡ executed w

module _ (D : Admin) (rec : IsRecording D) where
  -- The run executes an initial piece of the statements, in their order; all of them if it returns.
  abbrev pub Executed : List Str → D.World → Result (Unit {0}) × D.World → Type 0
  Executed xs w x =
      (done : List Str) × (rest : List Str) × (done ++ rest ≡ xs)
      × (rec.executed x.1 ≡ rec.executed w ++ done)
      × (is_ok x.0 ≡ true → rest ≡ [])

  abbrev pub Executes : Exec D.World (Unit {0}) → List Str → Type 0
  Executes m xs = (w : D.World) → Executed xs w (m w)

  continue-Executed :
      (xs ys : List Str) (w : D.World) (x : Result (Unit {0}) × D.World)
      (m : Exec D.World (Unit {0}))
      → Executed xs w x
      → Executes m ys
      → Executed (xs ++ ys) w (continue x (λ u. m))
  continue-Executed xs ys w (err e, v) m (done, rest, p, q, r) h =
      (done, rest ++ ys, ground (arith, append_assoc done rest ys), q, λ b. absurd (cc))
  continue-Executed xs ys w (ok u, v) m (done, rest, p, q, r) h =
      let (done', rest', p', q', r') = h v in
      let all_done : done ≡ xs = ground (arith, r refl, append-nil done) in
      (
        xs ++ done',
        rest',
        ground (arith, append_assoc xs done' rest'),
        ground (arith, append_assoc (rec.executed w) xs done'),
        r',
      )

  pub Executes-then :
      (m n : Exec D.World (Unit {0})) (xs ys : List Str)
      → Executes m xs
      → Executes n ys
      → Executes (m >> n) (xs ++ ys)
  Executes-then m n xs ys h k w = continue-Executed xs ys w (m w) n (h w) k

  execute-Executes : (s : Str) → Executes (D.execute s) (s ∷ [])
  execute-Executes s w = elim (rec.executes s w) [
    | inl (r, v) ↦ (s ∷ [], [], refl, v, λ b. refl)
    | inr (r, v) ↦
        ([], s ∷ [], refl, ground (arith, append-nil (rec.executed w)), λ b. absurd (ground arith))
  ]

  print-Executes : (s : Str) → Executes (D.print s) []
  print-Executes s w =
      ([], [], refl, ground (arith, append-nil (rec.executed w), rec.prints s w), λ b. refl)

  pub announce-Executes : (shown s : Str) → Executes (announce D shown s) (s ∷ [])
  unfolding announce
  announce-Executes shown s =
      Executes-then (D.print (str "> " ++ shown)) (D.execute s) [] (s ∷ [])
        (print-Executes (str "> " ++ shown)) (execute-Executes s)

  pub announce_all-Executes : (xs : List Str) → Executes (announce_all D xs) xs
  unfolding announce_all
  announce_all-Executes [] w =
      ([], [], refl, ground (arith, append-nil (rec.executed w)), λ b. refl)
  announce_all-Executes (s ∷ xs) w =
      Executes-then (announce D s s) (announce_all D xs) (s ∷ []) xs (announce-Executes s s)
        (announce_all-Executes xs) w

  -- Something printed at the end.
  pub then_print-Executes :
      (m : Exec D.World (Unit {0})) (s : Str) (xs : List Str)
      → Executes m xs
      → Executes (m >> D.print s) xs
  then_print-Executes m s xs h =
      subst (Executes (m >> D.print s)) (append-nil xs)
        (Executes-then m (D.print s) xs [] h (print-Executes s))

  pub try_finally-Executes :
      (m : Exec D.World (Unit {0})) (xs : List Str)
      → Executes m xs
      → Executes (try_finally m D.close) xs
  try_finally-Executes m xs h w =
      let (done, rest, p, q, r) = h w in
      (
        done,
        rest,
        p,
        ground (arith, rec.closes (m w).1),
        λ b. r (returned (m w).0 (D.close (m w).1).0 b),
      )
    where
      returned :
          (x y : Result (Unit {0}))
          → is_ok (elim y [ ok u ↦ x | err e ↦ err e ]) ≡ true
          → is_ok x ≡ true
      returned x (ok u) b = b
      returned x (err e) b = absurd (cc)
