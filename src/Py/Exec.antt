-- ===== src/Py/Exec.antt =====
-- Code that changes a state and may raise: what was written before a raise stays written.
use open_warehouse_agent.Base.{◌≡◌, subst}
use open_warehouse_agent.Py.Result.{Exc, Result, ok, err, ok-injective}

abbrev pub Exec : Type 0 → Type 0 → Type 0
Exec S A = S → Result A × S

module _ {S A : Type 0} where
  abbrev pub pure : A → Exec S A
  pure a s = (ok a, s)

  abbrev pub raise : Exc → Exec S A
  raise e s = (err e, s)

  abbrev pub lift : Result A → Exec S A
  lift r s = (r, s)

module _ {S A B : Type 0} where
  abbrev pub continue : Result A × S → (A → Exec S B) → Result B × S
  continue (ok a, s) f = f a s
  continue (err e, s) f = (err e, s)

  infixl 5 ◌>>=◌ ◌>>◌
  abbrev pub ◌>>=◌ : Exec S A → (A → Exec S B) → Exec S B
  ◌>>=◌ m f s = continue (m s) f

  abbrev pub ◌>>◌ : Exec S A → Exec S B → Exec S B
  m >> n = m >>= λ _. n

-- `try: body` / `finally: cleanup`: what the cleanup raises takes the place of what the body did.
abbrev pub try_finally : {S A : Type 0} → Exec S A → Exec S (Unit {0}) → Exec S A
try_finally body cleanup s =
    let (result, after) = body s in
    let (closed, end) = cleanup after in (elim closed [ ok u ↦ result | err e ↦ err e ], end)

-- A run that returns ends with `Q` of its value and `P` of the state, and one that raises with `P`.
abbrev pub Ends : {S A : Type 0} → (A → Type 0) → (S → Type 0) → Result A × S → Type 0
Ends Q P (ok a, s) = Q a × P s
Ends Q P (err e, s) = P s

module _ {S A B : Type 0} (P : S → Type 0) (Q : A → Type 0) (R : B → Type 0) where
  pub continue-Ends :
      (x : Result A × S) (f : A → Exec S B)
      → Ends Q P x
      → ((a : A) (s : S) → Q a → P s → Ends R P (f a s))
      → Ends R P (continue x f)
  continue-Ends (ok a, s) f h k = k a s h.0 h.1
  continue-Ends (err e, s) f h k = h

-- A state that a run keeps, with nothing said of its value.
pub Ends-of_state :
    {S A : Type 0} (P : S → Type 0) (x : Result A × S) → P x.1 → Ends (λ a. Unit {0}) P x
Ends-of_state P (ok a, s) h = (tt, h)
Ends-of_state P (err e, s) h = h

pub state_of_Ends :
    {S A : Type 0} (P : S → Type 0) (Q : A → Type 0) (x : Result A × S) → Ends Q P x → P x.1
state_of_Ends P Q (ok a, s) h = h.1
state_of_Ends P Q (err e, s) h = h

-- A run that returns leaves a value and a state that `R` relates, and one that raises a state of `P`.
abbrev pub Leaves : {S A : Type 0} → (A → S → Type 0) → (S → Type 0) → Result A × S → Type 0
Leaves R P (ok a, s) = R a s
Leaves R P (err e, s) = P s

pub continue-Leaves :
    {S A B : Type 0} (Q : A → S → Type 0) (R : B → S → Type 0) (P : S → Type 0)
    → (x : Result A × S) (f : A → Exec S B) → Leaves Q P x
    → ((a : A) (s : S) → Q a s → Leaves R P (f a s))
    → Leaves R P (continue x f)
continue-Leaves Q R P (ok a, s) f h k = k a s h
continue-Leaves Q R P (err e, s) f h k = h

-- What a run raises is of `E`.
abbrev pub RaisesOnly : {S A : Type 0} → (Exc → Type 0) → Result A × S → Type 0
RaisesOnly E (ok a, s) = Unit
RaisesOnly E (err e, s) = E e

pub Leaves_of_ok :
    {S A : Type 0} (R : A → S → Type 0) (P : S → Type 0) (x : Result A × S) (a : A)
    → Leaves R P x
    → x.0 ≡ ok a
    → R a x.1
Leaves_of_ok R P (ok b, s) a h e = subst (λ c. R c s) (ok-injective e) h
Leaves_of_ok R P (err b, s) a h e = absurd (cc)

-- A run that starts where `P` holds keeps it, and what it raises is of `E`.
abbrev pub Safe : {S A : Type 0} → (Exc → Type 0) → (S → Type 0) → Result A × S → Type 0
Safe E P (ok a, s) = P s
Safe E P (err e, s) = E e × P s

pub continue-Safe :
    {S A B : Type 0} (E : Exc → Type 0) (P : S → Type 0) (x : Result A × S) (f : A → Exec S B)
    → Safe E P x
    → ((a : A) (s : S) → P s → Safe E P (f a s))
    → Safe E P (continue x f)
continue-Safe E P (ok a, s) f h k = k a s h
continue-Safe E P (err e, s) f h k = h

pub RaisesOnly-of_Safe :
    {S A : Type 0} (E : Exc → Type 0) (P : S → Type 0) (x : Result A × S)
    → Safe E P x
    → RaisesOnly E x
RaisesOnly-of_Safe E P (ok a, s) h = tt
RaisesOnly-of_Safe E P (err e, s) h = h.0

pub Safe-of_RaisesOnly :
    {S A : Type 0} (E : Exc → Type 0) (x : Result A × S) → RaisesOnly E x → Safe E (λ s. Unit {0}) x
Safe-of_RaisesOnly E (ok a, s) h = tt
Safe-of_RaisesOnly E (err e, s) h = (h, tt)

pub continue-keeps :
    {S A B : Type 0} (P : S → Type 0) (x : Result A × S) (f : A → Exec S B)
    → P x.1
    → ((a : A) (s : S) → P s → P (f a s).1)
    → P (continue x f).1
continue-keeps P (ok a, s) f h k = k a s h
continue-keeps P (err e, s) f h k = h
