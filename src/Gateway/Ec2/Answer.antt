-- ===== src/Gateway/Ec2/Answer.antt =====
-- gateway/ec2_backend.py: the answer of `describe_instances`, and what is read of it.
use open_warehouse_agent.Py.Str.{Str, str, str_eq}
use open_warehouse_agent.Py.Result.{◌>>=◌, key_error, index_error, Result, ok, err}
use open_warehouse_agent.Base.{Bool, false, Option, none, some, List, [], ◌∷◌}

-- The parts of a `describe_instances` answer that are read; `none` is a key that is missing.
pub record InstanceState : Type 0 where
  pub name : Option Str

pub record Instance : Type 0 where
  pub state : Option InstanceState
  pub private_ip_address : Option Str

pub record Reservation : Type 0 where
  pub instances : Option (List Instance)

pub record Description : Type 0 where
  pub reservations : Option (List Reservation)

-- `d[key]` of a dictionary's entry that may be missing.
abbrev field : {A : Type 0} → Str → Option A → Result A
field key none = err (key_error key)
field key (some a) = ok a

-- `xs[0]`
abbrev first : {A : Type 0} → List A → Result A
first [] = err (index_error (str "list index out of range"))
first (x ∷ xs) = ok x

-- `response["Reservations"][0]["Instances"][0]`
unfoldable pub first_instance : Description → Result Instance
first_instance d = do
  reservations ← field (str "Reservations") d.reservations
  r ← first reservations
  instances ← field (str "Instances") r.instances
  first instances

-- `instance.get("State", {}).get("Name") != "running"`, negated.
unfoldable pub is_running : Instance → Bool
is_running i = elim i.state [
  | none ↦ false
  | some s ↦ elim s.name [ none ↦ false | some n ↦ str_eq n (str "running") ]
]
