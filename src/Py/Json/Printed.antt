-- ===== src/Py/Json/Printed.antt =====
-- What `json.dumps` writes, by the kind of the value.
use open_warehouse_agent.Base.Int.{ℤ}
use open_warehouse_agent.Py.Str.{Str, str}
use open_warehouse_agent.Py.Json.{
  Json, null, bool, int, text, object, Fields, end, field, quoted, of_ℤ, dumps, dumps_fields,
}
use open_warehouse_agent.Base.{◌≡◌, refl, Bool, true, false, ◌++◌}

pub dumps-null : dumps null ≡ str "null"
unfolding dumps
dumps-null = refl

pub dumps-bool : (b : Bool) → dumps (bool b) ≡ elim b [ true ↦ str "true" | false ↦ str "false" ]
unfolding dumps
dumps-bool true = refl
dumps-bool false = refl

pub dumps-int : (z : ℤ) → dumps (int z) ≡ of_ℤ z
unfolding dumps
dumps-int z = refl

pub dumps-text : (s : Str) → dumps (text s) ≡ quoted s
unfolding dumps
dumps-text s = refl

pub dumps-object : (fs : Fields) → dumps (object fs) ≡ str "{" ++ dumps_fields fs ++ str "}"
unfolding dumps
dumps-object fs = refl

pub dumps_fields-last :
    (k : Str) (x : Json) → dumps_fields (field k x end) ≡ quoted k ++ str ": " ++ dumps x
unfolding dumps
dumps_fields-last k x = refl

pub dumps_fields-more :
    (k l : Str) (x y : Json) (fs : Fields)
    → dumps_fields (field k x (field l y fs))
      ≡ quoted k ++ str ": " ++ dumps x ++ str ", " ++ dumps_fields (field l y fs)
unfolding dumps
dumps_fields-more k l x y fs = refl
