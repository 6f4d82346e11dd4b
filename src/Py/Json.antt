-- ===== src/Py/Json.antt =====
-- `json.dumps` with its default settings.
pub mod Printable
pub mod Reads
pub mod Printed
pub mod Scalars
pub mod Readers
pub mod Loads
use open_warehouse_agent.Base.Int.{ℤ, pos, negsuc}
use open_warehouse_agent.Py.Str.{Str, str, of_ℕ}
use open_warehouse_agent.Base.{
  ℕ, suc, ◌+◌, ◌-◌, ◌/◌, ◌%◌, ltb, leb, ◌==◌, if◌then◌else◌, ◌≡◌, refl, Bool, true, false, ◌&&◌, [],
  ◌∷◌, ◌++◌,
}

-- The values that the program dumps. Its numbers are integers.
mutual
  pub data Json : Type 0 where
    null : Json
    bool : Bool → Json
    int : ℤ → Json
    text : Str → Json
    array : Items → Json
    object : Fields → Json

  pub data Items : Type 0 where
    nil : Items
    cons : Json → Items → Items

  pub data Fields : Type 0 where
    end : Fields
    field : Str → Json → Fields → Fields

-- A hexadecimal digit, in lower case.
unfoldable pub hex : ℕ → ℕ
hex d = if ltb (d % 16) 10 then b'0' + d % 16 else b'a' + (d % 16 - 10)

-- `\uXXXX`
unfoldable pub unicode_escape : ℕ → Str
unicode_escape c = b'\\' ∷ b'u' ∷ hex (c / 4096) ∷ hex (c / 256) ∷ hex (c / 16) ∷ hex c ∷ []

-- One code point between quotes: ASCII letters and signs stand for themselves, a code point above
-- 0xffff becomes a surrogate pair.
unfoldable pub escape : ℕ → Str
escape c =
    if c == b'"'
    then b'\\' ∷ b'"' ∷ []
    else if c == b'\\'
    then b'\\' ∷ b'\\' ∷ []
    else if leb 32 c && leb c 126
    then c ∷ []
    else if c == 10
    then b'\\' ∷ b'n' ∷ []
    else if c == 13
    then b'\\' ∷ b'r' ∷ []
    else if c == 9
    then b'\\' ∷ b't' ∷ []
    else if c == 12
    then b'\\' ∷ b'f' ∷ []
    else if c == 8
    then b'\\' ∷ b'b' ∷ []
    else if ltb c 0x10000
    then unicode_escape c
    else unicode_escape (0xd800 + (c - 0x10000) / 1024 % 1024)
      ++ unicode_escape (0xdc00 + (c - 0x10000) % 1024)

unfoldable pub escape_all : Str → Str
escape_all [] = []
escape_all (c ∷ s) = escape c ++ escape_all s

unfoldable pub quoted : Str → Str
quoted s = b'"' ∷ (escape_all s ++ b'"' ∷ [])

unfoldable pub of_ℤ : ℤ → Str
of_ℤ (pos n) = of_ℕ n
of_ℤ (negsuc n) = b'-' ∷ of_ℕ (suc n)

unfoldable mutual
  unfolding quoted escape_all escape unicode_escape hex of_ℤ

  pub dumps : Json → Str
  dumps null = str "null"
  dumps (bool true) = str "true"
  dumps (bool false) = str "false"
  dumps (int z) = of_ℤ z
  dumps (text s) = quoted s
  dumps (array xs) = str "[" ++ dumps_items xs ++ str "]"
  dumps (object fs) = str "{" ++ dumps_fields fs ++ str "}"

  pub dumps_items : Items → Str
  dumps_items nil = []
  dumps_items (cons x nil) = dumps x
  dumps_items (cons x (cons y ys)) = dumps x ++ str ", " ++ dumps_items (cons y ys)

  pub dumps_fields : Fields → Str
  dumps_fields end = []
  dumps_fields (field k x end) = quoted k ++ str ": " ++ dumps x
  dumps_fields (field k x (field l y fs)) =
      quoted k ++ str ": " ++ dumps x ++ str ", " ++ dumps_fields (field l y fs)

dumps_test :
    dumps (object (field (str "a") (int (negsuc 11)) (field (str "b") (text (str "x\"y")) end)))
    ≡ str "{\"a\": -12, \"b\": \"x\\\"y\"}"
unfolding dumps of_ℕ
dumps_test = refl
