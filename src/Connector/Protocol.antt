-- ===== src/Connector/Protocol.antt =====
-- connector/protocol.py: what an adapter returns, and what the MCP server takes it for.
use open_warehouse_agent.Base.Int.{ℤ}
use open_warehouse_agent.Py.Str.{Str}
use open_warehouse_agent.Py.Result.{Result, ok, err, index_error}
use open_warehouse_agent.Py.Exec.{Exec}
use open_warehouse_agent.Py.Str.{str, str_eq, is_empty}
use open_warehouse_agent.Base.{
  ℕ, zero, suc, if◌then◌else◌, Bool, false, Option, none, some, List, [], ◌∷◌,
}

-- A value of a database row. `object` stands for any other Python object, by its identity.
pub data Cell : Type 0 where
  null : Cell
  bool : Bool → Cell
  int : ℤ → Cell
  text : Str → Cell
  object : ℕ → Cell

pub record ColumnInfo : Type 0 where
  pub name : Cell
  pub type : Cell
  pub nullable : Bool

pub record TableRef : Type 0 where
  pub schema : Cell
  pub name : Cell

pub record TableSchema : Type 0 where
  pub schema : Str
  pub name : Str
  pub columns : List ColumnInfo

pub record QueryResult : Type 0 where
  pub columns : List Str
  pub rows : List (List Cell)
  pub row_count : ℕ
  pub truncated : Bool

-- The protocol `WarehouseConnector`. A `Conn` is the connection, with the warehouse behind it.
pub record WarehouseConnector : Type 1 where
  pub dialect : Str
  pub Conn : Type 0
  pub list_tables : Option Str → Exec Conn (List TableRef)
  pub describe_table : Str → Option Str → Exec Conn TableSchema
  pub run_query : Str → ℤ → Exec Conn QueryResult

-- The rows of an executed statement, and the names that its cursor describes.
pub record Fetched : Type 0 where
  pub rows : List (List Cell)
  pub description : List Str

-- A database driver: `execute` of a statement with its parameters, and all the rows then.
pub record Driver : Type 1 where
  pub Conn : Type 0
  pub execute : Str → List Str → Exec Conn Fetched
  pub close : Exec Conn (Unit {0})

-- `row[i]`
abbrev pub at : List Cell → ℕ → Result Cell
at [] i = err (index_error (str "tuple index out of range"))
at (c ∷ row) zero = ok c
at (c ∷ row) (suc i) = at row i

-- `cell == "YES"`
abbrev pub is_yes : Cell → Bool
is_yes (text s) = str_eq s (str "YES")
is_yes _ = false

-- `schema or default`: an empty text is falsy too.
abbrev pub or_text : Option Str → Str → Str
or_text none d = d
or_text (some s) d = if is_empty s then d else s
