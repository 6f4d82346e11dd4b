-- ===== src/McpServer/Audit.antt =====
-- mcp_server/audit.py: the audit log as the text of its file.
pub mod Lines
pub mod ReadBack
pub mod Log
use open_warehouse_agent.Base.Int.{ℤ, pos}
use open_warehouse_agent.Py.Str.{Str, str}
use open_warehouse_agent.Py.Json.{Json, null, bool, int, text, object, end, field, dumps}
use open_warehouse_agent.Base.{ℕ, ◌+◌, Bool, Option, none, some, [], ◌∷◌, ◌++◌}

-- `AuditRecord`; times are whole ticks.
pub record AuditRecord : Type 0 where
  pub timestamp : ℕ
  pub sql : Str
  pub row_limit : ℤ
  pub success : Bool
  pub row_count : Option ℕ
  pub error : Option Str
  pub duration_ms : Option ℕ

abbrev pub optional : {A : Type 0} → (A → Json) → Option A → Json
optional f none = null
optional f (some a) = f a

-- `asdict(entry)`
unfoldable pub asdict : AuditRecord → Json
asdict entry = object (
    field (str "timestamp") (int (pos entry.timestamp)) (
      field (str "sql") (text entry.sql) (
        field (str "row_limit") (int entry.row_limit) (
          field (str "success") (bool entry.success) (
            field (str "row_count") (optional (λ n. int (pos n)) entry.row_count) (
              field (str "error") (optional text entry.error) (
                field (str "duration_ms") (optional (λ n. int (pos n)) entry.duration_ms) end)))))))

-- The file behind an `AuditLog`.
pub record AuditLog : Type 0 where
  pub file : Str

-- The text that `record` appends.
abbrev pub line : AuditRecord → Str
line entry = dumps (asdict entry) ++ b'\n' ∷ []

-- `AuditLog.record`
unfoldable pub record_entry : AuditRecord → AuditLog → AuditLog
record_entry entry log = record { file = log.file ++ line entry }
