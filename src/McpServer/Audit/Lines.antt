-- ===== src/McpServer/Audit/Lines.antt =====
-- The audit file has one line for each record, whatever the records hold.
use open_warehouse_agent.Py.Str.{Str}
use open_warehouse_agent.Py.Json.{dumps}
use open_warehouse_agent.Py.Json.Printable.{OnOneLine, dumps-OnOneLine}
use open_warehouse_agent.McpServer.Audit.{AuditRecord, AuditLog, asdict, line, record_entry}
use open_warehouse_agent.Base.{ℕ, ◌+◌, ◌==◌, if◌then◌else◌, ◌≡◌, refl, [], ◌∷◌, ◌++◌, arith}

-- The number of line feeds in a text.
unfoldable pub line_feeds : Str → ℕ
line_feeds [] = 0
line_feeds (c ∷ s) = (if c == b'\n' then 1 else 0) + line_feeds s

pub line_feeds-append : (s t : Str) → line_feeds (s ++ t) ≡ line_feeds s + line_feeds t
unfolding line_feeds
line_feeds-append [] t = omega arith
line_feeds-append (c ∷ s) t = omega (arith, line_feeds-append s t)

line_feeds-OnOneLine : (s : Str) → OnOneLine s → line_feeds s ≡ 0
unfolding line_feeds
line_feeds-OnOneLine [] h = refl
line_feeds-OnOneLine (c ∷ s) (p, h) = ground (arith, line_feeds-OnOneLine s h)

one_line_feed : line_feeds (b'\n' ∷ []) ≡ 1
unfolding line_feeds
one_line_feed = refl

-- Each record is one line: a query with line breaks in it cannot forge a second record.
pub line_feeds-record_entry :
    (entry : AuditRecord) (log : AuditLog)
    → line_feeds (record_entry entry log).file ≡ line_feeds log.file + 1
unfolding record_entry
line_feeds-record_entry entry log = omega (
  arith,
  line_feeds-append log.file (line entry),
  line_feeds-append (dumps (asdict entry)) (b'\n' ∷ []),
  line_feeds-OnOneLine (dumps (asdict entry)) (dumps-OnOneLine (asdict entry)),
  one_line_feed,
)
