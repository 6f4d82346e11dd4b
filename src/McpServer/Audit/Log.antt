-- ===== src/McpServer/Audit/Log.antt =====
-- The whole audit log, read back record by record.
use open_warehouse_agent.McpServer.Audit.{AuditRecord, AuditLog, line, record_entry}
use open_warehouse_agent.McpServer.Audit.ReadBack.{
  IsText, read_line, written, line-written, read_line-written, written-starts,
}
use open_warehouse_agent.Py.Json.Reads.{IsScalar}
use open_warehouse_agent.Py.Str.{Str}
use open_warehouse_agent.Base.{
  ℕ, zero, suc, ◌≤◌, ◌≡◌, refl, sym, ap, ◌∙◌, Option, none, some, List, [], ◌∷◌, ◌++◌, append_assoc,
  append-nil, arith, length, length-append, All, subst,
}

-- One call of `AuditLog.record` after the other.
unfoldable pub record_all : List AuditRecord → AuditLog → AuditLog
unfolding record_entry
record_all [] log = log
record_all (entry ∷ entries) log = record_all entries (record_entry entry log)

abbrev push_entry : AuditRecord → Option (List AuditRecord) → Option (List AuditRecord)
push_entry e none = none
push_entry e (some es) = some (e ∷ es)

-- The records of a text, line by line; the fuel is at least the number of its lines.
unfoldable pub read_log : ℕ → Str → Option (List AuditRecord)
read_log n [] = some []
read_log zero (c ∷ s) = none
read_log (suc n) (c ∷ s) = elim (read_line (c ∷ s)) [
  | none ↦ none
  | some (e, t) ↦ push_entry e (read_log n t)
]

abbrev pub IsReadable : AuditRecord → Type 0
IsReadable e = All IsScalar e.sql × IsText e.error

abbrev lines_of : List AuditRecord → Str
lines_of [] = []
lines_of (e ∷ es) = line e ++ lines_of es

record_all-lines :
    (es : List AuditRecord) (log : AuditLog) → (record_all es log).file ≡ log.file ++ lines_of es
unfolding record_all
record_all-lines [] log = sym (append-nil log.file)
record_all-lines (e ∷ es) log =
    record_all-lines es (record { file = log.file ++ line e })
    ∙ append_assoc log.file (line e) (lines_of es)

read_log-step :
    (n : ℕ) (s t : Str) (e : AuditRecord)
    → (c : ℕ) × (u : Str) × (s ≡ c ∷ u)
    → read_line s ≡ some (e, t)
    → read_log (suc n) s ≡ push_entry e (read_log n t)
unfolding read_log
read_log-step n s t e (c, u, q) h =
    subst (λ s. read_line s ≡ some (e, t) → read_log (suc n) s ≡ push_entry e (read_log n t))
      (sym q) (λ h. rw (read_log, h) refl) h

read_log-lines :
    (n : ℕ) (es : List AuditRecord)
    → length es ≤ n
    → All IsReadable es
    → read_log n (lines_of es) ≡ some es
read_log-lines zero [] h k = unfold read_log in refl
read_log-lines (suc n) [] h k = unfold read_log in refl
read_log-lines zero (e ∷ es) h k = absurd (omega arith)
read_log-lines (suc n) (e ∷ es) h ((a, b), k) =
    ap (read_log (suc n)) (line-written e (lines_of es))
    ∙ read_log-step n (written e (lines_of es)) (lines_of es) e (written-starts e (lines_of es))
        (read_line-written e (lines_of es) a b)
    ∙ ap (push_entry e) (read_log-lines n es (omega arith) k)

lines-not_shorter : (es : List AuditRecord) → length es ≤ length (lines_of es)
lines-not_shorter [] = omega arith
lines-not_shorter (e ∷ es) =
    let (c, u, q) = written-starts e (lines_of es) in
    let (d, v, r) = written-starts e [] in
    let line_is : line e ≡ d ∷ v = sym (append-nil (line e)) ∙ line-written e [] ∙ r in
    omega (arith, lines-not_shorter es, length-append (line e) (lines_of es), ap length line_is)

-- The audit log can be read back: whatever records a new log is given, whose texts are of
-- code points other than surrogates, with quotes, line breaks and all, its file reads by the rules
-- of JSON, line by line, as those records, in their order and with nothing lost. The number of its characters is fuel enough.
pub read_log-record_all :
    (es : List AuditRecord)
    → All IsReadable es
    → read_log
        (length (record_all es (record { file = [] })).file)
        (record_all es (record { file = [] })).file
      ≡ some es
read_log-record_all es h =
    ap (λ file. read_log (length file) file) (record_all-lines es (record { file = [] }))
    ∙ read_log-lines (length (lines_of es)) es (lines-not_shorter es) h
