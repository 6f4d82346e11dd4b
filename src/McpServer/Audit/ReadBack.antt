-- ===== src/McpServer/Audit/ReadBack.antt =====
-- Reading the audit log back.
use open_warehouse_agent.Base.Int.{pos}
use open_warehouse_agent.McpServer.Audit.{text, int, optional, line, dumps, asdict, AuditRecord}
use open_warehouse_agent.Py.Json.{escape, escape_all, of_ℤ, quoted}
use open_warehouse_agent.Py.Json.Printed.{
  dumps-null, dumps-bool, dumps-int, dumps-text, dumps-object, dumps_fields-last, dumps_fields-more,
}
use open_warehouse_agent.Py.Json.Reads.{IsScalar}
use open_warehouse_agent.Py.Json.Readers.{bind, Reader, Reads, read_ℕ, read_ℤ, ℕ-Reads, ℤ-Reads}
use open_warehouse_agent.Py.Json.Scalars.{
  expect, expect-append, read_quoted, read_quoted-quoted, read_digits, read_digits-of_ℕ, Stops,
}
use open_warehouse_agent.Py.Str.{Str, str, of_ℕ}
use open_warehouse_agent.Base.{
  ℕ, ◌==◌, ◌≡◌, refl, ap, ◌∙◌, inl, inr, Bool, true, false, Option, none, some, [], ◌∷◌, ◌++◌,
  append_assoc, arith, All, Bool-cases,
}

unfoldable pub read_bool : Reader Bool
read_bool s = elim (expect (str "true") s) [
  | some t ↦ some (true, t)
  | none ↦ bind (expect (str "false") s) λ t. some (false, t)
]

abbrev present : {A : Type 0} → Option (A × Str) → Option (Option A × Str)
present none = none
present (some (a, t)) = some (some a, t)

unfoldable pub read_optional : {A : Type 0} → Reader A → Reader (Option A)
read_optional read s = elim (expect (str "null") s) [
  | some t ↦ some (none, t)
  | none ↦ present (read s)
]

-- A field: its name and what follows it, then its value.
unfoldable pub read_field : {A B : Type 0} → Str → Reader A → (A → Reader B) → Reader B
read_field name read next s = bind (expect name s) λ t. bind (read t) λ (a, u). next a u

-- A line of the log.
unfoldable pub read_line : Reader AuditRecord
unfolding read_field
read_line = read_field (str "{\"timestamp\": ") read_ℕ λ timestamp.
    read_field (str ", \"sql\": ") read_quoted λ sql.
      read_field (str ", \"row_limit\": ") read_ℤ λ row_limit.
        read_field (str ", \"success\": ") read_bool λ success.
          read_field (str ", \"row_count\": ") (read_optional read_ℕ) λ row_count.
            read_field (str ", \"error\": ") (read_optional read_quoted) λ error.
              read_field (str ", \"duration_ms\": ") (read_optional read_ℕ) λ duration_ms s.
                bind (expect (str "}\n") s) λ rest. some (
                  record {
                    timestamp = timestamp;
                    sql = sql;
                    row_limit = row_limit;
                    success = success;
                    row_count = row_count;
                    error = error;
                    duration_ms = duration_ms;
                  },
                  rest,
                )

field-Reads :
    {A B : Type 0} (name : Str) (read : Reader A) (next : A → Reader B) (a : A) (s rest : Str)
    → Reads read a s
    → Stops rest
    → read_field name read next (name ++ (s ++ rest)) ≡ next a rest
unfolding read_field
field-Reads name read next a s rest h stops =
    rw (expect-append name (s ++ rest)) (rw (h rest stops) refl)

text-Reads : (s : Str) → All IsScalar s → Reads read_quoted s (quoted s)
text-Reads s k rest h = read_quoted-quoted s rest k

bool-Reads : (b : Bool) → Reads read_bool b (elim b [ true ↦ str "true" | false ↦ str "false" ])
unfolding read_bool
bool-Reads true rest h = refl
bool-Reads false rest h = refl

-- What an optional value is written as.
abbrev written_optional : {A : Type 0} → (A → Str) → Option A → Str
written_optional f none = str "null"
written_optional f (some a) = f a

not_null : (s t : Str) (n : ℕ) → read_digits 0 false s ≡ some (n, t) → expect (str "null") s ≡ none
unfolding read_digits
not_null [] t n h = refl
not_null (c ∷ s) t n h = elim (Bool-cases (b'n' == c)) [
  | inl e ↦ absurd (ground arith)
  | inr e ↦ rw (expect, e) refl
]

some-Reads :
    {A : Type 0} (read : Reader A) (a : A) (s : Str)
    → Reads read a s
    → ((rest : Str) → Stops rest → expect (str "null") (s ++ rest) ≡ none)
    → Reads (read_optional read) (some a) s
unfolding read_optional
some-Reads read a s h k rest stops = rw (read_optional, k rest stops) (ap present (h rest stops))

optional_ℕ-Reads : (o : Option ℕ) → Reads (read_optional read_ℕ) o (written_optional of_ℕ o)
optional_ℕ-Reads none rest h = unfold read_optional in refl
optional_ℕ-Reads (some n) rest h =
    some-Reads read_ℕ n (of_ℕ n) (ℕ-Reads n)
      (λ t k. not_null (of_ℕ n ++ t) t n (read_digits-of_ℕ n t k)) rest h

-- The texts of a record have no surrogates.
abbrev pub IsText : Option Str → Type 0
IsText none = Unit
IsText (some s) = All IsScalar s

quoted_not_null : (s t : Str) → expect (str "null") (quoted s ++ t) ≡ none
unfolding quoted
quoted_not_null s t = refl

optional_text-Reads :
    (o : Option Str) → IsText o → Reads (read_optional read_quoted) o (written_optional quoted o)
optional_text-Reads none k rest h = unfold read_optional in refl
optional_text-Reads (some s) k rest h =
    some-Reads read_quoted s (quoted s) (text-Reads s k) (λ t l. quoted_not_null s t) rest h

abbrev written_bool : Bool → Str
written_bool b = elim b [ true ↦ str "true" | false ↦ str "false" ]

-- A line of the log and what follows it, field by field.
pub written : AuditRecord → Str → Str
written e rest =
    str "{\"timestamp\": "
    ++ (of_ℕ e.timestamp
        ++ (str ", \"sql\": "
            ++ (quoted e.sql
                ++ (str ", \"row_limit\": "
                    ++ (of_ℤ e.row_limit
                        ++ (str ", \"success\": "
                            ++ (written_bool e.success
                                ++ (str ", \"row_count\": "
                                    ++ (written_optional of_ℕ e.row_count
                                        ++ (str ", \"error\": "
                                            ++ (written_optional quoted e.error
                                                ++ (str ", \"duration_ms\": "
                                                    ++ (written_optional of_ℕ e.duration_ms
                                                        ++ (str "}\n" ++ rest))))))))))))))

pub read_line-written :
    (e : AuditRecord) (rest : Str)
    → All IsScalar e.sql
    → IsText e.error
    → read_line (written e rest) ≡ some (e, rest)
unfolding read_line written
read_line-written e rest h k =
    field-Reads (str "{\"timestamp\": ") read_ℕ _ e.timestamp (of_ℕ e.timestamp) _
      (ℕ-Reads e.timestamp) refl
    ∙ field-Reads (str ", \"sql\": ") read_quoted _ e.sql (quoted e.sql) _ (text-Reads e.sql h) refl
    ∙ field-Reads (str ", \"row_limit\": ") read_ℤ _ e.row_limit (of_ℤ e.row_limit) _
        (ℤ-Reads e.row_limit) refl
    ∙ field-Reads (str ", \"success\": ") read_bool _ e.success (written_bool e.success) _
        (bool-Reads e.success) refl
    ∙ field-Reads (str ", \"row_count\": ") (read_optional read_ℕ) _ e.row_count
        (written_optional of_ℕ e.row_count) _ (optional_ℕ-Reads e.row_count) refl
    ∙ field-Reads (str ", \"error\": ") (read_optional read_quoted) _ e.error
        (written_optional quoted e.error) _ (optional_text-Reads e.error k) refl
    ∙ field-Reads (str ", \"duration_ms\": ") (read_optional read_ℕ) _ e.duration_ms
        (written_optional of_ℕ e.duration_ms) (str "}\n" ++ rest) (optional_ℕ-Reads e.duration_ms)
        refl

dumps-optional_ℕ : (o : Option ℕ) → dumps (optional (λ n. int (pos n)) o) ≡ written_optional of_ℕ o
dumps-optional_ℕ none = dumps-null
dumps-optional_ℕ (some n) = dumps-int (pos n) ∙ (unfold of_ℤ in refl)

dumps-optional_text : (o : Option Str) → dumps (optional text o) ≡ written_optional quoted o
dumps-optional_text none = dumps-null
dumps-optional_text (some s) = dumps-text s

pub line-written : (e : AuditRecord) (rest : Str) → line e ++ rest ≡ written e rest
unfolding asdict written quoted escape_all escape of_ℤ
line-written e rest =
    simp
      (
        append_assoc, dumps-object, dumps_fields-more, dumps_fields-last, dumps-int, dumps-text,
        dumps-optional_ℕ, dumps-optional_text, dumps-bool,
      )
      refl

pub written-starts : (e : AuditRecord) (rest : Str) → (c : ℕ) × (s : Str) × (written e rest ≡ c ∷ s)
unfolding written
written-starts e rest = (b'{', _, refl)
