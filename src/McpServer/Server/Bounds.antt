-- ===== src/McpServer/Server/Bounds.antt =====
-- The server over the adapters: no answer has more rows than the server allows.
use open_warehouse_agent.Base.Int.{ℤ, pos, min_ℤ}
use open_warehouse_agent.Connector.Protocol.{WarehouseConnector, Driver}
use open_warehouse_agent.Connector.SqlGuard.{Sqlglot}
use open_warehouse_agent.Connector.SqlGuard.SelectOnly.{IsOneSelect}
use open_warehouse_agent.Connector.SqlGuard.Limits.{IsLawful}
use open_warehouse_agent.Connector.Contract.{
  Backend, connector_of, LimitsRows, RespectsLimits, run_query-bounded, run_query-guards,
}
use open_warehouse_agent.McpServer.Server.{Times, QueryReply, Server, reply_of, run_query}
use open_warehouse_agent.McpServer.Server.Audited.{answer}
use open_warehouse_agent.Py.Str.{Str}
use open_warehouse_agent.Py.Result.{ok, Result-cases, is_ok}
use open_warehouse_agent.Base.{ℕ, ◌≤◌, ltb, ◌≡◌, inl, inr, false, arith, length, Bool-cases}

module _ (S : Sqlglot) (D : Driver) (default_schema : Str) (b : Backend) where
  abbrev W : WarehouseConnector
  W = connector_of S D default_schema b

  smaller_pos : (m k : ℕ) → (n : ℕ) × (min_ℤ (pos m) (pos k) ≡ pos n) × (n ≤ m) × (n ≤ k)
  smaller_pos m k = elim (Bool-cases (ltb k m)) [
    | inl h ↦ (k, ground arith, ground arith, ground arith)
    | inr h ↦ (m, ground arith, ground arith, ground arith)
  ]

  -- Over every adapter: with a lawful SQL library and a warehouse that respects limits, the
  -- answer to one SELECT with no LIMIT, or with one that is a count of rows and reads as a number, not
  -- a negative one, has at most as many rows as the client asks for, and at most as many as
  -- the server allows.
  pub run_query-bounded_reply :
      (t : Times) (sql : Str) (m k : ℕ) (s : Server (connector_of S D default_schema b).Conn)
      → (select : S.Select) (reply : QueryReply) (L : IsLawful S)
      → RespectsLimits S L D (connector_of S D default_schema b).dialect
      → IsOneSelect S sql (connector_of S D default_schema b).dialect select
      → LimitsRows S L select
      → (run_query (connector_of S D default_schema b) (pos k) t sql (pos m) s).0 ≡ ok reply
      → (length reply.rows ≤ m) × (length reply.rows ≤ k) × (reply.row_count ≡ length reply.rows)
  run_query-bounded_reply t sql m k s select reply L R one lim h =
      let (n, e, le_m, le_k) = smaller_pos m k in
      elim (Result-cases (answer W (pos k) sql (pos m) s.conn)) [
        | inl (r, f) ↦
            let q : (W.run_query sql (pos n) s.conn).0 ≡ ok r = rw (← e) f in
            let (c, l) =
              run_query-bounded S D default_schema b sql n s.conn select r L R one lim q in
            let p : reply_of r ≡ reply = unfold run_query in ground arith in
            rw (← p) (omega arith, omega arith, omega arith)
        | inr (x, f) ↦ absurd (unfold run_query in ground arith)
      ]

  -- Over every adapter: a query that is not one SELECT gets no answer, and leaves the connection
  -- as it was.
  pub run_query-refused :
      (t : Times) (sql : Str) (max row_limit : ℤ)
      → (s : Server (connector_of S D default_schema b).Conn)
      → ((select : S.Select)
          → ¬ IsOneSelect S sql (connector_of S D default_schema b).dialect select)
      → (is_ok (run_query (connector_of S D default_schema b) max t sql row_limit s).0 ≡ false)
        × ((run_query (connector_of S D default_schema b) max t sql row_limit s).1.conn ≡ s.conn)
  unfolding run_query
  run_query-refused t sql max row_limit s refused =
      let (e, p) = run_query-guards S D default_schema b sql (min_ℤ row_limit max) s.conn refused in
      (ground arith, ground arith)
