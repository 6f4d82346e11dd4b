-- ===== src/Agent/LlmClient/Wire.antt =====
-- What the model asked for comes back to it unchanged.
use open_warehouse_agent.Py.Str.{Str, is_empty, of_ℕ, decimal_from}
use open_warehouse_agent.Py.Json.{Json, bool, int, dumps}
use open_warehouse_agent.Py.Json.Loads.{read_json}
use open_warehouse_agent.Py.Json.Loads.RoundTrip.{IsPlain, read_json-dumps}
use open_warehouse_agent.Base.Int.{pos, negsuc}
use open_warehouse_agent.Py.Result.{Result, ok}
use open_warehouse_agent.Agent.Loop.{Call}
use open_warehouse_agent.Agent.LlmClient.{wire_calls, read_calls}
use open_warehouse_agent.Base.{
  ℕ, zero, suc, ◌+◌, ◌/◌, ◌%◌, ◌≡◌, refl, true, false, some, List, [], ◌∷◌, arith, All,
}

decimal_from-not_empty :
    (fuel n c : ℕ) (out : Str) → is_empty (decimal_from fuel n (c ∷ out)) ≡ false
unfolding decimal_from
decimal_from-not_empty zero n c out = refl
decimal_from-not_empty (suc fuel) n c out =
    ground (arith, decimal_from-not_empty fuel (n / 10) (b'0' + n % 10) (c ∷ out))

of_ℕ-not_empty : (n : ℕ) → is_empty (of_ℕ n) ≡ false
unfolding of_ℕ decimal_from
of_ℕ-not_empty n = ground (arith, decimal_from-not_empty n (n / 10) (b'0' + n % 10) [])

dumps-not_empty : (j : Json) → is_empty (dumps j) ≡ false
unfolding dumps
dumps-not_empty (bool true) = refl
dumps-not_empty (bool false) = refl
dumps-not_empty (int (pos n)) = of_ℕ-not_empty n
dumps-not_empty (int (negsuc n)) = refl
dumps-not_empty j = refl

-- `loads` is `json.loads`, of which the JSON that `read_json` reads is relied on.
module _ (loads : Str → Result Json)
    (loads_json : (s : Str) (j : Json) → read_json s ≡ some j → loads s ≡ ok j) where
  -- The calls of a message in the history, sent on the wire and read as the model's own calls are
  -- read, are the calls that they were, in order, with their ids, names and arguments, if the texts
  -- of the arguments have no surrogates and no object of them has a key twice.
  pub read_calls-wire_calls :
      (cs : List Call)
      → All (λ c. IsPlain c.arguments) cs
      → read_calls loads (wire_calls cs) ≡ ok cs
  unfolding read_calls wire_calls
  read_calls-wire_calls [] h = refl
  read_calls-wire_calls (c ∷ cs) (p, h) = ground (
    arith,
    read_calls-wire_calls cs h,
    loads_json (dumps c.arguments) c.arguments (read_json-dumps c.arguments p),
    dumps-not_empty c.arguments,
  )
