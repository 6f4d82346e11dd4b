-- ===== src/Infra/SnowflakeBootstrap/Key.antt =====
-- The public key that is registered is the one in the file.
use open_warehouse_agent.Infra.SnowflakeBootstrap.{is_body_line, body_lines, public_key_body}
use open_warehouse_agent.Py.Str.{
  Str, str, strip, lstrip, rstrip, splitlines, is_break, glue, join, is_empty,
}
use open_warehouse_agent.Base.{
  ℕ, ◌≡◌, refl, sym, ap, ◌∙◌, inl, inr, Bool, true, false, ◌||◌, List, [], ◌∷◌, ◌++◌, append_assoc,
  arith, All, Bool-cases,
}

-- The file of a key: a line to begin with, lines of base64, and a line to end with.
abbrev pub pem_lines : List Str → Str
pem_lines [] = str "-----END PUBLIC KEY-----"
pem_lines (l ∷ ls) = l ++ (10 ∷ pem_lines ls)

abbrev pub pem_of : List Str → Str
pem_of ls = str "-----BEGIN PUBLIC KEY-----" ++ (10 ∷ (pem_lines ls ++ (10 ∷ [])))

abbrev pub has_break : Str → Bool
has_break [] = false
has_break (c ∷ s) = is_break c || has_break s

neither : (a b : Bool) → (a || b) ≡ false → (a ≡ false) × (b ≡ false)
neither false b h = (refl, h)
neither true b h = absurd (cc)

splitlines-step :
    (c : ℕ) (s : Str) → is_break c ≡ false → splitlines (c ∷ s) ≡ glue c (splitlines s)
unfolding splitlines
splitlines-step c s h = ground arith

splitlines-line :
    (l rest : Str) → has_break l ≡ false → splitlines (l ++ (10 ∷ rest)) ≡ l ∷ splitlines rest
splitlines-line [] rest h = unfold splitlines in refl
splitlines-line (c ∷ l) rest h =
    let (a, b) = neither (is_break c) (has_break l) h in
    splitlines-step c (l ++ (10 ∷ rest)) a ∙ ap (glue c) (splitlines-line l rest b)

-- White space at the end goes from what follows a text only, if something else follows it.
rstrip-append : (s t : Str) → is_empty (rstrip t) ≡ false → rstrip (s ++ t) ≡ s ++ rstrip t
unfolding rstrip
rstrip-append [] t h = refl
rstrip-append (c ∷ s) t h = ground (arith, rstrip-append s t h, not_empty s (rstrip t) h)
  where
    not_empty : (s t : Str) → is_empty t ≡ false → is_empty (s ++ t) ≡ false
    not_empty [] t h = h
    not_empty (c ∷ s) t h = refl

splitlines-pem_lines :
    (ls : List Str)
    → All (λ l. has_break l ≡ false) ls
    → splitlines (pem_lines ls) ≡ ls ++ (str "-----END PUBLIC KEY-----" ∷ [])
splitlines-pem_lines [] h = unfold splitlines in refl
splitlines-pem_lines (l ∷ ls) (h, k) =
    splitlines-line l (pem_lines ls) h ∙ ap (λ rest. l ∷ rest) (splitlines-pem_lines ls k)

-- The last line of the file goes.
body_lines-last :
    (ls : List Str) → body_lines (ls ++ (str "-----END PUBLIC KEY-----" ∷ [])) ≡ body_lines ls
body_lines-last [] = refl
body_lines-last (l ∷ ls) = elim (Bool-cases (is_body_line l)) [
  | inl e ↦ rw e (ap (λ rest. l ∷ rest) (body_lines-last ls))
  | inr e ↦ rw e (body_lines-last ls)
]

body_lines-all : (ls : List Str) → All (λ l. is_body_line l ≡ true) ls → body_lines ls ≡ ls
body_lines-all [] h = refl
body_lines-all (l ∷ ls) (h, k) = rw h (ap (λ rest. l ∷ rest) (body_lines-all ls k))

some_lines : (ls : List Str) → is_empty (pem_lines ls) ≡ false
some_lines [] = refl
some_lines ([] ∷ ls) = refl
some_lines ((c ∷ l) ∷ ls) = refl

rstrip-line : (s t : Str) → rstrip s ≡ t → is_empty t ≡ false → rstrip (10 ∷ s) ≡ 10 ∷ t
unfolding rstrip
rstrip-line s t e h = ground arith

rstrip-pem_lines : (ls : List Str) → rstrip (pem_lines ls ++ (10 ∷ [])) ≡ pem_lines ls
rstrip-pem_lines [] = unfold rstrip in refl
rstrip-pem_lines (l ∷ ls) =
    let q : rstrip (10 ∷ (pem_lines ls ++ (10 ∷ []))) ≡ 10 ∷ pem_lines ls =
      rstrip-line (pem_lines ls ++ (10 ∷ [])) (pem_lines ls) (rstrip-pem_lines ls)
        (some_lines ls) in
    ap rstrip (append_assoc l (10 ∷ pem_lines ls) (10 ∷ []))
    ∙ rstrip-append l (10 ∷ (pem_lines ls ++ (10 ∷ []))) (rw q refl)
    ∙ ap (λ t. l ++ t) q

strip-pem_of :
    (ls : List Str) → strip (pem_of ls) ≡ str "-----BEGIN PUBLIC KEY-----" ++ (10 ∷ pem_lines ls)
unfolding strip lstrip
strip-pem_of ls =
    let q : rstrip (10 ∷ (pem_lines ls ++ (10 ∷ []))) ≡ 10 ∷ pem_lines ls =
      rstrip-line (pem_lines ls ++ (10 ∷ [])) (pem_lines ls) (rstrip-pem_lines ls)
        (some_lines ls) in
    rstrip-append (str "-----BEGIN PUBLIC KEY-----") (10 ∷ (pem_lines ls ++ (10 ∷ []))) (rw q refl)
    ∙ ap (λ t. str "-----BEGIN PUBLIC KEY-----" ++ t) q

body-pem_of :
    (ls : List Str)
    → All (λ l. has_break l ≡ false) ls
    → public_key_body (pem_of ls) ≡ join [] (body_lines ls)
unfolding public_key_body
body-pem_of ls h =
    ap (λ s. join [] (body_lines (splitlines s))) (strip-pem_of ls)
    ∙ ap (λ ps. join [] (body_lines ps))
        (splitlines-line (str "-----BEGIN PUBLIC KEY-----") (pem_lines ls) refl)
    ∙ ap (λ ps. join [] (body_lines ps)) (splitlines-pem_lines ls h)
    ∙ ap (join []) (body_lines-last ls)

-- The body of a key's file is the lines between its first and its last one, put together, if none of
-- them holds a line break or one of the words BEGIN and END.
pub public_key_body-pem_of :
    (ls : List Str)
    → All (λ l. has_break l ≡ false) ls
    → All (λ l. is_body_line l ≡ true) ls
    → public_key_body (pem_of ls) ≡ join [] ls
public_key_body-pem_of ls h k = body-pem_of ls h ∙ ap (join []) (body_lines-all ls k)

-- A first line with no break that holds one of the words is lost: the body is that of the file
-- without the line.
pub public_key_body-drops :
    (l : Str) (ls : List Str)
    → All (λ l. has_break l ≡ false) (l ∷ ls)
    → is_body_line l ≡ false
    → public_key_body (pem_of (l ∷ ls)) ≡ public_key_body (pem_of ls)
public_key_body-drops l ls h e = body-pem_of (l ∷ ls) h ∙ (rw e refl) ∙ sym (body-pem_of ls h.1)
