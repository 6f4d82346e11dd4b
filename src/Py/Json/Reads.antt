-- ===== src/Py/Json/Reads.antt =====
-- Reading what `json.dumps` writes for a text, by the rules of JSON.
use open_warehouse_agent.Py.Str.{Str}
use open_warehouse_agent.Py.Json.{escape, hex, unicode_escape}
use open_warehouse_agent.Base.{
  ℕ, ◌+◌, ◌-◌, ◌*◌, ◌/◌, ◌%◌, ◌≤◌, ◌<◌, ltb, leb, ◌==◌, if◌then◌else◌, ◌≡◌, refl, sym, ap, ◌∙◌, ◌⊎◌,
  inl, inr, Bool, true, false, ◌&&◌, ◌||◌, Option, none, some, [], ◌∷◌, ◌++◌, append_assoc, arith,
  ltb→lt, ==_iff,
}

-- The value of a hexadecimal digit in lower case.
abbrev pub unhex : ℕ → Option ℕ
unhex c =
    if leb b'0' c && leb c b'9'
    then some (c - b'0')
    else if leb b'a' c && leb c b'f'
    then some (c - b'a' + 10)
    else none

abbrev pub with_digit : Option ℕ → ℕ → (ℕ → Option (ℕ × Str)) → Option (ℕ × Str)
with_digit none n f = none
with_digit (some d) n f = f (n * 16 + d)

-- Four hexadecimal digits, and the text after them.
unfoldable pub read_unit : Str → Option (ℕ × Str)
read_unit (a ∷ b ∷ c ∷ d ∷ s) = with_digit (unhex a) 0 λ n.
    with_digit (unhex b) n λ m. with_digit (unhex c) m λ k. with_digit (unhex d) k λ u. some (u, s)
read_unit s = none

-- Two code units of UTF-16 for a code point above 0xffff.
abbrev pub low : ℕ → Option (ℕ × Str) → Option (ℕ × Str)
low high none = none
low high (some (u, s)) =
    if leb 0xdc00 u && leb u 0xdfff
    then some (0x10000 + (high - 0xd800) * 1024 + (u - 0xdc00), s)
    else none

abbrev pub pair : ℕ → Str → Option (ℕ × Str)
pair high (a ∷ b ∷ s) = if a == b'\\' && b == b'u' then low high (read_unit s) else none
pair high s = none

abbrev pub point : Option (ℕ × Str) → Option (ℕ × Str)
point none = none
point (some (u, s)) = if leb 0xd800 u && leb u 0xdbff then pair u s else some (u, s)

-- After a backslash.
unfoldable pub read_escape : Str → Option (ℕ × Str)
read_escape [] = none
read_escape (e ∷ s) =
    if e == b'"' || e == b'\\' || e == b'/'
    then some (e, s)
    else if e == b'n'
    then some (10, s)
    else if e == b'r'
    then some (13, s)
    else if e == b't'
    then some (9, s)
    else if e == b'f'
    then some (12, s)
    else if e == b'b'
    then some (8, s)
    else if e == b'u'
    then point (read_unit s)
    else none

-- One character of a text, and the text after it; a quote ends the text.
unfoldable pub read_char : Str → Option (ℕ × Str)
read_char [] = none
read_char (c ∷ s) =
    if c == b'\\' then read_escape s else if c == b'"' || ltb c 32 then none else some (c, s)

-- A code point that is not a surrogate.
abbrev pub IsScalar : ℕ → Type 0
IsScalar c = (c < 0x110000) × ((c < 0xd800) ⊎ (0xdfff < c))

unhex-hex : (d : ℕ) → unhex (hex d) ≡ some (d % 16)
unfolding hex
unhex-hex d = ground arith

read_unit-hex :
    (a b c d : ℕ) (s : Str)
    → read_unit (hex a ∷ hex b ∷ hex c ∷ hex d ∷ s)
      ≡ some ((((0 * 16 + a % 16) * 16 + b % 16) * 16 + c % 16) * 16 + d % 16, s)
unfolding read_unit
read_unit-hex a b c d s = rw (unhex-hex a, unhex-hex b, unhex-hex c, unhex-hex d) refl

read_unit-escape :
    (c : ℕ) (s : Str)
    → c < 0x10000
    → read_unit (hex (c / 4096) ∷ hex (c / 256) ∷ hex (c / 16) ∷ hex c ∷ s) ≡ some (c, s)
read_unit-escape c s h =
    let q : (((0 * 16 + c / 4096 % 16) * 16 + c / 256 % 16) * 16 + c / 16 % 16) * 16 + c % 16 ≡ c =
      omega arith in
    read_unit-hex (c / 4096) (c / 256) (c / 16) c s ∙ ap (λ n. some (n, s)) q

read_char-unicode_escape :
    (c : ℕ) (s : Str) → c < 0x10000 → read_char (unicode_escape c ++ s) ≡ point (some (c, s))
unfolding read_char read_escape unicode_escape
read_char-unicode_escape c s h = ap point (read_unit-escape c s h)

pair-unicode_escape :
    (high u : ℕ) (s : Str)
    → 0xdc00 ≤ u
    → u ≤ 0xdfff
    → pair high (unicode_escape u ++ s) ≡ some (0x10000 + (high - 0xd800) * 1024 + (u - 0xdc00), s)
unfolding unicode_escape
pair-unicode_escape high u s h k = rw (read_unit-escape u s (omega arith)) (ground arith)

read_char-surrogates :
    (c : ℕ) (s : Str)
    → 0x10000 ≤ c
    → c < 0x110000
    → read_char (
        unicode_escape (0xd800 + (c - 0x10000) / 1024 % 1024)
        ++ (unicode_escape (0xdc00 + (c - 0x10000) % 1024) ++ s))
      ≡ some (c, s)
read_char-surrogates c s h k =
    let high : ℕ = 0xd800 + (c - 0x10000) / 1024 % 1024 in
    let low : ℕ = 0xdc00 + (c - 0x10000) % 1024 in
    let q : 0x10000 + (high - 0xd800) * 1024 + (low - 0xdc00) ≡ c = omega arith in
    read_char-unicode_escape high (unicode_escape low ++ s) (omega arith)
    ∙ to_pair high (unicode_escape low ++ s) (omega arith) (omega arith)
    ∙ pair-unicode_escape high low s (omega arith) (omega arith)
    ∙ ap (λ n. some (n, s)) q
  where
    to_pair : (u : ℕ) (t : Str) → 0xd800 ≤ u → u ≤ 0xdbff → point (some (u, t)) ≡ pair u t
    to_pair u t a b = ground arith

-- One step of the tests in `escape`.
if-Reads :
    (c : ℕ) (rest : Str) (b : Bool) (s t : Str)
    → (b ≡ true → read_char (s ++ rest) ≡ some (c, rest))
    → (b ≡ false → read_char (t ++ rest) ≡ some (c, rest))
    → read_char ((if b then s else t) ++ rest) ≡ some (c, rest)
if-Reads c rest true s t hs ht = hs refl
if-Reads c rest false s t hs ht = ht refl

named :
    (c k : ℕ) (rest : Str)
    → (c == k) ≡ true
    → ◌≡◌ {A = Option (ℕ × Str)} (some (k, rest)) (some (c, rest))
named c k rest e = ap (λ n. some (n, rest)) (sym ((==_iff c k).0 e))

plain :
    (c : ℕ) (rest : Str)
    → (c == b'"') ≡ false
    → (c == b'\\') ≡ false
    → leb 32 c && leb c 126 ≡ true
    → read_char (c ∷ rest) ≡ some (c, rest)
unfolding read_char
plain c rest q b h = ground arith

scalar : (c : ℕ) (rest : Str) → IsScalar c → c < 0x10000 → point (some (c, rest)) ≡ some (c, rest)
scalar c rest (h, inl k) u = ground arith
scalar c rest (h, inr k) u = ground arith

pub read_char-escape :
    (c : ℕ) (rest : Str) → IsScalar c → read_char (escape c ++ rest) ≡ some (c, rest)
unfolding escape read_char read_escape
read_char-escape c rest h =
    if-Reads c rest (c == b'"') _ _ (λ e. named c b'"' rest e)
      λ q.
        if-Reads c rest (c == b'\\') _ _ (λ e. named c b'\\' rest e)
          λ b.
            if-Reads c rest (leb 32 c && leb c 126) _ _ (λ e. plain c rest q b e)
              λ p.
                if-Reads c rest (c == 10) _ _ (λ e. named c 10 rest e)
                  λ _.
                    if-Reads c rest (c == 13) _ _ (λ e. named c 13 rest e)
                      λ _.
                        if-Reads c rest (c == 9) _ _ (λ e. named c 9 rest e)
                          λ _.
                            if-Reads c rest (c == 12) _ _ (λ e. named c 12 rest e)
                              λ _.
                                if-Reads c rest (c == 8) _ _ (λ e. named c 8 rest e)
                                  λ _.
                                    if-Reads c rest (ltb c 0x10000) _ _
                                      (λ e.
                                        read_char-unicode_escape c rest (ltb→lt c 0x10000 e)
                                        ∙ scalar c rest h (ltb→lt c 0x10000 e))
                                      (λ e.
                                        ap read_char (
                                          append_assoc
                                            (unicode_escape (0xd800 + (c - 0x10000) / 1024 % 1024))
                                            (unicode_escape (0xdc00 + (c - 0x10000) % 1024)) rest)
                                        ∙ read_char-surrogates c rest (ground arith) h.0)
