-- ===== src/Search/Lexer.antt =====
-- The class `Lexer` of components/shared/Search/queryParser.ts. `input` and `position` are kept as
-- the rest of the input from the position on, and the position: `current` is the head of the rest.
pub mod Progress
pub mod Spans
use otel_desktop_viewer.Prelude.{
  ◌≡◌, refl, ℕ, zero, suc, ◌+◌, ◌-◌, Text, codes, text_eq, leb, ◌==◌, if◌then◌else◌, Bool, true,
  false, ◌&&◌, ◌||◌, List, [], ◌∷◌, any, length, Option, none, some, map,
}
use otel_desktop_viewer.Search.Messages.{
  TokenType, Token, token, field, operator, value, logical, lparen, rparen, lbracket, rbracket,
  comma, eof, Message, unexpected_not,
}

pub record Lexer : Type 0 where
  pub rest : Text
  pub position : ℕ

abbrev pub at : Text → ℕ → Lexer
at r p = record { rest = r; position = p }

-- The class `\s`, which is also what `trim` removes.
unfoldable pub is_space : ℕ → Bool
is_space c =
    leb 9 c && leb c 13
    || c == 32
    || c == 160
    || c == 0x1680
    || leb 0x2000 c && leb c 0x200a
    || c == 0x2028
    || c == 0x2029
    || c == 0x202f
    || c == 0x205f
    || c == 0x3000
    || c == 0xfeff

-- The class `[a-zA-Z0-9_.\-]`.
is_word_char : ℕ → Bool
is_word_char c =
    leb b'a' c && leb c b'z'
    || leb b'A' c && leb c b'Z'
    || leb b'0' c && leb c b'9'
    || c == b'_'
    || c == b'.'
    || c == b'-'

is_quote : ℕ → Bool
is_quote c = c == 34 || c == 39 || c == 96

-- The class `[\s()[\],]`.
is_delimiter : ℕ → Bool
is_delimiter c = is_space c || c == 40 || c == 41 || c == 91 || c == 93 || c == 44

-- `toUpperCase`, for texts that are then compared with ASCII keywords: of the characters outside
-- ASCII, only U+0131 and U+017F have a single ASCII letter as their capital.
unfoldable pub upper_char : ℕ → ℕ
upper_char c =
    if leb b'a' c && leb c b'z'
    then c - 32
    else if c == 0x131
    then b'I'
    else if c == 0x17f
    then b'S'
    else c

abbrev pub to_upper_case : Text → Text
to_upper_case = map upper_char

-- `/^[:=!><~^$]/`; the two-character tests of the source begin with one of these characters too.
is_operator_char : ℕ → Bool
is_operator_char c =
    c == b':'
    || c == b'='
    || c == b'!'
    || c == b'>'
    || c == b'<'
    || c == b'~'
    || c == b'^'
    || c == b'$'

-- `this.current + this.peek()`
two_char : Text → Text
two_char [] = []
two_char (c ∷ []) = c ∷ []
two_char (c ∷ d ∷ r) = c ∷ d ∷ []

abbrev one_of : List Text → Text → Bool
one_of options s = any (λ o. text_eq s o) options

is_operator_start : Text → Bool
is_operator_start [] = false
is_operator_start (c ∷ r) =
    is_operator_char c || one_of (codes "^=" ∷ codes "$=" ∷ []) (two_char (c ∷ r))

skip_whitespace : Text → ℕ → Lexer
skip_whitespace [] p = at [] p
skip_whitespace (c ∷ r) p = if is_space c then skip_whitespace r (suc p) else at (c ∷ r) p

-- What `\e` stands for inside a string quoted by `q`.
escape : ℕ → ℕ → ℕ
escape q e =
    if e == b'n'
    then 10
    else if e == b't'
    then 9
    else if e == b'r'
    then 13
    else if e == 92
    then 92
    else if e == q
    then q
    else e

abbrev push : ℕ → Text × Lexer → Text × Lexer
push c (s, l) = (c ∷ s, l)

-- The loop of `readString` behind the opening quote `q`, and the closing quote.
read_quoted : ℕ → Text → ℕ → Text × Lexer
read_quoted q [] p = ([], at [] p)
read_quoted q (c ∷ []) p =
    if c == q
    then ([], at [] (suc p))
    else if c == 92
    then ([], at [] (suc p))
    else (c ∷ [], at [] (suc p))
read_quoted q (c ∷ e ∷ r) p =
    let escaped = push (escape q e) (read_quoted q r (suc (suc p))) in
    let plain = push c (read_quoted q (e ∷ r) (suc p)) in
    if c == q then ([], at (e ∷ r) (suc p)) else if c == 92 then escaped else plain

-- The other loop of `readString`.
read_unquoted : Text → ℕ → Text × Lexer
read_unquoted [] p = ([], at [] p)
read_unquoted (c ∷ r) p =
    if is_delimiter c || is_operator_start (c ∷ r)
    then ([], at (c ∷ r) p)
    else push c (read_unquoted r (suc p))

read_string : Text → ℕ → Text × Lexer
unfolding read_quoted read_unquoted
read_string [] p = ([], at [] p)
read_string (c ∷ r) p = if is_quote c then read_quoted c r (suc p) else read_unquoted (c ∷ r) p

abbrev two_char_operators : List Text
two_char_operators =
    codes "!=" ∷ codes "!~" ∷ codes ">=" ∷ codes "<=" ∷ codes "=~" ∷ codes "^=" ∷ codes "$=" ∷ []

read_operator : Text → ℕ → Text × Lexer
read_operator [] p = ([], at [] p)
read_operator (c ∷ []) p = (c ∷ [], at [] (suc p))
read_operator (c ∷ d ∷ r) p =
    if one_of two_char_operators (c ∷ d ∷ [])
    then (c ∷ d ∷ [], at r (suc (suc p)))
    else (c ∷ [], at (d ∷ r) (suc p))

-- `readKeywordOrIdentifier`
read_word : Text → ℕ → Text × Lexer
read_word [] p = ([], at [] p)
read_word (c ∷ r) p = if is_word_char c then push c (read_word r (suc p)) else ([], at (c ∷ r) p)

-- A token and the lexer behind it, or the error that `nextToken` throws.
pub data Lexed : Type 0 where
  lexed : Token → Lexer → Lexed
  thrown : Message → Lexed

-- `NOT` was read at `position`, and the lexer stands behind it.
after_not : ℕ → Lexer → Lexed
unfolding skip_whitespace read_word
after_not position l =
    let skipped = skip_whitespace l.rest l.position in
    let (next, behind) = read_word skipped.rest skipped.position in
    if text_eq (to_upper_case next) (codes "IN")
    then lexed (token operator (codes "NOT IN") position) behind
    else if text_eq (to_upper_case next) (codes "CONTAINS")
    then lexed (token operator (codes "NOT CONTAINS") position) behind
    else thrown (unexpected_not next)

abbrev keyword_operators : List Text
keyword_operators = codes "IN" ∷ codes "CONTAINS" ∷ codes "REGEXP" ∷ []

-- The end of `nextToken`: `c` is the current character, at `position`, and `word` what was read
-- from it on. A character that begins no token is a token of its own.
word_token : ℕ → Text → ℕ → Text → Lexer → Lexed
unfolding after_not
word_token c r position word behind =
    let upper_word = to_upper_case word in
    if one_of (codes "AND" ∷ codes "OR" ∷ []) upper_word
    then lexed (token logical upper_word position) behind
    else if one_of keyword_operators upper_word
    then lexed (token operator upper_word position) behind
    else if text_eq upper_word (codes "NOT")
    then after_not position behind
    else if one_of (codes "NULL" ∷ codes "NIL" ∷ []) upper_word
    then lexed (token value (codes "NULL") position) behind
    else elim word [
      | [] ↦ lexed (token value (c ∷ []) position) (at r (suc position))
      | w ∷ ws ↦ lexed (token field (w ∷ ws) position) behind
    ]

-- The body of `nextToken` behind the whitespace.
token_at : Text → ℕ → Lexed
unfolding word_token read_string read_operator read_word
token_at [] p = lexed (token eof [] p) (at [] p)
token_at (c ∷ r) p =
    if c == b'('
    then lexed (token lparen (c ∷ []) p) (at r (suc p))
    else if c == b')'
    then lexed (token rparen (c ∷ []) p) (at r (suc p))
    else if c == b'['
    then lexed (token lbracket (c ∷ []) p) (at r (suc p))
    else if c == b']'
    then lexed (token rbracket (c ∷ []) p) (at r (suc p))
    else if c == b','
    then lexed (token comma (c ∷ []) p) (at r (suc p))
    else if is_operator_start (c ∷ r)
    then (let (op, l) = read_operator (c ∷ r) p in lexed (token operator op p) l)
    else if is_quote c
    then (let (s, l) = read_string (c ∷ r) p in lexed (token value s p) l)
    else (let (word, l) = read_word (c ∷ r) p in word_token c r p word l)

pub next_token : Lexer → Lexed
unfolding token_at skip_whitespace
next_token l =
    let skipped = skip_whitespace l.rest l.position in token_at skipped.rest skipped.position

pub data Tokens : Type 0 where
  tokens : List Token → Tokens
  lex_error : Message → Tokens
  out_of_fuel : Tokens

abbrev pub is_eof : Token → Bool
is_eof t = elim t.type [ eof ↦ true | _ ↦ false ]

abbrev add_token : Token → Tokens → Tokens
add_token t (tokens ts) = tokens (t ∷ ts)
add_token t (lex_error m) = lex_error m
add_token t out_of_fuel = out_of_fuel

-- The loop of `tokenize`.
tokenize_from : ℕ → Lexer → Tokens
tokenize_from zero l = out_of_fuel
tokenize_from (suc fuel) l = elim (next_token l) [
  | lexed t l' ↦ elim (is_eof t) [ true ↦ tokens [] | false ↦ add_token t (tokenize_from fuel l') ]
  | thrown m ↦ lex_error m
]

-- `new Lexer(input).tokenize()`. Every token but the last takes a character.
unfoldable pub tokenize : Text → Tokens
unfolding tokenize_from next_token is_word_char is_quote is_operator_char is_space two_char
    is_operator_start escape text_eq upper_char is_delimiter
tokenize input = tokenize_from (suc (length input)) (at input 0)
