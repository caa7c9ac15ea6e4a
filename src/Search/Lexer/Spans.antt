-- ===== src/Search/Lexer/Spans.antt =====
-- The loop of `tokenize` of components/shared/Search/queryParser.ts: its end, and where its tokens
-- lie in the input.
use otel_desktop_viewer.Prelude.{
  ℕ, zero, suc, ◌+◌, ◌≤◌, ◌<◌, ◌≡◌, ◌≢◌, ◌⊎◌, inl, inr, refl, Text, Bool-cases, List, [], ◌∷◌,
  length, arith,
}
use otel_desktop_viewer.Search.Messages.{Token, Message}
use otel_desktop_viewer.Search.Lexer.{
  Lexer, at, Lexed, lexed, thrown, next_token, Tokens, tokens, lex_error, out_of_fuel, is_eof,
  add_token, tokenize_from, tokenize,
}
use otel_desktop_viewer.Search.Lexer.Progress.{next_token-Steps}

Lexed-cases :
    (x : Lexed) → ((t : Token) × (l : Lexer) × (x ≡ lexed t l)) ⊎ ((m : Message) × (x ≡ thrown m))
Lexed-cases (lexed t l) = inl (t, l, refl)
Lexed-cases (thrown m) = inr (m, refl)

add_token-ne : (t : Token) (x : Tokens) → x ≢ out_of_fuel → add_token t x ≢ out_of_fuel
add_token-ne t (tokens ts) h = cc
add_token-ne t (lex_error m) h = cc
add_token-ne t out_of_fuel h = absurd (h refl)

add_token-eq :
    (t : Token) (x : Tokens) (ts : List Token)
    → add_token t x ≡ tokens ts
    → (ts' : List Token) × (x ≡ tokens ts') × (ts ≡ t ∷ ts')
add_token-eq t (tokens ts') ts e = (ts', refl, ground arith)
add_token-eq t (lex_error m) ts e = cc
add_token-eq t out_of_fuel ts e = cc

tokenize_from-ends :
    (fuel : ℕ) (l : Lexer) → length l.rest < fuel → tokenize_from fuel l ≢ out_of_fuel
unfolding tokenize_from
tokenize_from-ends zero l h = elim h [ ]
tokenize_from-ends (suc fuel) l h = elim (Lexed-cases (next_token l)) [
  | inr (m, e) ↦ ground arith
  | inl (t, l', e) ↦ ground (
    arith,
    next_token-Steps l t l' e,
    tokenize_from-ends fuel l',
    add_token-ne t (tokenize_from fuel l'),
  )
]

-- Each token begins in an input of `n` characters, behind the token before it, and ends there too;
-- the exception is `NULL` for `nil`, whose last character may be one too far.
abbrev pub Spans : ℕ → ℕ → List Token → Type 0
Spans n from [] = Unit
Spans n from (t ∷ ts) =
    (from ≤ t.position)
    × (t.position < n)
    × (t.position + length t.value ≤ suc n)
    × Spans n (suc t.position) ts

tokenize_from-Spans :
    (fuel n from : ℕ) (l : Lexer) (ts : List Token)
    → l.position + length l.rest ≡ n
    → from ≤ l.position
    → tokenize_from fuel l ≡ tokens ts
    → Spans n from ts
unfolding tokenize_from
tokenize_from-Spans zero n from l ts k h e = cc
tokenize_from-Spans (suc fuel) n from l ts k h e = elim (Lexed-cases (next_token l)) [
  | inr (m, f) ↦ ground arith
  | inl (t, l', f) ↦ elim (Bool-cases (is_eof t)) [
    | inl last ↦ let nothing : ts ≡ [] = ground arith in rw nothing tt
    | inr more ↦
        let s = next_token-Steps l t l' f more in
        let added : add_token t (tokenize_from fuel l') ≡ tokens ts = ground arith in
        let (ts', rest, same) = add_token-eq t (tokenize_from fuel l') ts added in
        rw same (
          omega (arith, s.start),
          omega (arith, s.kept, s.forward),
          omega (arith, s.kept, s.fits),
          tokenize_from-Spans fuel n (suc t.position) l' ts' (omega (arith, s.kept)) s.forward rest,
        )
  ]
]

-- The tokenizer ends on every input.
pub tokenize-ends : (input : Text) → tokenize input ≢ out_of_fuel
unfolding tokenize
tokenize-ends input = tokenize_from-ends (suc (length input)) (at input 0) (omega arith)

-- The tokens of an input stand in its order, each begins inside the input, and none reaches further
-- than one character behind its end.
pub tokenize-Spans :
    (input : Text) (ts : List Token) → tokenize input ≡ tokens ts → Spans (length input) 0 ts
unfolding tokenize
tokenize-Spans input ts e =
    tokenize_from-Spans (suc (length input)) (length input) 0 (at input 0) ts (omega arith)
      (omega arith) e
