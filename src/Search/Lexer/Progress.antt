-- ===== src/Search/Lexer/Progress.antt =====
-- The class `Lexer` of components/shared/Search/queryParser.ts: where a call of `nextToken` leaves
-- the position.
use otel_desktop_viewer.Prelude.{
  ℕ, suc, ◌+◌, ◌≤◌, ◌<◌, ◌≡◌, refl, ap, Text, codes, text_eq, text_eq_sound, ◌∙◌, sym, true, false,
  [], ◌∷◌, length, arith,
}
use otel_desktop_viewer.Search.Messages.{Token}
use otel_desktop_viewer.Search.Lexer.{
  Lexer, at, is_quote, skip_whitespace, read_quoted, read_string, read_operator, read_word, lexed,
  after_not, word_token, token_at, next_token, is_eof, to_upper_case,
}

-- Reading `s` from the position `p` with the rest `r` leads to `l`.
record Reads (p : ℕ) (r s : Text) (l : Lexer) : Type 0 where
  kept : l.position + length l.rest ≡ p + length r
  within : p + length s ≤ l.position

-- The whitespace is skipped.
skip_whitespace-Reads : (r : Text) (p : ℕ) → Reads p r [] (skip_whitespace r p)
unfolding skip_whitespace
skip_whitespace-Reads [] p = omega arith
skip_whitespace-Reads (c ∷ r) p = ground (arith, skip_whitespace-Reads r (suc p))

read_quoted-Reads :
    (q : ℕ) (r : Text) (p : ℕ) → Reads p r (read_quoted q r p).0 (read_quoted q r p).1
unfolding read_quoted
read_quoted-Reads q [] p = omega arith
read_quoted-Reads q (c ∷ []) p = ground arith
read_quoted-Reads q (c ∷ e ∷ r) p =
    ground (arith, read_quoted-Reads q r (suc (suc p)), read_quoted-Reads q (e ∷ r) (suc p))

read_word-Reads : (r : Text) (p : ℕ) → Reads p r (read_word r p).0 (read_word r p).1
unfolding read_word
read_word-Reads [] p = omega arith
read_word-Reads (c ∷ r) p = ground (arith, read_word-Reads r (suc p))

-- An operator is not empty.
read_operator-Reads :
    (c : ℕ) (r : Text) (p : ℕ)
    → Reads p (c ∷ r) (read_operator (c ∷ r) p).0 (read_operator (c ∷ r) p).1
      × (p < (read_operator (c ∷ r) p).1.position)
unfolding read_operator
read_operator-Reads c [] p = (omega arith, omega arith)
read_operator-Reads c (d ∷ r) p = ground arith

read_string-Reads :
    (c : ℕ) (r : Text) (p : ℕ)
    → is_quote c ≡ true
    → Reads (suc p) r (read_string (c ∷ r) p).0 (read_string (c ∷ r) p).1
unfolding read_string
read_string-Reads c r p h = rw h (read_quoted-Reads c r (suc p))

length-to_upper_case : (s : Text) → length (to_upper_case s) ≡ length s
length-to_upper_case [] = refl
length-to_upper_case (c ∷ s) = ap suc (length-to_upper_case s)

-- A word that is a keyword in some case has its length.
length_of_keyword : (s k : Text) → text_eq (to_upper_case s) k ≡ true → length s ≡ length k
length_of_keyword s k h =
    sym (length-to_upper_case s) ∙ ap length (text_eq_sound (to_upper_case s) k h)

-- The token `t`, read from `p` on with the rest `r`, leaves the lexer at `l`. A value may be one
-- longer than what was read: `nil` gives `NULL`.
pub record Steps (p : ℕ) (r : Text) (t : Token) (l : Lexer) : Type 0 where
  pub kept : l.position + length l.rest ≡ p + length r
  pub start : p ≤ t.position
  pub forward : t.position < l.position
  pub fits : t.position + length t.value ≤ suc l.position

after_not-Steps :
    (p : ℕ) (r : Text) (behind : Lexer) (t : Token) (l : Lexer)
    → p + 3 ≤ behind.position
    → behind.position + length behind.rest ≡ p + length r
    → after_not p behind ≡ lexed t l
    → Steps p r t l
unfolding after_not
after_not-Steps p r behind t l h e eq = ground (
  arith,
  skip_whitespace-Reads behind.rest behind.position,
  read_word-Reads skipped.rest skipped.position,
  length_of_keyword next (codes "IN"),
  length_of_keyword next (codes "CONTAINS"),
)
  where
    skipped : Lexer
    skipped = skip_whitespace behind.rest behind.position

    next : Text
    next = (read_word skipped.rest skipped.position).0

word_token-Steps :
    (c : ℕ) (r : Text) (p : ℕ) (word : Text) (behind : Lexer) (t : Token) (l : Lexer)
    → Reads p (c ∷ r) word behind
    → word_token c r p word behind ≡ lexed t l
    → Steps p (c ∷ r) t l
unfolding word_token
word_token-Steps c r p [] behind t l h eq = unfold text_eq in ground arith
word_token-Steps c r p (w ∷ ws) behind t l h eq = ground (
  arith,
  length-to_upper_case (w ∷ ws),
  after_not-Steps p (c ∷ r) behind t l,
  length_of_keyword (w ∷ ws) (codes "NOT"),
  length_of_keyword (w ∷ ws) (codes "NULL"),
  length_of_keyword (w ∷ ws) (codes "NIL"),
)

token_at-Steps :
    (c : ℕ) (r : Text) (p : ℕ) (t : Token) (l : Lexer)
    → token_at (c ∷ r) p ≡ lexed t l
    → Steps p (c ∷ r) t l
unfolding token_at
token_at-Steps c r p t l eq = ground (
  arith,
  read_operator-Reads c r p,
  read_string-Reads c r p,
  word_token-Steps c r p (read_word (c ∷ r) p).0 (read_word (c ∷ r) p).1 t l
      (read_word-Reads (c ∷ r) p),
)

-- `nextToken` moves forward unless it answers with the end of the input.
pub next_token-Steps :
    (l : Lexer) (t : Token) (l' : Lexer)
    → next_token l ≡ lexed t l'
    → is_eof t ≡ false
    → Steps l.position l.rest t l'
unfolding next_token
next_token-Steps l t l' eq more =
    behind skipped.rest skipped.position (skip_whitespace-Reads l.rest l.position) eq
  where
    skipped : Lexer
    skipped = skip_whitespace l.rest l.position

    behind :
        (r : Text) (p : ℕ)
        → Reads l.position l.rest [] (at r p)
        → token_at r p ≡ lexed t l'
        → Steps l.position l.rest t l'
    behind [] p h e = unfold token_at in ground arith
    behind (c ∷ r) p h e = ground (arith, token_at-Steps c r p t l')
