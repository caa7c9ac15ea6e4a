-- ===== src/Search/Editor/Laws.antt =====
-- `parseQuery` and `validateQuery` on the text of a query: what they return, and where they agree.
use otel_desktop_viewer.Prelude.{
  ℕ, ◌≡◌, ◌≢◌, ◌↔◌, inl, inr, refl, Text, if◌then◌else◌, true, false, Bool-cases, List, [], ◌∷◌,
  Option, none, some, arith,
}
use otel_desktop_viewer.Search.Query.{FieldDefinition, QueryNode}
use otel_desktop_viewer.Search.Messages.{Token, Message}
use otel_desktop_viewer.Search.Lexer.{Tokens, tokens, lex_error, tokenize}
use otel_desktop_viewer.Search.Lexer.Spans.{tokenize-ends}
use otel_desktop_viewer.Search.Parser.{Parsed, parsed, failed, parse}
use otel_desktop_viewer.Search.ParserFuel.{Ends, parse-Ends}
use otel_desktop_viewer.Search.Validator.{ValidationError, Checked, checked, validate_tokens}
use otel_desktop_viewer.Search.ValidatorFuel.{Finishes, validate_tokens-Finishes}
use otel_desktop_viewer.Search.Agreement.{Agrees, parse-Agrees}
use otel_desktop_viewer.Search.Editor.{
  trim, is_blank, has_structured_syntax, Outcome, returned, thrown, global_text_search, recover,
  parse_query, lexer_error, validate_query,
}

-- `parseQuery` returns and does not throw.
abbrev pub Returns : Outcome → Type 0
Returns (returned tree n) = Unit
Returns (thrown m n) = ⊥
Returns Outcome.out_of_fuel = ⊥

module _ (fields : List FieldDefinition) (input : Text) (n : ℕ) where
  -- What `parseQuery` makes of the parser's result on the tokens `ts`.
  abbrev outcome : List Token → Parsed (Option QueryNode) → Outcome
  outcome ts (parsed tree rest n') = returned tree n'
  outcome ts (failed m n') = recover input ts m n'
  outcome ts Parsed.out_of_fuel = Outcome.out_of_fuel

  abbrev report : Checked → Option (List ValidationError)
  report (checked rest es) = some es
  report Checked.out_of_fuel = none

  parse_query-tokens :
      (ts : List Token)
      → is_blank input ≡ false
      → tokenize input ≡ tokens ts
      → parse_query fields input n ≡ outcome ts (parse fields ts n)
  unfolding parse_query
  parse_query-tokens ts b e = rw (b, e) (same (parse fields ts n))
    where
      same :
          (p : Parsed (Option QueryNode))
          → elim p [
            | parsed tree rest n' ↦ returned tree n'
            | failed m n' ↦ recover input ts m n'
            | Parsed.out_of_fuel ↦ Outcome.out_of_fuel
          ]
            ≡ outcome ts p
      same (parsed tree rest n') = refl
      same (failed m n') = refl
      same Parsed.out_of_fuel = refl

  validate_query-tokens :
      (ts : List Token)
      → is_blank input ≡ false
      → tokenize input ≡ tokens ts
      → validate_query fields input
        ≡ (if has_structured_syntax ts then report (validate_tokens fields ts) else some [])
  unfolding validate_query
  validate_query-tokens ts b e = rw (b, e) (ground arith)

  report-ne : (v : Checked) → ((us : List Token) → v ≢ checked us []) → report v ≢ some []
  report-ne (checked us []) h = λ e. h us refl
  report-ne (checked us (x ∷ xs)) h = λ e. cc
  report-ne Checked.out_of_fuel h = λ e. cc

  -- With structured syntax the parser's answer stands.
  structured-agree :
      (ts : List Token) (p : Parsed (Option QueryNode)) (v : Checked) (k : ℕ)
      → has_structured_syntax ts ≡ true
      → Agrees p v
      → Ends p k
      → (report v ≡ some []) ↔ Returns (outcome ts p)
  structured-agree ts (parsed tree rest n') v k s h e = (λ _. tt, λ _. rw h refl)
  structured-agree ts (failed m n') v k s h e =
      (λ r. absurd (report-ne v h r), λ r. absurd (rw s at r))
  structured-agree ts Parsed.out_of_fuel v k s h e = absurd e

  -- Without it every answer is a tree.
  plain-Returns :
      (ts : List Token) (p : Parsed (Option QueryNode)) (k : ℕ)
      → has_structured_syntax ts ≡ false
      → Ends p k
      → Returns (outcome ts p)
  plain-Returns ts (parsed tree rest n') k s e = tt
  plain-Returns ts (failed m n') k s e = rw s tt
  plain-Returns ts Parsed.out_of_fuel k s e = e

  agree_on_tokens :
      (ts : List Token)
      → is_blank input ≡ false
      → tokenize input ≡ tokens ts
      → (validate_query fields input ≡ some []) ↔ Returns (parse_query fields input n)
  agree_on_tokens [] b e =
      rw (validate_query-tokens [] b e, parse_query-tokens [] b e)
        (unfold parse in (λ _. tt, λ _. refl))
  agree_on_tokens (t ∷ ts) b e = elim (Bool-cases (has_structured_syntax (t ∷ ts))) [
    | inl s ↦
        rw (validate_query-tokens (t ∷ ts) b e, parse_query-tokens (t ∷ ts) b e, s)
          (structured-agree (t ∷ ts) _ _ _ s (parse-Agrees fields t ts n)
            (parse-Ends fields (t ∷ ts) n))
    | inr s ↦
        rw (validate_query-tokens (t ∷ ts) b e, parse_query-tokens (t ∷ ts) b e, s)
          ((λ _. plain-Returns (t ∷ ts) _ _ s (parse-Ends fields (t ∷ ts) n)), λ _. refl)
  ]

  agree_on_blank :
      is_blank input ≡ true
      → (validate_query fields input ≡ some []) ↔ Returns (parse_query fields input n)
  unfolding validate_query parse_query
  agree_on_blank b = rw b (λ _. tt, λ _. refl)

-- On every query that the lexer accepts, the validator reports no error exactly when `parseQuery`
-- returns instead of throwing.
pub validate_query-parse_query :
    (fields : List FieldDefinition) (input : Text) (n : ℕ) (ts : List Token)
    → tokenize input ≡ tokens ts
    → (validate_query fields input ≡ some []) ↔ Returns (parse_query fields input n)
validate_query-parse_query fields input n ts e = elim (Bool-cases (is_blank input)) [
  | inl b ↦ agree_on_blank fields input n b
  | inr b ↦ agree_on_tokens fields input n ts b e
]

-- On a query that is not blank and that the lexer refuses, the two differ: the validator reports
-- one error over the whole text, and `parseQuery` returns a search for the trimmed text.
pub lex_error-diverges :
    (fields : List FieldDefinition) (input : Text) (n : ℕ) (m : Message)
    → is_blank input ≡ false
    → tokenize input ≡ lex_error m
    → (validate_query fields input ≡ some (lexer_error fields input m ∷ []))
      × (parse_query fields input n ≡ global_text_search (trim input) n)
unfolding validate_query parse_query
lex_error-diverges fields input n m b e = (rw (b, e) refl, rw (b, e) refl)

Ends-outcome :
    (fields : List FieldDefinition) (input : Text) (n : ℕ) (ts : List Token)
    (p : Parsed (Option QueryNode)) (k : ℕ)
    → Ends p k
    → outcome fields input n ts p ≢ Outcome.out_of_fuel
Ends-outcome fields input n ts (parsed tree rest n') k h = cc
Ends-outcome fields input n ts (failed m n') k h = ground arith
Ends-outcome fields input n ts Parsed.out_of_fuel k h = absurd h

Finishes-report :
    (fields : List FieldDefinition) (input : Text) (n : ℕ) (ts : List Token) (v : Checked) (k : ℕ)
    → Finishes v k
    → (if has_structured_syntax ts then report fields input n v else some []) ≢ none
Finishes-report fields input n ts (checked rest es) k h = ground arith
Finishes-report fields input n ts Checked.out_of_fuel k h = absurd h

-- Neither `parseQuery` nor `validateQuery` runs out of fuel, on any text.
pub parse_query-ends :
    (fields : List FieldDefinition) (input : Text) (n : ℕ)
    → (parse_query fields input n ≢ Outcome.out_of_fuel) × (validate_query fields input ≢ none)
unfolding parse_query validate_query
parse_query-ends fields input n = elim (Bool-cases (is_blank input)) [
  | inl b ↦ rw b (λ e. cc, λ e. cc)
  | inr b ↦ on_tokens (tokenize input) refl b
]
  where
    on_tokens :
        (x : Tokens)
        → tokenize input ≡ x
        → is_blank input ≡ false
        → (parse_query fields input n ≢ Outcome.out_of_fuel) × (validate_query fields input ≢ none)
    on_tokens (lex_error m) e b =
        let (v, q) = lex_error-diverges fields input n m b e in rw (q, v) (λ h. cc, λ h. cc)
    on_tokens Tokens.out_of_fuel e b = absurd (tokenize-ends input e)
    on_tokens (tokens ts) e b =
        rw (parse_query-tokens fields input n ts b e, validate_query-tokens fields input n ts b e)
          (
            Ends-outcome fields input n ts _ _ (parse-Ends fields ts n),
            Finishes-report fields input n ts _ _ (validate_tokens-Finishes fields ts),
          )
