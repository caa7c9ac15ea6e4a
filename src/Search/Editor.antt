-- ===== src/Search/Editor.antt =====
-- The functions that components/shared/Search/queryParser.ts exports: `parseQuery` and
-- `validateQuery` on the text of a query.
pub mod Laws
use otel_desktop_viewer.Prelude.{
  ℕ, zero, suc, ◌+◌, ◌≡◌, refl, Text, codes, if◌then◌else◌, Bool, true, false, ◌||◌, List, [], ◌∷◌,
  any, length, Option, none, some,
}
use mathlib.Core.List.{reverse}
use otel_desktop_viewer.Search.Query.{
  Operator, contains, FieldDefinition, global, Query, QueryNode, condition,
}
use otel_desktop_viewer.Search.Messages.{Token, operator, logical, Message}
use otel_desktop_viewer.Search.Lexer.{is_space, Tokens, tokens, lex_error, tokenize}
use otel_desktop_viewer.Search.Parser.{Parsed, parsed, failed, is_type, parse}
use otel_desktop_viewer.Search.Validator.{ValidationError, Checked, checked, validate_tokens}

unfoldable pub trim_start : Text → Text
trim_start [] = []
trim_start (c ∷ s) = if is_space c then trim_start s else c ∷ s

unfoldable pub trim : Text → Text
unfolding trim_start
trim s = reverse (trim_start (reverse (trim_start s)))

-- `!input.trim()`
unfoldable pub is_blank : Text → Bool
unfolding trim
is_blank s = elim (trim s) [ [] ↦ true | _ ↦ false ]

-- `hasStructuredSyntax`
abbrev pub has_structured_syntax : List Token → Bool
has_structured_syntax ts = any (λ t. is_type operator t || is_type logical t) ts

-- What `parseQuery` does: it returns a tree or `null`, with the last id given, or throws.
pub data Outcome : Type 0 where
  returned : Option QueryNode → ℕ → Outcome
  thrown : Message → ℕ → Outcome
  out_of_fuel : Outcome

-- The node that `createGlobalTextSearch` makes, which trims the text a second time.
abbrev pub global_text_search : Text → ℕ → Outcome
global_text_search input n =
    returned
      (some
        (condition (suc n) (record { field = global; operator = contains; value = trim input })))
      (suc n)

-- The `catch` of `parseQuery`, on the tokens that the second lexer gives.
abbrev pub recover : Text → List Token → Message → ℕ → Outcome
recover input ts m n =
    if has_structured_syntax ts then thrown m n else global_text_search (trim input) n

module _ (fields : List FieldDefinition) where
  -- `n` is the last number that `generateID` gave.
  unfoldable pub parse_query : Text → ℕ → Outcome
  unfolding is_blank
  parse_query input n = if is_blank input then returned none n else elim (tokenize input) [
    | lex_error m ↦ global_text_search (trim input) n
    | Tokens.out_of_fuel ↦ out_of_fuel
    | tokens ts ↦ elim (parse fields ts n) [
      | parsed tree rest n' ↦ returned tree n'
      | failed m n' ↦ recover input ts m n'
      | Parsed.out_of_fuel ↦ out_of_fuel
    ]
  ]

  -- The error for an input that the lexer refuses underlines all of it.
  abbrev pub lexer_error : Text → Message → ValidationError
  lexer_error input m = record { from = 0; to = length input; message = m }

  -- `none` stands for fuel that ran out.
  unfoldable pub validate_query : Text → Option (List ValidationError)
  unfolding is_blank
  validate_query input = if is_blank input then some [] else elim (tokenize input) [
    | lex_error m ↦ some (lexer_error input m ∷ [])
    | Tokens.out_of_fuel ↦ none
    | tokens ts ↦
        if has_structured_syntax ts
        then (elim (validate_tokens fields ts) [
          | checked rest es ↦ some es
          | Checked.out_of_fuel ↦ none
        ])
        else some []
  ]
