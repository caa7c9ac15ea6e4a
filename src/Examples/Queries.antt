-- ===== src/Examples/Queries.antt =====
-- The query language (components/shared/Search) on concrete queries.
use otel_desktop_viewer.Prelude.{
  ℕ, get_elem?, text_eq, ◌≡◌, ◌≢◌, ◌↔◌, refl, Text, codes, List, [], ◌∷◌, ◌++◌, length, none, some,
}
use otel_desktop_viewer.Search.Query.{
  symbol, Operator, not_equals, or_op, equals, contains, FieldDefinition, field_scope, global,
  Query, and_op, QueryNode, condition, group, nil, cons,
}
use otel_desktop_viewer.Search.Messages.{
  Token, token, field, operator, value, logical, unexpected_not,
}
use otel_desktop_viewer.Search.Lexer.{upper_char, is_space, tokens, lex_error, tokenize}
use otel_desktop_viewer.Search.Lexer.Spans.{Spans, tokenize-Spans}
use otel_desktop_viewer.Search.Parser.{parse, parsed, find_field}
use otel_desktop_viewer.Search.Validator.{validate_tokens}
use otel_desktop_viewer.Search.Agreement.{Agrees, parse-Agrees}
use otel_desktop_viewer.Search.Editor.{Outcome, is_blank, trim, parse_query, validate_query}
use otel_desktop_viewer.Search.Editor.Laws.{Returns, validate_query-parse_query, parse_query-ends}
use otel_desktop_viewer.Search.Tree.{
  added, add_condition_to_tree, remove_condition_from_tree, get_all_conditions,
}
use otel_desktop_viewer.Search.Tree.Conditions.{
  others, add_condition_to_tree-get_all_conditions, remove_condition_from_tree-get_all_conditions,
}
use otel_desktop_viewer.ListPage.Sequence.{traces}
use otel_desktop_viewer.Search.RoundTrip.{parse-print_expression}
use otel_desktop_viewer.Search.RoundTrip.Grammar.{
  Written, single, several, literal, bare, Term, Expr, comparison, parenthesised, first, chained,
  print_expression, IsValidExpr, ReadsExpr,
}
use otel_desktop_viewer.Search.Fields.{get_fields_by_signal}
use otel_desktop_viewer.Search.Fields.Accepted.{name_of, get_fields_by_signal-find_field}

abbrev fields : List FieldDefinition
fields = field_scope (codes "name") (equals ∷ contains ∷ []) ∷ global ∷ []

abbrev query : Text
query = codes "name = 'a' AND name CONTAINS b"

abbrev query_tokens : List Token
query_tokens =
    token field (codes "name") 0
    ∷ token operator (codes "=") 5
    ∷ token value (codes "a") 7
    ∷ token logical (codes "AND") 11
    ∷ token field (codes "name") 15
    ∷ token operator (codes "CONTAINS") 20
    ∷ token field (codes "b") 29
    ∷ []

query_tokens-run : tokenize query ≡ tokens query_tokens
unfolding tokenize
query_tokens-run = refl

-- `NOT` with no operator behind it, which the lexer refuses.
abbrev refused : Text
refused = codes "NOT x"

refused-run : tokenize refused ≡ lex_error (unexpected_not (codes "x"))
unfolding tokenize
refused-run = refl

validate_query-parse_query_example :
    (validate_query fields query ≡ some []) ↔ Returns (parse_query fields query 0)
validate_query-parse_query_example =
    validate_query-parse_query fields query 0 query_tokens query_tokens-run

parse_query-ends_example :
    (parse_query fields query 0 ≢ Outcome.out_of_fuel) × (validate_query fields query ≢ none)
parse_query-ends_example = parse_query-ends fields query 0

tokenize-Spans_example : Spans (length query) 0 query_tokens
tokenize-Spans_example = tokenize-Spans query query_tokens query_tokens-run

abbrev first_token : Token
first_token = token field (codes "name") 0

abbrev later_tokens : List Token
later_tokens = token operator (codes "=") 5 ∷ token value (codes "a") 7 ∷ []

parse-Agrees_example :
    Agrees
      (parse fields (first_token ∷ later_tokens) 0)
      (validate_tokens fields (first_token ∷ later_tokens))
parse-Agrees_example = parse-Agrees fields first_token later_tokens 0

abbrev is_a : Query
is_a = record {
  field = field_scope (codes "name") (equals ∷ []);
  operator = equals;
  value = codes "a";
}

abbrev is_b : Query
is_b = record { field = global; operator = contains; value = codes "b" }

-- `a AND b`, and `c` behind it.
abbrev two_conditions : QueryNode
two_conditions = group 3 and_op (cons (condition 1 is_a) (cons (condition 2 is_b) nil))

abbrev three_conditions : QueryNode
three_conditions =
    group 3 and_op (cons (condition 1 is_a) (cons (condition 2 is_b) (cons (condition 4 is_a) nil)))

third_is_added : add_condition_to_tree (some two_conditions) is_a none 3 ≡ added three_conditions 4
unfolding add_condition_to_tree is_blank trim is_space
third_is_added = refl

add_condition_to_tree-get_all_conditions_example :
    get_all_conditions (some three_conditions)
    ≡ get_all_conditions (some two_conditions) ++ ((4, is_a) ∷ [])
add_condition_to_tree-get_all_conditions_example =
    add_condition_to_tree-get_all_conditions (some two_conditions) is_a none 3 three_conditions 4
      third_is_added

remove_condition_from_tree-get_all_conditions_example :
    get_all_conditions (remove_condition_from_tree (some two_conditions) 1)
    ≡ others 1 (get_all_conditions (some two_conditions))
remove_condition_from_tree-get_all_conditions_example =
    remove_condition_from_tree-get_all_conditions (some two_conditions) 1 tt

-- `name = a AND (name = null OR name CONTAINS [a, b]) AND name = a`, by the field that `fields` has.
abbrev name_field : FieldDefinition
name_field = field_scope (codes "name") (equals ∷ contains ∷ [])

abbrev named : ℕ → Operator → Written → Term
named p op w = comparison p (codes "name") name_field op w

abbrev is_a_word : Written
is_a_word = single (bare (codes "a"))

abbrev nested : Expr
nested =
    chained
      (chained (first (named 0 equals is_a_word)) and_op 1 (
        parenthesised 2 (
          chained (first (named 3 equals (single (bare (codes "null"))))) or_op 4
            (named 5 contains (several (literal (codes "a") ∷ bare (codes "b") ∷ []))))))
      and_op 6 (named 7 equals is_a_word)

nested-IsValid : IsValidExpr fields nested
unfolding find_field text_eq symbol upper_char
nested-IsValid =
    (((refl, (refl, refl)), ((refl, (refl, refl)), (refl, (refl, refl)))), (refl, (refl, refl)))

parse-print_expression_example :
    (tree : QueryNode) × ((m : ℕ) × ((parse fields (print_expression nested) 0
          ≡ parsed (some tree) [] m)
        × ReadsExpr tree nested))
parse-print_expression_example = parse-print_expression fields nested 0 nested-IsValid

-- The eighth static field of the traces.
abbrev parent_span_id_field : FieldDefinition
parent_span_id_field = field_scope (codes "parentSpanID") (equals ∷ not_equals ∷ [])

eighth_is_there : get_elem? (get_fields_by_signal traces) 7 ≡ some parent_span_id_field
unfolding get_fields_by_signal
eighth_is_there = refl

get_fields_by_signal-find_field_example :
    find_field (get_fields_by_signal traces) (name_of parent_span_id_field)
    ≡ some parent_span_id_field
get_fields_by_signal-find_field_example =
    get_fields_by_signal-find_field traces 7 parent_span_id_field eighth_is_there
