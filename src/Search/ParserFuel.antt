-- ===== src/Search/ParserFuel.antt =====
-- `Parser.parse` of components/shared/Search/queryParser.ts and its fuel.
use otel_desktop_viewer.Prelude.{
  ℕ, zero, suc, ◌+◌, ◌*◌, ◌≤◌, inl, inr, Text, Bool-cases, Option-cases, List, [], ◌∷◌, length,
  arith,
}
use otel_desktop_viewer.Search.Query.{Operator, FieldDefinition, QueryNode, group, pair}
use otel_desktop_viewer.Search.Messages.{
  Token, field, operator, logical, lparen, lbracket, rbracket, comma,
}
use otel_desktop_viewer.Search.Parser.{
  Parsed, parsed, failed, then_parse, is_type, is_value_token, find_field, find_operator, allows,
  is_global, push_value, array_rest, parse_array, finish_condition, parse_value, parse_operator,
  parse_condition, consume_rparen, logical_of, parse_expression, parse_more, parse_term,
  check_leftover, parse,
}

-- The result is there, and at most `k` tokens are left.
abbrev pub Ends {ℓ} : {A : Type ℓ} → Parsed A → ℕ → Type 0
Ends (parsed a ts n) k = length ts ≤ k
Ends (failed m n) k = Unit
Ends Parsed.out_of_fuel k = ⊥

Ends-then {ℓ κ} :
    {A : Type ℓ} {B : Type κ} (p : Parsed A) (w : A → List Token → ℕ → Parsed B) (k j : ℕ)
    → Ends p k
    → ((a : A) (ts : List Token) (n : ℕ) → length ts ≤ k → Ends (w a ts n) j)
    → Ends (then_parse p w) j
Ends-then (parsed a ts n) w k j h g = g a ts n h
Ends-then (failed m n) w k j h g = tt
Ends-then Parsed.out_of_fuel w k j h g = h

Ends-le {ℓ} : {A : Type ℓ} (p : Parsed A) (k j : ℕ) → k ≤ j → Ends p k → Ends p j
Ends-le (parsed a ts n) k j h g = omega arith
Ends-le (failed m n) k j h g = tt
Ends-le Parsed.out_of_fuel k j h g = g

push_value-Ends : (v : Text) (p : Parsed (List Text)) (k : ℕ) → Ends p k → Ends (push_value v p) k
push_value-Ends v (parsed vs ts n) k h = h
push_value-Ends v (failed m n) k h = tt
push_value-Ends v Parsed.out_of_fuel k h = h

array_rest-Ends : (ts : List Token) (n : ℕ) → Ends (array_rest ts n) (length ts)
unfolding array_rest
array_rest-Ends [] n = tt
array_rest-Ends (c ∷ []) n = ground arith
array_rest-Ends (c ∷ v ∷ ts) n = elim (Bool-cases (is_type comma c)) [
  | inl h ↦ elim (Bool-cases (is_value_token v)) [
    | inl g ↦
        rw (h, g) (push_value-Ends v.value _ _ (Ends-le _ _ _ (omega arith) (array_rest-Ends ts n)))
    | inr g ↦ rw (h, g) tt
  ]
  | inr h ↦ rw h (ground arith)
]

parse_array-Ends : (ts : List Token) (n : ℕ) → Ends (parse_array ts n) (length ts)
unfolding parse_array
parse_array-Ends [] n = tt
parse_array-Ends (t ∷ ts) n = elim (Bool-cases (is_type rbracket t)) [
  | inl h ↦ rw h (omega arith)
  | inr h ↦ elim (Bool-cases (is_value_token t)) [
    | inl g ↦
        rw (h, g) (push_value-Ends t.value _ _ (Ends-le _ _ _ (omega arith) (array_rest-Ends ts n)))
    | inr g ↦ rw (h, g) tt
  ]
]

parse_value-Ends :
    (fld : FieldDefinition) (op : Operator) (ts : List Token) (n : ℕ)
    → Ends (parse_value fld op ts n) (length ts)
unfolding parse_value finish_condition
parse_value-Ends fld op [] n = tt
parse_value-Ends fld op (t ∷ ts) n = elim (Bool-cases (is_type lbracket t)) [
  | inl h ↦ rw h (Ends-then _ _ (length ts) _ (parse_array-Ends ts n) (λ vs us m g. omega arith))
  | inr h ↦ rw h (ground arith)
]

parse_operator-Ends :
    (fld : FieldDefinition) (ts : List Token) (n : ℕ) → Ends (parse_operator fld ts n) (length ts)
unfolding parse_operator
parse_operator-Ends fld [] n = tt
parse_operator-Ends fld (t ∷ ts) n = elim (Bool-cases (is_type operator t)) [
  | inr h ↦ rw h tt
  | inl h ↦ elim (Option-cases (find_operator t.value)) [
    | inl unknown ↦ rw (h, unknown) tt
    | inr (op, found) ↦ elim (Bool-cases (allows fld op)) [
      | inl yes' ↦ rw (h, found, yes') (Ends-le _ _ _ (omega arith) (parse_value-Ends fld op ts n))
      | inr no' ↦ rw (h, found, no') tt
    ]
  ]
]

module _ (fields : List FieldDefinition) where
  parse_condition-Ends : (ts : List Token) (n : ℕ) → Ends (parse_condition fields ts n) (length ts)
  unfolding parse_condition
  parse_condition-Ends [] n = tt
  parse_condition-Ends (t ∷ ts) n = elim (Bool-cases (is_type field t)) [
    | inr h ↦ rw h tt
    | inl h ↦ elim (Option-cases (find_field fields t.value)) [
      | inl unknown ↦ rw (h, unknown) tt
      | inr (fld, found) ↦ elim (Bool-cases (is_global fld)) [
        | inl yes' ↦ rw (h, found, yes') tt
        | inr no' ↦ rw (h, found, no') (Ends-le _ _ _ (omega arith) (parse_operator-Ends fld ts n))
      ]
    ]
  ]

  consume_rparen-Ends :
      (expr : QueryNode) (ts : List Token) (n : ℕ) → Ends (consume_rparen expr ts n) (length ts)
  unfolding consume_rparen
  consume_rparen-Ends expr [] n = tt
  consume_rparen-Ends expr (t ∷ ts) n = ground arith

  mutual
    unfolding parse_expression

    parse_expression-Ends :
        (fuel : ℕ) (ts : List Token) (n : ℕ)
        → 2 * length ts + 2 ≤ fuel
        → Ends (parse_expression fields fuel ts n) (length ts)
    parse_expression-Ends zero ts n h = omega arith
    parse_expression-Ends (suc fuel) ts n h =
        Ends-then _ _ (length ts) _ (parse_term-Ends fuel ts n (omega arith))
          (λ left us m g. Ends-le _ _ _ g (parse_more-Ends fuel left us m (omega arith)))

    parse_more-Ends :
        (fuel : ℕ) (left : QueryNode) (ts : List Token) (n : ℕ)
        → 2 * length ts + 1 ≤ fuel
        → Ends (parse_more fields fuel left ts n) (length ts)
    parse_more-Ends zero left ts n h = omega arith
    parse_more-Ends (suc fuel) left [] n h = omega arith
    parse_more-Ends (suc fuel) left (t ∷ ts) n h = elim (Bool-cases (is_type logical t)) [
      | inr g ↦ rw (g, parse_more) (omega arith)
      | inl g ↦
          rw (g, parse_more)
            (Ends-then _ _ (length ts) _ (parse_term-Ends fuel ts n (omega arith)) (λ right us m k.
              Ends-le _ _ _ (omega arith) (
                parse_more-Ends fuel (group (suc m) (logical_of t) (pair left right)) us (suc m)
                  (omega arith))))
    ]

    parse_term-Ends :
        (fuel : ℕ) (ts : List Token) (n : ℕ)
        → 2 * length ts + 1 ≤ fuel
        → Ends (parse_term fields fuel ts n) (length ts)
    parse_term-Ends zero ts n h = omega arith
    parse_term-Ends (suc fuel) [] n h = parse_condition-Ends [] n
    parse_term-Ends (suc fuel) (t ∷ ts) n h = elim (Bool-cases (is_type lparen t)) [
      | inr g ↦ rw (g, parse_term) (parse_condition-Ends (t ∷ ts) n)
      | inl g ↦
          rw (g, parse_term)
            (Ends-then _ _ (length ts) _ (parse_expression-Ends fuel ts n (omega arith))
              (λ expr us m k. Ends-le _ _ _ (omega arith) (consume_rparen-Ends expr us m)))
    ]

-- The parser does not run out of fuel on any tokens, and where it succeeds it leaves no more of them
-- than it got.
pub parse-Ends :
    (fields : List FieldDefinition) (ts : List Token) (n : ℕ) → Ends (parse fields ts n) (length ts)
unfolding parse check_leftover
parse-Ends fields [] n = omega arith
parse-Ends fields (t ∷ ts) n =
    Ends-then _ _ (length (t ∷ ts)) _ (parse_expression-Ends fields _ (t ∷ ts) n (omega arith))
      leftover
  where
    leftover :
        (node : QueryNode) (us : List Token) (m : ℕ)
        → length us ≤ length (t ∷ ts)
        → Ends (check_leftover fields node us m) (length (t ∷ ts))
    leftover node [] m h = omega arith
    leftover node (u ∷ us) m h = ground arith
