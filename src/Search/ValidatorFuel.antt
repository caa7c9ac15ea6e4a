-- ===== src/Search/ValidatorFuel.antt =====
-- `validateQuery` of components/shared/Search/queryParser.ts and its fuel.
use otel_desktop_viewer.Prelude.{
  ℕ, zero, suc, ◌+◌, ◌*◌, ◌≤◌, inl, inr, Bool-cases, List, [], ◌∷◌, length, Option, arith,
}
use mathlib.Core.Bool.{or-true}
use otel_desktop_viewer.Search.Query.{FieldDefinition}
use otel_desktop_viewer.Search.Messages.{
  Token, field, operator, logical, lparen, lbracket, rbracket, comma, eof,
}
use otel_desktop_viewer.Search.Parser.{is_type, is_value_token, find_field}
use otel_desktop_viewer.Search.Validator.{
  ValidationError, Checked, checked, with_errors, then_check, validate_array_rest, validate_array,
  validate_value, validate_operator, validate_condition, close_paren, validate_expression,
  validate_more, validate_term, leftover_errors, validate_tokens,
}

-- The validator has finished, and at most `k` tokens are left.
abbrev pub Finishes : Checked → ℕ → Type 0
Finishes (checked ts es) k = length ts ≤ k
Finishes Checked.out_of_fuel k = ⊥

Finishes-with :
    (es : List ValidationError) (v : Checked) (k : ℕ) → Finishes v k → Finishes (with_errors es v) k
Finishes-with es (checked ts es') k h = h
Finishes-with es Checked.out_of_fuel k h = h

Finishes-then :
    (v : Checked) (w : List Token → Checked) (k j : ℕ)
    → Finishes v k
    → ((ts : List Token) → length ts ≤ k → Finishes (w ts) j)
    → Finishes (then_check v w) j
Finishes-then (checked ts es) w k j h g = Finishes-with es (w ts) j (g ts h)
Finishes-then Checked.out_of_fuel w k j h g = h

Finishes-le : (v : Checked) (k j : ℕ) → k ≤ j → Finishes v k → Finishes v j
Finishes-le (checked ts es) k j h g = omega arith
Finishes-le Checked.out_of_fuel k j h g = g

validate_array_rest-Finishes :
    (b : Token) (ts : List Token) → Finishes (validate_array_rest b ts) (length ts)
unfolding validate_array_rest
validate_array_rest-Finishes b [] = omega arith
validate_array_rest-Finishes b (c ∷ []) = ground arith
validate_array_rest-Finishes b (c ∷ v ∷ ts) = elim (Bool-cases (is_type comma c)) [
  | inl h ↦ elim (Bool-cases (is_value_token v)) [
    | inl g ↦ rw (h, g) (Finishes-le _ _ _ (omega arith) (validate_array_rest-Finishes b ts))
    | inr g ↦ rw (h, g) (omega arith)
  ]
  | inr h ↦ rw h (ground arith)
]

validate_array-Finishes : (b : Token) (ts : List Token) → Finishes (validate_array b ts) (length ts)
unfolding validate_array
validate_array-Finishes b [] = omega arith
validate_array-Finishes b (t ∷ ts) = elim (Bool-cases (is_type rbracket t)) [
  | inl h ↦ rw h (omega arith)
  | inr h ↦ elim (Bool-cases (is_value_token t)) [
    | inl g ↦ rw (h, g) (Finishes-le _ _ _ (omega arith) (validate_array_rest-Finishes b ts))
    | inr g ↦ rw (h, g) (omega arith)
  ]
]

validate_value-Finishes : (o : Token) (ts : List Token) → Finishes (validate_value o ts) (length ts)
unfolding validate_value
validate_value-Finishes o [] = omega arith
validate_value-Finishes o (t ∷ ts) = elim (Bool-cases (is_type lbracket t)) [
  | inl h ↦ rw (h, or-true) (Finishes-le _ _ _ (omega arith) (validate_array-Finishes t ts))
  | inr h ↦ rw h (ground arith)
]

validate_operator-Finishes :
    (fld : Option FieldDefinition) (f : Token) (ts : List Token)
    → Finishes (validate_operator fld f ts) (length ts)
unfolding validate_operator
validate_operator-Finishes fld f [] = omega arith
validate_operator-Finishes fld f (t ∷ ts) = elim (Bool-cases (is_type operator t)) [
  | inr h ↦ rw h (omega arith)
  | inl h ↦
      rw h (Finishes-with _ _ _ (Finishes-le _ _ _ (omega arith) (validate_value-Finishes t ts)))
]

module _ (fields : List FieldDefinition) where
  validate_condition-Finishes :
      (ts : List Token) → Finishes (validate_condition fields ts) (length ts)
  unfolding validate_condition
  validate_condition-Finishes [] = omega arith
  validate_condition-Finishes (t ∷ ts) = elim (Bool-cases (is_type field t)) [
    | inr h ↦ rw h (omega arith)
    | inl h ↦ rw h (
        Finishes-with _ _ _ (
          Finishes-le _ _ _ (omega arith)
            (validate_operator-Finishes (find_field fields t.value) t ts)))
  ]

  close_paren-Finishes :
      (t : Token) (ts : List Token) → Finishes (close_paren fields t ts) (length ts)
  unfolding close_paren
  close_paren-Finishes t [] = omega arith
  close_paren-Finishes t (u ∷ ts) = ground arith

  mutual
    unfolding validate_expression

    validate_expression-Finishes :
        (fuel : ℕ) (ts : List Token)
        → 2 * length ts + 2 ≤ fuel
        → Finishes (validate_expression fields fuel ts) (length ts)
    validate_expression-Finishes zero ts h = omega arith
    validate_expression-Finishes (suc fuel) ts h =
        Finishes-then _ _ (length ts) _ (validate_term-Finishes fuel ts (omega arith))
          (λ us g. Finishes-le _ _ _ g (validate_more-Finishes fuel us (omega arith)))

    validate_more-Finishes :
        (fuel : ℕ) (ts : List Token)
        → 2 * length ts + 1 ≤ fuel
        → Finishes (validate_more fields fuel ts) (length ts)
    validate_more-Finishes zero ts h = omega arith
    validate_more-Finishes (suc fuel) [] h = omega arith
    validate_more-Finishes (suc fuel) (t ∷ []) h = elim (Bool-cases (is_type logical t)) [
      | inr g ↦ rw (g, validate_more) (omega arith)
      | inl g ↦ rw (g, validate_more) (omega arith)
    ]
    validate_more-Finishes (suc fuel) (t ∷ u ∷ ts) h = elim (Bool-cases (is_type logical t)) [
      | inr g ↦ rw (g, validate_more) (omega arith)
      | inl g ↦ elim (Bool-cases (is_type eof u)) [
        | inl e ↦ rw (g, validate_more, e) (omega arith)
        | inr e ↦
            rw (g, validate_more, e)
              (Finishes-then _ _ (length (u ∷ ts)) _
                (validate_term-Finishes fuel (u ∷ ts) (omega arith))
                (λ us k.
                  Finishes-le _ _ _ (omega arith) (validate_more-Finishes fuel us (omega arith))))
      ]
    ]

    validate_term-Finishes :
        (fuel : ℕ) (ts : List Token)
        → 2 * length ts + 1 ≤ fuel
        → Finishes (validate_term fields fuel ts) (length ts)
    validate_term-Finishes zero ts h = omega arith
    validate_term-Finishes (suc fuel) [] h = omega arith
    validate_term-Finishes (suc fuel) (t ∷ ts) h = elim (Bool-cases (is_type lparen t)) [
      | inr g ↦ rw (g, validate_term) (validate_condition-Finishes (t ∷ ts))
      | inl g ↦
          rw (g, validate_term)
            (Finishes-then _ _ (length ts) _ (validate_expression-Finishes fuel ts (omega arith))
              (λ us k. Finishes-le _ _ _ (omega arith) (close_paren-Finishes t us)))
    ]

-- The validator does not run out of fuel on any tokens, and leaves no more of them than it got.
pub validate_tokens-Finishes :
    (fields : List FieldDefinition) (ts : List Token)
    → Finishes (validate_tokens fields ts) (length ts)
unfolding validate_tokens leftover_errors
validate_tokens-Finishes fields ts =
    Finishes-then _ _ (length ts) _ (validate_expression-Finishes fields _ ts (omega arith))
      leftover
  where
    leftover :
        (us : List Token) → length us ≤ length ts → Finishes (leftover_errors fields us) (length ts)
    leftover [] h = omega arith
    leftover (u ∷ us) h = ground arith
