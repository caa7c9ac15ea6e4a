-- ===== src/Search/Agreement.antt =====
-- `Parser` and `validateQuery` of components/shared/Search/queryParser.ts on the same tokens.
use otel_desktop_viewer.Prelude.{
  ℕ, zero, suc, ◌+◌, ◌*◌, ◌≡◌, ◌≢◌, inl, inr, refl, sym, Text, true, false, Bool-cases,
  Option-cases, List, [], ◌∷◌, length, some, find_holds, arith,
}
use mathlib.Core.Bool.{or-true}
use otel_desktop_viewer.Search.Query.{
  Operator, FieldDefinition, field_scope, attribute_scope, global, QueryNode, group, pair,
}
use otel_desktop_viewer.Search.Messages.{
  Token, field, operator, logical, lparen, rparen, lbracket, rbracket, comma, eof,
}
use otel_desktop_viewer.Search.Parser.{
  Parsed, parsed, failed, then_parse, is_type, is_value_token, find_field, names, find_operator,
  allows, is_global, push_value, array_rest, parse_array, finish_condition, brackets, parse_value,
  parse_operator, parse_condition, consume_rparen, logical_of, parse_expression, parse_more,
  parse_term, check_leftover, parse,
}
use otel_desktop_viewer.Search.Validator.{
  ValidationError, Checked, checked, with_errors, then_check, validate_array_rest, validate_array,
  validate_value, operator_errors, validate_operator, field_errors, validate_condition, close_paren,
  validate_expression, validate_more, validate_term, leftover_errors, validate_tokens,
}

-- Where the parser succeeds the validator reports nothing and stands at the same token; where the
-- parser fails the validator does not finish without an error.
abbrev pub Agrees {ℓ} : {A : Type ℓ} → Parsed A → Checked → Type 0
Agrees (parsed a ts n) v = v ≡ checked ts []
Agrees (failed m n) v = (ts : List Token) → v ≢ checked ts []
Agrees Parsed.out_of_fuel v = Unit

with_errors-nil : (v : Checked) → with_errors [] v ≡ v
with_errors-nil (checked ts es) = refl
with_errors-nil Checked.out_of_fuel = refl

with_errors-ne :
    (e : ValidationError) (es : List ValidationError) (v : Checked) (ts : List Token)
    → with_errors (e ∷ es) v ≢ checked ts []
with_errors-ne e es (checked ts' es') ts = ground arith
with_errors-ne e es Checked.out_of_fuel ts = ground arith

then_check-ne :
    (v : Checked) (w : List Token → Checked)
    → ((ts : List Token) → v ≢ checked ts [])
    → (ts : List Token) → then_check v w ≢ checked ts []
then_check-ne (checked ts' []) w h ts = absurd (h ts' refl)
then_check-ne (checked ts' (e ∷ es)) w h ts = with_errors-ne e es (w ts') ts
then_check-ne Checked.out_of_fuel w h ts = ground arith

Agrees-then {ℓ κ} :
    {A : Type ℓ} {B : Type κ} (p : Parsed A) (v : Checked) (k : A → List Token → ℕ → Parsed B)
    (w : List Token → Checked)
    → Agrees p v
    → ((a : A) (ts : List Token) (n : ℕ) → Agrees (k a ts n) (w ts))
    → Agrees (then_parse p k) (then_check v w)
Agrees-then (parsed a ts n) v k w h g = rw (h, with_errors-nil (w ts)) (g a ts n)
Agrees-then (failed m n) v k w h g = then_check-ne v w h
Agrees-then Parsed.out_of_fuel v k w h g = tt

push_value-Agrees :
    (a : Text) (p : Parsed (List Text)) (v : Checked) → Agrees p v → Agrees (push_value a p) v
push_value-Agrees a (parsed vs ts n) v h = h
push_value-Agrees a (failed m n) v h = h
push_value-Agrees a Parsed.out_of_fuel v h = h

-- An array: the validator is given the bracket only to underline it.
array_rest-Agrees :
    (b : Token) (ts : List Token) (n : ℕ) → Agrees (array_rest ts n) (validate_array_rest b ts)
unfolding array_rest validate_array_rest
array_rest-Agrees b [] n = λ us. cc
array_rest-Agrees b (c ∷ []) n = elim (Bool-cases (is_type comma c)) [
  | inl h ↦ rw h (λ us. cc)
  | inr h ↦ elim (Bool-cases (is_type rbracket c)) [
    | inl g ↦ rw (h, g) refl
    | inr g ↦ rw (h, g) (λ us. cc)
  ]
]
array_rest-Agrees b (c ∷ v ∷ ts) n = elim (Bool-cases (is_type comma c)) [
  | inl h ↦ elim (Bool-cases (is_value_token v)) [
    | inl g ↦ rw (h, g) (push_value-Agrees v.value _ _ (array_rest-Agrees b ts n))
    | inr g ↦ rw (h, g) (λ us. cc)
  ]
  | inr h ↦ elim (Bool-cases (is_type rbracket c)) [
    | inl g ↦ rw (h, g) refl
    | inr g ↦ rw (h, g) (λ us. cc)
  ]
]

parse_array-Agrees :
    (b : Token) (ts : List Token) (n : ℕ) → Agrees (parse_array ts n) (validate_array b ts)
unfolding parse_array validate_array
parse_array-Agrees b [] n = λ us. cc
parse_array-Agrees b (t ∷ ts) n = elim (Bool-cases (is_type rbracket t)) [
  | inl h ↦ rw h refl
  | inr h ↦ elim (Bool-cases (is_value_token t)) [
    | inl g ↦ rw (h, g) (push_value-Agrees t.value _ _ (array_rest-Agrees b ts n))
    | inr g ↦ rw (h, g) (λ us. cc)
  ]
]

-- What follows an array changes nothing for the validator.
Agrees-then_finish :
    (p : Parsed (List Text)) (v : Checked) (fld : FieldDefinition) (op : Operator)
    → Agrees p v
    → Agrees (then_parse p (λ vs ts n. finish_condition fld op (brackets vs) ts n)) v
unfolding finish_condition
Agrees-then_finish (parsed a ts n) v fld op h = h
Agrees-then_finish (failed m n) v fld op h = h
Agrees-then_finish Parsed.out_of_fuel v fld op h = tt

parse_value-Agrees :
    (fld : FieldDefinition) (op : Operator) (o : Token) (ts : List Token) (n : ℕ)
    → Agrees (parse_value fld op ts n) (validate_value o ts)
unfolding parse_value validate_value finish_condition
parse_value-Agrees fld op o [] n = λ us. cc
parse_value-Agrees fld op o (t ∷ ts) n = elim (Bool-cases (is_type lbracket t)) [
  | inl h ↦ rw (h, or-true) (Agrees-then_finish _ _ fld op (parse_array-Agrees t ts n))
  | inr h ↦ elim (Bool-cases (is_value_token t)) [
    | inl g ↦ rw (h, g) refl
    | inr g ↦ rw (h, g) (λ us. cc)
  ]
]

with_errors-Agrees-failed :
    (es : List ValidationError) (v : Checked)
    → ((ts : List Token) → v ≢ checked ts [])
    → (ts : List Token) → with_errors es v ≢ checked ts []
with_errors-Agrees-failed [] v h = rw (with_errors-nil v) h
with_errors-Agrees-failed (e ∷ es) v h = with_errors-ne e es v

parse_operator-Agrees :
    (fld : FieldDefinition) (f : Token) (ts : List Token) (n : ℕ)
    → is_global fld ≡ false
    → Agrees (parse_operator fld ts n) (validate_operator (some fld) f ts)
unfolding parse_operator validate_operator operator_errors
parse_operator-Agrees fld f [] n named = λ us. cc
parse_operator-Agrees fld f (t ∷ ts) n named = elim (Bool-cases (is_type operator t)) [
  | inr h ↦ rw h (λ us. cc)
  | inl h ↦ elim (Option-cases (find_operator t.value)) [
    | inl none_found ↦ rw (h, none_found, operator_errors) (with_errors-ne _ [] _)
    | inr (op, found) ↦ elim (Bool-cases (allows fld op)) [
      | inl ok ↦
          rw (h, found, operator_errors, named, ok, with_errors-nil (validate_value t ts))
            (parse_value-Agrees fld op t ts n)
      | inr bad ↦ rw (h, found, operator_errors, named, bad) (with_errors-ne _ [] _)
    ]
  ]
]

is_type_eof-lparen : (u : Token) → is_type eof u ≡ true → is_type lparen u ≡ false
unfolding is_type
is_type_eof-lparen u h = ground arith

is_type_eof-field : (u : Token) → is_type eof u ≡ true → is_type field u ≡ false
unfolding is_type
is_type_eof-field u h = ground arith

module _ (fields : List FieldDefinition) where
  -- `findField` never gives a global field.
  find_field-named :
      (name : Text) (fld : FieldDefinition)
      → find_field fields name ≡ some fld
      → is_global fld ≡ false
  unfolding find_field
  find_field-named name (field_scope s os) h = refl
  find_field-named name (attribute_scope s os) h = refl
  find_field-named name global h = sym (find_holds (names name) fields global h)

  parse_condition-Agrees :
      (ts : List Token) (n : ℕ)
      → ts ≢ []
      → Agrees (parse_condition fields ts n) (validate_condition fields ts)
  unfolding parse_condition validate_condition
  parse_condition-Agrees [] n some_token = absurd (some_token refl)
  parse_condition-Agrees (t ∷ ts) n some_token = elim (Bool-cases (is_type field t)) [
    | inr h ↦ rw h (λ us. cc)
    | inl h ↦ elim (Option-cases (find_field fields t.value)) [
      | inl unknown ↦ rw (h, unknown, field_errors) (with_errors-ne _ [] _)
      | inr (fld, found) ↦
          let named = find_field-named t.value fld found in
          rw (h, found, field_errors, named, with_errors-nil (validate_operator (some fld) t ts))
            (parse_operator-Agrees fld t ts n named)
    ]
  ]

  consume_rparen-Agrees :
      (t : Token) (expr : QueryNode) (ts : List Token) (n : ℕ)
      → Agrees (consume_rparen expr ts n) (close_paren fields t ts)
  unfolding consume_rparen close_paren
  consume_rparen-Agrees t expr [] n = λ us. cc
  consume_rparen-Agrees t expr (u ∷ ts) n = elim (Bool-cases (is_type rparen u)) [
    | inl h ↦ rw h refl
    | inr h ↦ rw h (λ us. cc)
  ]

  -- The end of the input is no term: the error that the validator has at hand stands.
  parse_term-eof :
      (fuel : ℕ) (u : Token) (ts : List Token) (n : ℕ)
      (k : QueryNode → List Token → ℕ → Parsed QueryNode) (v : Checked)
      → is_type eof u ≡ true
      → ((us : List Token) → v ≢ checked us [])
      → Agrees (then_parse (parse_term fields fuel (u ∷ ts) n) k) v
  unfolding parse_term parse_condition
  parse_term-eof zero u ts n k v h g = tt
  parse_term-eof (suc fuel) u ts n k v h g =
      rw (is_type_eof-lparen u h, parse_term, is_type_eof-field u h) g

  -- Nor are no tokens.
  parse_term-nil :
      (fuel n : ℕ) (k : QueryNode → List Token → ℕ → Parsed QueryNode) (v : Checked)
      → ((us : List Token) → v ≢ checked us [])
      → Agrees (then_parse (parse_term fields fuel [] n) k) v
  unfolding parse_term parse_condition
  parse_term-nil zero n k v g = tt
  parse_term-nil (suc fuel) n k v g = g

  -- An opening parenthesis at the end.
  parse_expression-nil :
      (fuel n : ℕ) (t : Token)
      → Agrees
          (then_parse
            (parse_expression fields fuel [] n)
            (λ expr ts' n'. consume_rparen expr ts' n'))
          (then_check (validate_expression fields fuel []) (λ ts'. close_paren fields t ts'))
  unfolding parse_expression validate_expression parse_condition close_paren
  parse_expression-nil zero n t = tt
  parse_expression-nil (suc zero) n t = tt
  parse_expression-nil (suc (suc fuel)) n t = λ us. cc

  mutual
    unfolding parse_expression validate_expression

    parse_expression-Agrees :
        (fuel : ℕ) (ts : List Token) (n : ℕ)
        → ts ≢ []
        → Agrees (parse_expression fields fuel ts n) (validate_expression fields fuel ts)
    parse_expression-Agrees zero ts n some_token = tt
    parse_expression-Agrees (suc fuel) ts n some_token =
        Agrees-then _ _ _ _ (parse_term-Agrees fuel ts n some_token)
          (λ left ts' n'. parse_more-Agrees fuel left ts' n')

    parse_more-Agrees :
        (fuel : ℕ) (left : QueryNode) (ts : List Token) (n : ℕ)
        → Agrees (parse_more fields fuel left ts n) (validate_more fields fuel ts)
    parse_more-Agrees zero left ts n = tt
    parse_more-Agrees (suc fuel) left [] n = refl
    parse_more-Agrees (suc fuel) left (t ∷ []) n = elim (Bool-cases (is_type logical t)) [
      | inr h ↦ rw (h, parse_more, validate_more) refl
      | inl h ↦ rw (h, parse_more, validate_more) (parse_term-nil fuel n _ _ (λ us. cc))
    ]
    parse_more-Agrees (suc fuel) left (t ∷ u ∷ ts) n = elim (Bool-cases (is_type logical t)) [
      | inr h ↦ rw (h, parse_more, validate_more) refl
      | inl h ↦ elim (Bool-cases (is_type eof u)) [
        | inl e ↦ rw (h, parse_more, validate_more, e) (parse_term-eof fuel u ts n _ _ e (λ us. cc))
        | inr e ↦
            rw (h, parse_more, validate_more, e)
              (Agrees-then _ _ _ _ (parse_term-Agrees fuel (u ∷ ts) n (λ nil. cc)) (λ right ts' n'.
                parse_more-Agrees fuel (group (suc n') (logical_of t) (pair left right)) ts'
                  (suc n')))
      ]
    ]

    parse_term-Agrees :
        (fuel : ℕ) (ts : List Token) (n : ℕ)
        → ts ≢ []
        → Agrees (parse_term fields fuel ts n) (validate_term fields fuel ts)
    parse_term-Agrees zero ts n some_token = tt
    parse_term-Agrees (suc fuel) [] n some_token = absurd (some_token refl)
    parse_term-Agrees (suc fuel) (t ∷ []) n some_token = elim (Bool-cases (is_type lparen t)) [
      | inr h ↦ rw (h, parse_term, validate_term) (parse_condition-Agrees (t ∷ []) n (λ nil. cc))
      | inl h ↦ rw (h, parse_term, validate_term) (parse_expression-nil fuel n t)
    ]
    parse_term-Agrees (suc fuel) (t ∷ u ∷ ts) n some_token = elim (Bool-cases (is_type lparen t)) [
      | inr h ↦
          rw (h, parse_term, validate_term) (parse_condition-Agrees (t ∷ u ∷ ts) n (λ nil. cc))
      | inl h ↦
          rw (h, parse_term, validate_term)
            (Agrees-then _ _ _ _ (parse_expression-Agrees fuel (u ∷ ts) n (λ nil. cc))
              (consume_rparen-Agrees t))
    ]

check_leftover-Agrees :
    (fields : List FieldDefinition) (node : QueryNode) (ts : List Token) (n : ℕ)
    → Agrees (check_leftover fields node ts n) (leftover_errors fields ts)
unfolding check_leftover leftover_errors
check_leftover-Agrees fields node [] n = refl
check_leftover-Agrees fields node (t ∷ ts) n = elim (Bool-cases (is_type eof t)) [
  | inl h ↦ rw h refl
  | inr h ↦ rw h (λ us. cc)
]

-- On any tokens, one at least: where the parser succeeds the validator reports nothing and stands at
-- the same token, and where the parser fails the validator does not end without an error.
pub parse-Agrees :
    (fields : List FieldDefinition) (t : Token) (ts : List Token) (n : ℕ)
    → Agrees (parse fields (t ∷ ts) n) (validate_tokens fields (t ∷ ts))
unfolding parse validate_tokens
parse-Agrees fields t ts n =
    Agrees-then _ _ _ _
      (parse_expression-Agrees fields (2 * length (t ∷ ts) + 2) (t ∷ ts) n (λ nil. cc))
      (check_leftover-Agrees fields)
