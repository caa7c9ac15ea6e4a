-- ===== src/Search/Validator.antt =====
-- `validateQuery` of components/shared/Search/queryParser.ts, over the tokens of the query. The
-- state is the rest of the tokens, from `pos` on; each step returns the errors that it pushes.
use otel_desktop_viewer.Prelude.{
  ℕ, zero, suc, ◌+◌, ◌*◌, if◌then◌else◌, true, false, not, ◌&&◌, ◌||◌, List, [], ◌∷◌, ◌++◌, length,
  Option, none, some,
}
use otel_desktop_viewer.Search.Query.{FieldDefinition}
use otel_desktop_viewer.Search.Messages.{
  Token, field, operator, logical, lparen, rparen, lbracket, rbracket, comma, eof, Message,
  unexpected_token, expected_closing_parenthesis, expected_field_name, unknown_field,
  expected_operator, expected_operator_after_field, unknown_operator, operator_not_valid,
  expected_value, expected_value_in_array, expected_value_after_comma, expected_rbracket,
  expected_condition_after_logical,
}
use otel_desktop_viewer.Search.Parser.{
  is_type, is_value_token, find_field, find_operator, allows, is_global,
}

pub record ValidationError : Type 0 where
  pub from : ℕ
  pub to : ℕ
  pub message : Message

pub data Checked : Type 0 where
  checked : List Token → List ValidationError → Checked
  out_of_fuel : Checked

-- `errors.push` before what follows.
abbrev pub with_errors : List ValidationError → Checked → Checked
with_errors es (checked ts es') = checked ts (es ++ es')
with_errors es out_of_fuel = out_of_fuel

abbrev pub then_check : Checked → (List Token → Checked) → Checked
then_check (checked ts es) k = with_errors es (k ts)
then_check out_of_fuel k = out_of_fuel

-- An error that underlines a token.
abbrev pub error_at : Token → Message → ValidationError
error_at t m = record { from = t.position; to = t.position + length t.value; message = m }

-- An error that underlines one character.
abbrev pub error_at_char : Token → Message → ValidationError
error_at_char t m = record { from = t.position; to = t.position + 1; message = m }

-- The loop of `validateArray` over `, value`, and the closing bracket.
unfoldable pub validate_array_rest : Token → List Token → Checked
validate_array_rest open_bracket [] = checked [] (error_at_char open_bracket expected_rbracket ∷ [])
validate_array_rest open_bracket (c ∷ []) =
    if is_type comma c
    then checked [] (error_at c expected_value_after_comma ∷ [])
    else if is_type rbracket c
    then checked [] []
    else checked (c ∷ []) (error_at_char open_bracket expected_rbracket ∷ [])
validate_array_rest open_bracket (c ∷ v ∷ ts) =
    let more = validate_array_rest open_bracket ts in
    if is_type comma c
    then (if is_value_token v
        then more
        else checked (v ∷ ts) (error_at c expected_value_after_comma ∷ []))
    else if is_type rbracket c
    then checked (v ∷ ts) []
    else checked (c ∷ v ∷ ts) (error_at_char open_bracket expected_rbracket ∷ [])

-- `validateArray` behind the opening bracket.
unfoldable pub validate_array : Token → List Token → Checked
unfolding validate_array_rest
validate_array open_bracket [] =
    checked [] (error_at_char open_bracket expected_value_in_array ∷ [])
validate_array open_bracket (t ∷ ts) =
    if is_type rbracket t
    then checked ts []
    else if is_value_token t
    then validate_array_rest open_bracket ts
    else checked (t ∷ ts) (error_at_char open_bracket expected_value_in_array ∷ [])

-- `validateCondition`, from the value on; `op` is the operator token.
unfoldable pub validate_value : Token → List Token → Checked
unfolding validate_array
validate_value op [] = checked [] (error_at op expected_value ∷ [])
validate_value op (t ∷ ts) =
    if not (is_value_token t || is_type lbracket t)
    then checked (t ∷ ts) (error_at op expected_value ∷ [])
    else if is_type lbracket t
    then validate_array t ts
    else checked ts []

-- The errors about the operator token `t` behind a field, which may be unknown.
unfoldable pub operator_errors : Option FieldDefinition → Token → List ValidationError
operator_errors fld t = elim (find_operator t.value) [
  | none ↦ error_at t (unknown_operator t.value) ∷ []
  | some op ↦ elim fld [
    | none ↦ []
    | some f ↦
        if not (is_global f) && not (allows f op)
        then error_at t (operator_not_valid op f) ∷ []
        else []
  ]
]

-- `validateCondition`, from the operator on.
unfoldable pub validate_operator : Option FieldDefinition → Token → List Token → Checked
unfolding validate_value operator_errors
validate_operator fld field_token [] =
    checked [] (error_at field_token expected_operator_after_field ∷ [])
validate_operator fld field_token (t ∷ ts) =
    if is_type operator t
    then with_errors (operator_errors fld t) (validate_value t ts)
    else checked (t ∷ ts) (error_at t expected_operator ∷ [])

module _ (fields : List FieldDefinition) where
  abbrev pub field_errors : Token → List ValidationError
  field_errors t = elim (find_field fields t.value) [
    | none ↦ error_at t (unknown_field t.value) ∷ []
    | some f ↦ []
  ]

  unfoldable pub validate_condition : List Token → Checked
  unfolding validate_operator
  validate_condition [] = checked [] []
  validate_condition (t ∷ ts) =
      if is_type field t
      then with_errors (field_errors t) (validate_operator (find_field fields t.value) t ts)
      else checked ts (error_at t expected_field_name ∷ [])

  -- The end of `validateTerm`, behind the expression that the parenthesis `open_paren` opens.
  unfoldable pub close_paren : Token → List Token → Checked
  close_paren open_paren [] =
      checked [] (error_at_char open_paren expected_closing_parenthesis ∷ [])
  close_paren open_paren (t ∷ ts) =
      if is_type rparen t
      then checked ts []
      else checked (t ∷ ts) (error_at_char open_paren expected_closing_parenthesis ∷ [])

  -- `validateExpression`, its loop, and `validateTerm`.
  unfoldable mutual
    pub validate_expression : ℕ → List Token → Checked
    validate_expression zero ts = out_of_fuel
    validate_expression (suc fuel) ts =
        then_check (validate_term fuel ts) (λ ts'. validate_more fuel ts')

    pub validate_more : ℕ → List Token → Checked
    validate_more zero ts = out_of_fuel
    validate_more (suc fuel) [] = checked [] []
    validate_more (suc fuel) (t ∷ []) = elim (is_type logical t) [
      | true ↦ checked [] (error_at t expected_condition_after_logical ∷ [])
      | false ↦ checked (t ∷ []) []
    ]
    validate_more (suc fuel) (t ∷ u ∷ ts) = elim (is_type logical t) [
      | true ↦ elim (is_type eof u) [
        | true ↦ checked (u ∷ ts) (error_at t expected_condition_after_logical ∷ [])
        | false ↦ then_check (validate_term fuel (u ∷ ts)) (λ ts'. validate_more fuel ts')
      ]
      | false ↦ checked (t ∷ u ∷ ts) []
    ]

    pub validate_term : ℕ → List Token → Checked
    validate_term zero ts = out_of_fuel
    validate_term (suc fuel) [] = checked [] []
    validate_term (suc fuel) (t ∷ ts) = elim (is_type lparen t) [
      | true ↦ then_check (validate_expression fuel ts) (λ ts'. close_paren t ts')
      | false ↦ validate_condition (t ∷ ts)
    ]

  -- `current() && current()!.type !== 'EOF'`
  unfoldable pub leftover_errors : List Token → Checked
  leftover_errors [] = checked [] []
  leftover_errors (t ∷ ts) =
      if is_type eof t
      then checked (t ∷ ts) []
      else checked (t ∷ ts) (error_at t (unexpected_token t.value) ∷ [])

  -- `validateExpression` and the check for unconsumed tokens.
  unfoldable pub validate_tokens : List Token → Checked
  unfolding validate_expression leftover_errors
  validate_tokens ts =
      then_check (validate_expression (2 * length ts + 2) ts) (λ ts'. leftover_errors ts')
