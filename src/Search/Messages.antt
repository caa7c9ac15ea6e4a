-- ===== src/Search/Messages.antt =====
-- The tokens of components/shared/Search/queryParser.ts, and the messages that its lexer, parser
-- and validator report: a constructor for each message of the source, with what it interpolates.
use otel_desktop_viewer.Prelude.{ℕ, Text}
use otel_desktop_viewer.Search.Query.{Operator, FieldDefinition}

pub data TokenType : Type 0 where
  field operator value logical lparen rparen lbracket rbracket comma eof : TokenType

pub record Token : Type 0 where
  pub type : TokenType
  pub value : Text
  pub position : ℕ

abbrev pub token : TokenType → Text → ℕ → Token
token t v p = record { type = t; value = v; position = p }

pub data Message : Type 0 where
  -- `Unexpected token: NOT ${next}`
  unexpected_not : Text → Message
  -- unexpectedTokenMessage(value)
  unexpected_token : Text → Message
  expected_closing_parenthesis expected_field_name : Message
  unknown_field : Text → Message
  -- 'Internal error: unexpected global field in operator query'
  internal_error : Message
  expected_operator expected_operator_after_field : Message
  unknown_operator : Text → Message
  -- `Operator '${operator.symbol}' is not valid for field '${field.name}'`
  operator_not_valid : Operator → FieldDefinition → Message
  expected_value expected_value_in_array expected_value_after_comma : Message
  expected_rbracket : Message
  expected_condition_after_logical : Message
