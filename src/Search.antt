-- ===== src/Search.antt =====
-- components/shared/Search: the query language of the search editor.
pub mod Query
pub mod Messages
pub mod Lexer
pub mod Parser
pub mod Validator
pub mod Agreement
pub mod ParserFuel
pub mod ValidatorFuel
pub mod Editor
pub mod Fields
pub mod RoundTrip
pub mod Tree
