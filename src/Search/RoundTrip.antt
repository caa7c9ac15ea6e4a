-- ===== src/Search/RoundTrip.antt =====
-- The grammar in the comments of components/shared/Search/queryParser.ts, as a printer of tokens,
-- and `Parser` on what it prints.
pub mod Grammar
use otel_desktop_viewer.Prelude.{
  ℕ, zero, suc, ◌+◌, ◌*◌, ◌≤◌, ◌<◌, ◌≡◌, refl, ap, ◌∙◌, codes, false, List, [], ◌∷◌, length, some,
  arith,
}
use otel_desktop_viewer.Search.Query.{
  FieldDefinition, LogicalOperator, QueryNode, condition, group, pair,
}
use otel_desktop_viewer.Search.Messages.{Token, token, logical, rparen}
use otel_desktop_viewer.Search.Parser.{
  Parsed, parsed, is_type, check, consume_rparen, logical_of, parse_expression, parse_more,
  parse_term, check_leftover, parse,
}
use otel_desktop_viewer.Search.RoundTrip.Grammar.{
  Word, literal, bare, Written, single, several, print_rest, print_written, Term, Expr, comparison,
  parenthesised, first, chained, logical_text, print_term, print_expr, print_expression,
  IsValidTerm, IsValidExpr, ReadsTerm, ReadsExpr, written_query, logical_of-text,
  parse_condition-comparison,
}

-- The fuel that a printed query takes.
mutual
  need_term : Term → ℕ
  need_term (comparison p name fld op w) = 1
  need_term (parenthesised p e) = need_expr e + 2

  need_expr : Expr → ℕ
  need_expr (first t) = need_term t + 1
  need_expr (chained e op p t) = need_expr e + need_term t + 1

module _ (fields : List FieldDefinition) where
  -- The tokens in front of `rest` are read as the term.
  abbrev GivesTerm : ℕ → Term → List Token → ℕ → Type 0
  GivesTerm fuel t rest n =
      (tree : QueryNode) × ((m : ℕ) × ((parse_term fields fuel (print_term t rest) n
            ≡ parsed tree rest m)
          × ReadsTerm tree t))

  -- They are read up to the loop, which still has fuel.
  abbrev GivesExpr : ℕ → Expr → List Token → ℕ → Type 0
  GivesExpr fuel e rest n =
      (tree : QueryNode) × ((m : ℕ) × ((f : ℕ) × ((parse_expression fields fuel (print_expr e rest)
                n
              ≡ parse_more fields f tree rest m)
            × ((fuel ≤ f + need_expr e) × ReadsExpr tree e))))

  parse_more-last :
      (f : ℕ) (left : QueryNode) (rest : List Token) (n : ℕ)
      → 0 < f
      → check logical rest ≡ false
      → parse_more fields f left rest n ≡ parsed left rest n
  unfolding parse_more
  parse_more-last zero left rest n k h = absurd (omega arith)
  parse_more-last (suc f) left [] n k h = refl
  parse_more-last (suc f) left (t ∷ ts) n k h = rw (h, parse_more) refl

  chained-Gives :
      (e : Expr) (op : LogicalOperator) (p : ℕ) (t : Term) (fuel : ℕ) (rest : List Token) (n : ℕ)
      → need_expr (chained e op p t) ≤ fuel
      → GivesExpr fuel e (token logical (logical_text op) p ∷ print_term t rest) n
      → ((f m : ℕ) → need_term t ≤ f → GivesTerm f t rest m)
      → GivesExpr fuel (chained e op p t) rest n
  unfolding need_term is_type print_expr parse_expression parse_more
  chained-Gives e op p t fuel rest n h (left, (m, (zero, (read, (enough, is))))) right =
      absurd (omega (arith, h, enough))
  chained-Gives e op p t fuel rest n h (left, (m, (suc f, (read, (enough, is))))) right =
      let (tree, (k, (read_t, is_t))) = right f m (omega (arith, h, enough)) in
      let joined = group (suc k) op (pair left tree) in
      let whole : parse_expression fields fuel (print_expr (chained e op p t) rest) n
          ≡ parse_more fields f joined rest (suc k) =
        rw (print_expr, read, parse_more, read_t)
          (ap (λ o. parse_more fields f (group (suc k) o (pair left tree)) rest (suc k))
            (logical_of-text op p)) in
      (
        joined,
        (suc k, (f, (whole, (omega (arith, enough), (suc k, (left, (tree, (refl, (is, is_t))))))))),
      )

  parenthesised-Gives :
      (p : ℕ) (e : Expr) (f : ℕ) (rest : List Token) (n : ℕ)
      → need_expr e + 1 ≤ f
      → GivesExpr f e (token rparen (codes ")") p ∷ rest) n
      → GivesTerm (suc f) (parenthesised p e) rest n
  unfolding parse_term print_term is_type consume_rparen
  parenthesised-Gives p e f rest n h (tree, (m, (k, (read, (enough, is))))) = (
    tree,
    (
      m,
      (
        rw
            (
              read,
              parse_more-last k tree (token rparen (codes ")") p ∷ rest) m
                  (omega (arith, h, enough)) refl,
            )
            refl,
        is,
      ),
    ),
  )

  mutual
    unfolding need_term parse_term parse_expression print_term is_type

    print_term-Gives :
        (t : Term) (fuel : ℕ) (rest : List Token) (n : ℕ)
        → need_term t ≤ fuel
        → IsValidTerm fields t
        → GivesTerm fuel t rest n
    print_term-Gives (comparison p name fld op w) zero rest n h v = absurd (omega arith)
    print_term-Gives (comparison p name fld op w) (suc f) rest n h v = (
      condition (suc n) (written_query fld op w),
      (suc n, (parse_condition-comparison fields p name fld op w rest n v, (suc n, refl))),
    )
    print_term-Gives (parenthesised p e) zero rest n h v = absurd (omega arith)
    print_term-Gives (parenthesised p e) (suc f) rest n h v =
        parenthesised-Gives p e f rest n (omega (arith, h))
          (print_expr-Gives e f (token rparen (codes ")") p ∷ rest) n (omega (arith, h)) v)

    print_expr-Gives :
        (e : Expr) (fuel : ℕ) (rest : List Token) (n : ℕ)
        → need_expr e ≤ fuel
        → IsValidExpr fields e
        → GivesExpr fuel e rest n
    print_expr-Gives (first t) zero rest n h v = absurd (omega arith)
    print_expr-Gives (first t) (suc f) rest n h v =
        let (tree, (m, (read, is))) = print_term-Gives t f rest n (omega (arith, h)) v in
        (tree, (m, (f, (rw read refl, (omega arith, is)))))
    print_expr-Gives (chained e op p t) fuel rest n h (ve, vt) =
        chained-Gives e op p t fuel rest n h
          (print_expr-Gives e fuel (token logical (logical_text op) p ∷ print_term t rest) n
            (omega (arith, h)) ve)
          (λ f m enough. print_term-Gives t f rest m enough vt)

length-print_written :
    (p : ℕ) (w : Written) (rest : List Token) → length rest ≤ length (print_written p w rest)
length-print_written p (single (literal v)) rest = omega arith
length-print_written p (single (bare v)) rest = omega arith
length-print_written p (several []) rest = omega arith
length-print_written p (several (w ∷ ws)) rest = omega (arith, length-print_rest p ws rest)
  where
    length-print_rest :
        (q : ℕ) (ws : List Word) (rest : List Token) → length rest ≤ length (print_rest q ws rest)
    length-print_rest q [] rest = omega arith
    length-print_rest q (w ∷ ws) rest = omega (arith, length-print_rest q ws rest)

mutual
  unfolding print_term

  print_term-positive : (t : Term) (rest : List Token) → 0 < length (print_term t rest)
  print_term-positive (comparison p name fld op w) rest = omega arith
  print_term-positive (parenthesised p e) rest = omega arith

  print_expr-positive : (e : Expr) (rest : List Token) → 0 < length (print_expr e rest)
  print_expr-positive (first t) rest = print_term-positive t rest
  print_expr-positive (chained e op p t) rest =
      print_expr-positive e (token logical (logical_text op) p ∷ print_term t rest)

-- What is printed is long enough for the fuel.
mutual
  unfolding print_term need_term

  need_term-le :
      (t : Term) (rest : List Token)
      → need_term t + 2 * length rest + 1 ≤ 2 * length (print_term t rest)
  need_term-le (comparison p name fld op w) rest = omega (arith, length-print_written p w rest)
  need_term-le (parenthesised p e) rest =
      omega (arith, need_expr-le e (token rparen (codes ")") p ∷ rest))

  need_expr-le :
      (e : Expr) (rest : List Token)
      → need_expr e + 2 * length rest ≤ 2 * length (print_expr e rest)
  need_expr-le (first t) rest = omega (arith, need_term-le t rest)
  need_expr-le (chained e op p t) rest = omega (
    arith,
    need_expr-le e (token logical (logical_text op) p ∷ print_term t rest),
    need_term-le t rest,
  )

module _ (fields : List FieldDefinition) where
  parse-eq :
      (ts : List Token) (n : ℕ) (tree : QueryNode) (m : ℕ)
      → parse_expression fields (2 * length ts + 2) ts n ≡ parsed tree [] m
      → 0 < length ts
      → parse fields ts n ≡ parsed (some tree) [] m
  unfolding parse check_leftover
  parse-eq [] n tree m h k = absurd (omega arith)
  parse-eq (t ∷ ts) n tree m h k = rw h refl

-- Every query of the grammar is parsed from its tokens as the tree of its conditions, a chain of
-- operators from the left as it stands, with nothing left over: nested to any depth, with values,
-- bare words and arrays of them, where the names find fields that are not global and allow the
-- operators. A single value that is spelled like null is NULL in the tree.
pub parse-print_expression :
    (fields : List FieldDefinition) (e : Expr) (n : ℕ)
    → IsValidExpr fields e
    → (tree : QueryNode) × ((m : ℕ) × ((parse fields (print_expression e) n
            ≡ parsed (some tree) [] m)
          × ReadsExpr tree e))
unfolding print_expression
parse-print_expression fields e n v =
    let enough = need_expr-le e [] in
    let fuel = 2 * length (print_expression e) + 2 in
    let (tree, (m, (f, (read, (left, is))))) =
      print_expr-Gives fields e fuel [] n (omega (arith, enough)) v in
    let whole = read ∙ parse_more-last fields f tree [] m (omega (arith, enough, left)) refl in
    (
      tree,
      (m, (parse-eq fields (print_expression e) n tree m whole (print_expr-positive e []), is)),
    )
