-- ===== src/Waterfall/SearchShape/Ends.antt =====
-- `hasRelevantDescendant` of components/traces/Waterfall/waterfall-tree.ts: the visit ends, and what
-- it finds.
use package.text.Mathlib.TextEquality.{eq_iff}
use otel_desktop_viewer.Prelude.{
  ℕ, zero, suc, ◌+◌, ◌≤◌, ◌≡◌, refl, String, has, Bool, true, false, Bool-cases, Option-cases, inl,
  inr, List, [], ◌∷◌, none, some, map_get, arith,
}
use otel_desktop_viewer.Waterfall.Ancestors.{unseen, unseen-cons-le, unseen-cons-lt}
use otel_desktop_viewer.Waterfall.Children.{Index, kids}
use otel_desktop_viewer.Waterfall.SearchShape.{
  Visit, then_visit, visit_kids, has_relevant_descendant,
}

-- The visit gives an answer, and has seen no less than before.
abbrev pub Answers : Index → List String → Visit → Type 0
Answers children seen v =
    (found : Bool) × (seen' : List String) × (v ≡ some (found, seen'))
    × (unseen children seen' ≤ unseen children seen)

abbrev answer : Bool → List String → Visit
answer found seen = some (found, seen)

pair-true : (b : Bool) (s t : List String) → answer true s ≡ answer b t → b ≡ true
pair-true b s t h = cc

module _ (children : Index) (relevant : List String) where
  then_visit-Answers :
      (seen : List String) (v : Visit) (f : List String → Visit)
      → Answers children seen v
      → ((seen' : List String)
          → unseen children seen' ≤ unseen children seen
          → Answers children seen' (f seen'))
      → Answers children seen (then_visit v f)
  then_visit-Answers seen v f (true, seen', e, le) onward = rw e (true, seen', refl, le)
  then_visit-Answers seen v f (false, seen', e, le) onward =
      let (found, seen'', e', le') = onward seen' le in
      rw e (found, seen'', e', omega (arith, le, le'))

  visit_kids-Answers :
      (descend : String → List String → Visit) (bound : ℕ) (ids seen : List String)
      → ((kid : String) (seen' : List String)
          → unseen children seen' ≤ bound
          → Answers children seen' (descend kid seen'))
      → unseen children seen ≤ bound
      → Answers children seen (visit_kids descend relevant ids seen)
  unfolding visit_kids
  visit_kids-Answers descend bound [] seen each h = (false, seen, refl, omega arith)
  visit_kids-Answers descend bound (kid ∷ ids) seen each h = elim (Bool-cases (has relevant kid)) [
    | inl t ↦ rw t (true, seen, refl, omega arith)
    | inr f ↦ rw f (
        then_visit-Answers seen (descend kid seen) _ (each kid seen h)
          (λ seen' le. visit_kids-Answers descend bound ids seen' each (omega (arith, le, h))))
  ]

  kids-missing : (sid : String) → map_get children sid ≡ none → kids children sid ≡ []
  kids-missing sid h = rw h refl

  pub has_relevant_descendant-Answers :
      (fuel : ℕ) (sid : String) (seen : List String)
      → unseen children seen + 2 ≤ fuel
      → Answers children seen (has_relevant_descendant fuel sid children relevant seen)
  unfolding has_relevant_descendant visit_kids
  has_relevant_descendant-Answers zero sid seen h = absurd (omega arith)
  has_relevant_descendant-Answers (suc fuel) sid seen h = elim (Bool-cases (has seen sid)) [
    | inl old ↦ rw old (false, seen, refl, omega arith)
    | inr new ↦ elim (Option-cases (map_get children sid)) [
      | inl missing ↦
          rw (new, kids-missing sid missing)
            (false, sid ∷ seen, refl, unseen-cons-le children seen sid)
      | inr (ids, found) ↦
          let fewer = unseen-cons-lt children seen sid ids found new in
          let (b, seen', e, le) =
            visit_kids-Answers
              (λ kid seen'. has_relevant_descendant fuel kid children relevant seen')
              (unseen children (sid ∷ seen)) (kids children sid) (sid ∷ seen)
              (λ kid seen' le.
                has_relevant_descendant-Answers fuel kid seen' (omega (arith, le, fewer, h)))
              (omega arith) in
          rw new (b, seen', e, omega (arith, le, fewer))
    ]
  ]

  then_visit-finds :
      (v : Visit) (f : List String → Visit) (b : Bool) (seen' : List String)
      → ((s : List String) → f s ≡ some (b, seen') → b ≡ true)
      → then_visit v f ≡ some (b, seen')
      → b ≡ true
  then_visit-finds none f b seen' onward e = cc
  then_visit-finds (some (true, s)) f b seen' onward e = cc
  then_visit-finds (some (false, s)) f b seen' onward e = onward s e

  -- A relevant child is found.
  visit_kids-finds :
      (descend : String → List String → Visit) (ids seen : List String) (k : String) (b : Bool)
      (seen' : List String)
      → has ids k ≡ true
      → has relevant k ≡ true
      → visit_kids descend relevant ids seen ≡ some (b, seen')
      → b ≡ true
  unfolding visit_kids
  visit_kids-finds descend [] seen k b seen' h r e = cc
  visit_kids-finds descend (kid ∷ ids) seen k b seen' h r e = elim (Bool-cases (has relevant kid)) [
    | inl t ↦ pair-true b seen seen' (rw t at e)
    | inr f ↦
        let other : has ids k ≡ true = ground (arith, eq_iff kid k) in
        then_visit-finds (descend kid seen) _ b seen'
          (λ s e'. visit_kids-finds descend ids s k b seen' other r e') (rw f at e)
  ]

  pub has_relevant_descendant-finds :
      (fuel : ℕ) (sid k : String) (b : Bool) (seen' : List String)
      → has (kids children sid) k ≡ true
      → has relevant k ≡ true
      → has_relevant_descendant fuel sid children relevant [] ≡ some (b, seen')
      → b ≡ true
  unfolding has_relevant_descendant
  has_relevant_descendant-finds zero sid k b seen' h r e = cc
  has_relevant_descendant-finds (suc fuel) sid k b seen' h r e =
      visit_kids-finds _ (kids children sid) (sid ∷ []) k b seen' h r e
