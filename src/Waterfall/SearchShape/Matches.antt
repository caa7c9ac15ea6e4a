-- ===== src/Waterfall/SearchShape/Matches.antt =====
-- components/traces/Waterfall: the rows that a search matches, in the tree that it folds.
use package.text.Mathlib.TextEquality.{eq_iff}
use otel_desktop_viewer.Prelude.{
  ◌+◌, ◌≡◌, ◌≢◌, refl, sym, ap, ◌∙◌, String, same, has, Bool, true, false, ◌||◌, Bool-cases, inl,
  inr, if◌then◌else◌, List, [], ◌∷◌, ◌++◌, length, any, Option, none, some, map_get, map_set,
  map_get-set, arith,
}
use otel_desktop_viewer.Waterfall.Ancestors.{
  ParentMap, parent_id, unseen-le, ancestor_ids_of-Walk, Walk,
}
use otel_desktop_viewer.Waterfall.Children.{Index, kids, listed}
use otel_desktop_viewer.Waterfall.Structure.{
  Row, row_depth, Maps, no_maps, parent_of, set_top, append_child, add_row, build_from,
  build_structural_maps,
}
use otel_desktop_viewer.Waterfall.Visibility.{has_collapsed_ancestor, has_collapsed_ancestor-any}
use otel_desktop_viewer.Waterfall.SearchShape.{
  Visit, has_relevant_descendant, has_kids, is_barren, folds, add_if, folded,
  compute_ancestors_of_matched, compute_search_collapsed_parents,
}
use otel_desktop_viewer.Waterfall.SearchShape.Ancestry.{compute_ancestors_of_matched-closed}
use otel_desktop_viewer.Waterfall.SearchShape.Ends.{
  has_relevant_descendant-Answers, has_relevant_descendant-finds,
}

-- Every span is a child of its parent.
abbrev IsTree : ParentMap → Index → Type 0
IsTree parents children =
    (k a : String) → parent_id parents k ≡ some a → has (kids children a) k ≡ true

some-list : (xs ys : List String) → some xs ≡ some ys → xs ≡ ys
some-list xs ys h = cc

has-append : (xs ys : List String) (k : String) → has (xs ++ ys) k ≡ (has xs k || has ys k)
has-append [] ys k = refl
has-append (x ∷ xs) ys k = ground (arith, has-append xs ys k)

listed-append_child :
    (found : Option (List String)) (id : String)
    → listed (some (append_child found id)) ≡ listed found ++ id ∷ []
listed-append_child none id = refl
listed-append_child (some list) id = refl

parent_id-set :
    (parents : ParentMap) (id : String) (p : Option String) (k : String)
    → parent_id (map_set parents id p) k ≡ (if same id k then p else parent_id parents k)
unfolding parent_id
parent_id-set parents id p k = elim (Bool-cases (same id k)) [
  | inl t ↦ rw (map_get-set parents id k p, t) refl
  | inr f ↦ rw (map_get-set parents id k p, f) refl
]

kids-append_child :
    (children : Index) (p id a : String)
    → kids (map_set children p (append_child (map_get children p) id)) a
      ≡ (if same p a then kids children p ++ id ∷ [] else kids children a)
kids-append_child children p id a =
    let got = map_get-set children p a (append_child (map_get children p) id) in
    elim (Bool-cases (same p a)) [
      | inl t ↦ rw (got, t) (listed-append_child (map_get children p) id)
      | inr f ↦ rw (got, f) refl
    ]

add_row-IsTree :
    (parent : Option String) (id : String) (m : Maps)
    → IsTree m.parent_by_span_id m.children_by_span_id
    → IsTree (add_row parent id m).parent_by_span_id (add_row parent id m).children_by_span_id
add_row-IsTree none id m tree k a h =
    let e = parent_id-set m.parent_by_span_id id none k in tree k a (ground arith)
add_row-IsTree (some p) id m tree k a h =
    let children = m.children_by_span_id in
    let e = parent_id-set m.parent_by_span_id id (some p) k in
    let grown = kids-append_child children p id a in
    let mine = has-append (kids children p) (id ∷ []) k in
    rw grown (elim (Bool-cases (same id k)) [
      | inl t ↦
          let here : p ≡ a = ground arith in
          let is_same : same p a ≡ true = ground (arith, eq_iff p a) in rw is_same (ground arith)
      | inr f ↦
          let old = tree k a (sym (rw f at e) ∙ h) in
          elim (Bool-cases (same p a)) [
            | inl t ↦
                let here : p ≡ a = ground (arith, eq_iff p a) in
                let also : has (kids children p) k ≡ true =
                  ap (λ x. has (kids children x) k) here ∙ old in
                rw t (ground arith)
            | inr g ↦ rw g old
          ]
    ])

build_from-IsTree :
    (stack : List (Option String)) (m : Maps) (rows : List Row)
    → IsTree m.parent_by_span_id m.children_by_span_id
    → IsTree
        (build_from stack m rows).parent_by_span_id
        (build_from stack m rows).children_by_span_id
unfolding build_from
build_from-IsTree stack m [] tree = tree
build_from-IsTree stack m (r ∷ rows) tree =
    build_from-IsTree (set_top stack (row_depth r) r.span_id)
      (add_row (parent_of stack (row_depth r)) r.span_id m) rows
      (add_row-IsTree (parent_of stack (row_depth r)) r.span_id m tree)

build_structural_maps-IsTree :
    (rows : List Row)
    → IsTree
        (build_structural_maps rows).parent_by_span_id
        (build_structural_maps rows).children_by_span_id
unfolding build_structural_maps parent_id map_get
build_structural_maps-IsTree rows = build_from-IsTree [] no_maps rows (λ k a h. cc)

-- What the search folds away.
module _ (matched relevant : List String) (children : Index) where
  is_barren-found :
      (v : Visit)
      → ((b : Bool) (seen : List String) → v ≡ some (b, seen) → b ≡ true)
      → is_barren v ≢ some true
  is_barren-found none f = λ h. cc
  is_barren-found (some (true, seen)) f = λ h. cc
  is_barren-found (some (false, seen)) f = absurd (false-true (f false seen refl))
    where
      false-true : false ≢ true
      false-true = λ h. cc

  -- A relevant span with a relevant child stays open.
  folds-open :
      (k a : String)
      → has (kids children a) k ≡ true
      → has relevant k ≡ true
      → has relevant a ≡ true
      → folds matched relevant children a ≢ some true
  folds-open k a child rk ra =
      let found =
        is_barren-found (has_relevant_descendant (length children + 2) a children relevant [])
          (λ b seen e.
            has_relevant_descendant-finds children relevant (length children + 2) a k b seen child
              rk e) in
      elim (Bool-cases (has_kids children a)) [
        | inl t ↦ elim (Bool-cases (has matched a)) [
          | inl m ↦ rw (t, ra, m) found
          | inr m ↦ rw (t, ra, m) (λ h. cc)
        ]
        | inr f ↦ rw f (λ h. cc)
      ]

  is_barren-some :
      (v : Visit) (b : Bool) (seen : List String) → v ≡ some (b, seen) → is_barren v ≢ none
  is_barren-some v b seen e = rw e (λ h. cc)

  folds-ends : (sid : String) → folds matched relevant children sid ≢ none
  folds-ends sid =
      let (b, seen, e, le) =
        has_relevant_descendant-Answers children relevant (length children + 2) sid []
          (omega (arith, unseen-le children [])) in
      elim (Bool-cases (has_kids children sid)) [
        | inl t ↦ elim (Bool-cases (has relevant sid)) [
          | inl r ↦ elim (Bool-cases (has matched sid)) [
            | inl m ↦ rw (t, r, m) (is_barren-some _ b seen e)
            | inr m ↦ rw (t, r, m) (λ h. cc)
          ]
          | inr r ↦ rw (t, r) (λ h. cc)
        ]
        | inr f ↦ rw f (λ h. cc)
      ]

  add_if-adds :
      (o : Option Bool) (id : String) (rest : List String)
      → o ≢ none
      → (ids : List String) × (add_if o id (some rest) ≡ some ids)
        × ((k : String) → has ids k ≡ true → (has rest k ≡ false) → (o ≡ some true) × (id ≡ k))
  add_if-adds none id rest n = absurd (n refl)
  add_if-adds (some true) id rest n =
      (id ∷ rest, refl, λ k h f. (refl, ground (arith, eq_iff id k)))
  add_if-adds (some false) id rest n = (rest, refl, λ k h f. cc)

  -- The loop ends, with spans that are folded.
  folded-folds :
      (rows : List Row)
      → (ids : List String) × (folded rows matched relevant children ≡ some ids)
        × ((k : String) → has ids k ≡ true → folds matched relevant children k ≡ some true)
  unfolding folded
  folded-folds [] = ([], refl, λ k h. cc)
  folded-folds (r ∷ rows) =
      let (rest, e, only) = folded-folds rows in
      let (ids, e', added) =
        add_if-adds (folds matched relevant children r.span_id) r.span_id rest
          (folds-ends r.span_id) in
      (
        ids,
        rw e e',
        λ k h. elim (Bool-cases (has rest k)) [
          | inl t ↦ only k t
          | inr f ↦
              let (folding, here) = added k h f in
              ap (folds matched relevant children) (sym here) ∙ folding
        ],
      )

-- The ancestors of a relevant span stay open.
module _ (parents : ParentMap) (children : Index) (matched ancestors shape : List String)
    (tree : IsTree parents children)
    (climbs : (k a : String)
      → has (matched ++ ancestors) k ≡ true
      → parent_id parents k ≡ some a
      → has ancestors a ≡ true)
    (only : (k : String)
      → has shape k ≡ true
      → folds matched (matched ++ ancestors) children k ≡ some true) where
  Walk-open :
      (seen : List String) (id : String) (ids : List String)
      → has (matched ++ ancestors) id ≡ true
      → Walk parents seen id ids
      → any (has shape) ids ≡ false
  Walk-open seen id [] r walk = refl
  Walk-open seen id (a ∷ ids) r (e, new, walk) =
      let up = climbs id a r e in
      let also : has (matched ++ ancestors) a ≡ true =
        ground (arith, has-append matched ancestors a) in
      let rest = Walk-open (a ∷ seen) a ids also walk in
      elim (Bool-cases (has shape a)) [
        | inl t ↦ absurd (
            folds-open matched (matched ++ ancestors) children id a (tree id a e) r also (only a t))
        | inr f ↦ rw f rest
      ]

-- Every row that a search matches is drawn in the shape that the search gives the tree, in a tree of
-- any rows, whatever the other matches are: both walks of the shape end, and no ancestor of the row
-- is folded away.
pub compute_search_collapsed_parents-shows :
    (rows : List Row) (matched : List String) (id : String)
    → has matched id ≡ true
    → let maps = build_structural_maps rows in
      (ancestors : List String) × (shape : List String) × (compute_ancestors_of_matched matched
          maps.parent_by_span_id
        ≡ some ancestors)
      × (compute_search_collapsed_parents rows matched ancestors maps.children_by_span_id
          ≡ some shape)
      × (has_collapsed_ancestor id maps.parent_by_span_id shape ≡ some false)
unfolding compute_search_collapsed_parents
compute_search_collapsed_parents-shows rows matched id here =
    let maps = build_structural_maps rows in
    let parents = maps.parent_by_span_id in
    let children = maps.children_by_span_id in
    let (ancestors, e, closed, reached) = compute_ancestors_of_matched-closed parents matched in
    let (shape, e', only) = folded-folds matched (matched ++ ancestors) children rows in
    let (ids, walked, hidden) = has_collapsed_ancestor-any id parents shape in
    let (ids', walked', walk) = ancestor_ids_of-Walk id parents in
    let same_ids : some ids ≡ some ids' = sym walked ∙ walked' in
    let both = has-append matched ancestors in
    let relevant : has (matched ++ ancestors) id ≡ true = ground (arith, both id) in
    let climbs : (k a : String)
        → has (matched ++ ancestors) k ≡ true
        → parent_id parents k ≡ some a
        → has ancestors a ≡ true =
      λ k a r p. elim (Bool-cases (has matched k)) [
        | inl m ↦ reached k a m p
        | inr n ↦ closed k a (ground (arith, both k)) p
      ] in
    let open_all =
      Walk-open parents children matched ancestors shape (build_structural_maps-IsTree rows) climbs
        only (id ∷ []) id ids' relevant walk in
    (
      ancestors,
      shape,
      e,
      e',
      hidden ∙ ap some (ap (any (has shape)) (some-list ids ids' same_ids) ∙ open_all),
    )
