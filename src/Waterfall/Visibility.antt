-- ===== src/Waterfall/Visibility.antt =====
-- `hasCollapsedAncestor` and `rowVisibilityMap` of components/traces/Waterfall/WaterfallView.svelte.
use otel_desktop_viewer.Prelude.{
  ℕ, zero, suc, ◌+◌, ◌≡◌, refl, String, has, Bool, true, false, not, Bool-cases, inl, inr,
  if◌then◌else◌, List, [], ◌∷◌, length, any, Option, none, some, arith,
}
use otel_desktop_viewer.Waterfall.Ancestors.{
  ParentMap, parent_id, climb, cons_ancestor, ancestor_ids_of, ancestor_ids_of-Walk,
}
use otel_desktop_viewer.Waterfall.Structure.{Row}

-- The loop; `none` stands for fuel that ran out.
unfoldable pub climb_collapsed :
    ℕ → ParentMap → List String → List String → Option String → Option Bool
climb_collapsed zero parents collapsed seen pid = none
climb_collapsed (suc fuel) parents collapsed seen none = some false
climb_collapsed (suc fuel) parents collapsed seen (some pid) =
    let more = climb_collapsed fuel parents collapsed (pid ∷ seen) (parent_id parents pid) in
    if has seen pid then some false else if has collapsed pid then some true else more

unfoldable pub has_collapsed_ancestor : String → ParentMap → List String → Option Bool
unfolding climb_collapsed
has_collapsed_ancestor id parents collapsed =
    climb_collapsed (length parents + 2) parents collapsed (id ∷ []) (parent_id parents id)

abbrev is_drawn : Option Bool → Option Bool
is_drawn none = none
is_drawn (some b) = some (not b)

-- Whether each row is drawn.
unfoldable pub row_visibility_map : List Row → ParentMap → List String → List (String × Option Bool)
unfolding has_collapsed_ancestor
row_visibility_map [] parents collapsed = []
row_visibility_map (r ∷ rows) parents collapsed =
    (r.span_id, is_drawn (has_collapsed_ancestor r.span_id parents collapsed))
    ∷ row_visibility_map rows parents collapsed

some_cons :
    (pid : String) (x : Option (List String)) (ids : List String)
    → cons_ancestor pid x ≡ some ids
    → (more : List String) × (x ≡ some more) × (ids ≡ pid ∷ more)
some_cons pid none ids h = cc
some_cons pid (some more) ids h = (more, refl, ground arith)

climb_collapsed-any :
    (fuel : ℕ) (parents : ParentMap) (collapsed seen : List String) (pid : Option String)
    (ids : List String)
    → climb fuel parents seen pid ≡ some ids
    → climb_collapsed fuel parents collapsed seen pid ≡ some (any (has collapsed) ids)
unfolding climb climb_collapsed
climb_collapsed-any zero parents collapsed seen pid ids h = cc
climb_collapsed-any (suc fuel) parents collapsed seen none ids h =
    let e : ids ≡ [] = ground arith in rw e refl
climb_collapsed-any (suc fuel) parents collapsed seen (some a) ids h =
    elim (Bool-cases (has seen a)) [
      | inl old ↦ let e : ids ≡ [] = ground arith in rw (old, e) refl
      | inr new ↦
          let (more, rest, e) =
            some_cons a (climb fuel parents (a ∷ seen) (parent_id parents a)) ids (rw new at h) in
          let further =
            climb_collapsed-any fuel parents collapsed (a ∷ seen) (parent_id parents a) more rest in
          elim (Bool-cases (has collapsed a)) [
            | inl t ↦ rw (new, t, e, t) refl
            | inr f ↦ rw (new, f, e, f) further
          ]
    ]

-- A row is hidden when one of its ancestors, as the reveal walks them, is collapsed, and only then,
-- on every map and with cycles too.
pub has_collapsed_ancestor-any :
    (id : String) (parents : ParentMap) (collapsed : List String)
    → (ids : List String) × (ancestor_ids_of id parents ≡ some ids)
      × (has_collapsed_ancestor id parents collapsed ≡ some (any (has collapsed) ids))
has_collapsed_ancestor-any id parents collapsed =
    let (ids, e, walk) = ancestor_ids_of-Walk id parents in
    (
      ids,
      e,
      unfold ancestor_ids_of has_collapsed_ancestor in
          climb_collapsed-any (length parents + 2) parents collapsed (id ∷ [])
            (parent_id parents id) ids e,
    )
