-- ===== src/Waterfall/Structure.antt =====
-- `buildStructuralMaps` of components/traces/Waterfall/waterfall-tree.ts.
use otel_desktop_viewer.Prelude.{
  ℕ, zero, suc, ◌≡◌, refl, ap, ◌∙◌, ltb, ◌==◌, String, same, has, false, if◌then◌else◌, List, [],
  ◌∷◌, ◌++◌, Option, none, some, map_get, map_set, map_get-set, arith,
}
use text.Mathlib.TextPositions.{eq_refl}
use otel_desktop_viewer.Prelude.Int.{ℤ, pos_part}

-- A row of the waterfall: the span's id and the depth at which it is drawn.
pub record Row : Type 0 where
  pub span_id : String
  pub depth : ℤ

pub record Maps : Type 0 where
  pub parent_by_span_id : List (String × Option String)
  pub children_by_span_id : List (String × List String)

abbrev pub no_maps : Maps
no_maps = record { parent_by_span_id = []; children_by_span_id = [] }

-- `Math.max(0, n.depth)`
abbrev pub row_depth : Row → ℕ
row_depth r = pos_part r.depth

-- An element of the array `stack`, which has holes where no row of a depth was seen.
abbrev pub stack_at : List (Option String) → ℕ → Option String
stack_at [] d = none
stack_at (x ∷ xs) zero = x
stack_at (x ∷ xs) (suc d) = stack_at xs d

-- `stack[depth] = id; stack.length = depth + 1`
abbrev pub set_top : List (Option String) → ℕ → String → List (Option String)
set_top stack zero id = some id ∷ []
set_top [] (suc d) id = none ∷ set_top [] d id
set_top (x ∷ xs) (suc d) id = x ∷ set_top xs d id

-- `depth === 0 ? null : (stack[depth - 1] ?? null)`
abbrev pub parent_of : List (Option String) → ℕ → Option String
parent_of stack zero = none
parent_of stack (suc d) = stack_at stack d

abbrev pub append_child : Option (List String) → String → List String
append_child none id = id ∷ []
append_child (some list) id = list ++ id ∷ []

-- A row under its parent, in both maps.
abbrev pub add_row : Option String → String → Maps → Maps
add_row none id m = record m { parent_by_span_id = map_set m.parent_by_span_id id none }
add_row (some parent) id m = record {
  parent_by_span_id = map_set m.parent_by_span_id id (some parent);
  children_by_span_id =
      map_set m.children_by_span_id parent (append_child (map_get m.children_by_span_id parent) id);
}

-- The loop of `buildStructuralMaps`.
unfoldable pub build_from : List (Option String) → Maps → List Row → Maps
build_from stack m [] = m
build_from stack m (r ∷ rows) =
    build_from (set_top stack (row_depth r) r.span_id)
      (add_row (parent_of stack (row_depth r)) r.span_id m) rows

unfoldable pub build_structural_maps : List Row → Maps
unfolding build_from
build_structural_maps rows = build_from [] no_maps rows

-- The nearest row above that is drawn one level up, with no row between that is drawn higher: what
-- the reader sees as the parent. `above` are the rows above, the nearest first.
unfoldable pub drawn_parent : ℕ → List Row → Option String
drawn_parent zero above = none
drawn_parent (suc d) [] = none
drawn_parent (suc d) (r ∷ above) =
    let higher = drawn_parent (suc d) above in
    if row_depth r == d then some r.span_id else if ltb d (row_depth r) then higher else none

-- The rows before a row, the nearest first.
abbrev pub above_after : List Row → List Row → List Row
above_after [] above = above
above_after (b ∷ before) above = above_after before (b ∷ above)

abbrev pub span_ids : List Row → List String
span_ids [] = []
span_ids (r ∷ rows) = r.span_id ∷ span_ids rows

-- The stack holds for each depth the parent of a row one level down.
abbrev Holds : List (Option String) → List Row → Type 0
Holds stack above = (d : ℕ) → stack_at stack d ≡ drawn_parent (suc d) above

stack_at-set_top :
    (stack : List (Option String)) (top : ℕ) (id : String) (d : ℕ)
    → stack_at (set_top stack top id) d
      ≡ (if top == d then some id else if ltb d top then stack_at stack d else none)
stack_at-set_top stack zero id zero = refl
stack_at-set_top stack zero id (suc d) = ground arith
stack_at-set_top [] (suc top) id zero = ground arith
stack_at-set_top [] (suc top) id (suc d) = ground (arith, stack_at-set_top [] top id d)
stack_at-set_top (x ∷ xs) (suc top) id zero = ground arith
stack_at-set_top (x ∷ xs) (suc top) id (suc d) = ground (arith, stack_at-set_top xs top id d)

Holds-set_top :
    (stack : List (Option String)) (above : List Row) (r : Row)
    → Holds stack above
    → Holds (set_top stack (row_depth r) r.span_id) (r ∷ above)
unfolding drawn_parent
Holds-set_top stack above r h d = rw (stack_at-set_top stack (row_depth r) r.span_id d, h d) refl

parent_of-drawn :
    (stack : List (Option String)) (above : List Row) (d : ℕ)
    → Holds stack above
    → parent_of stack d ≡ drawn_parent d above
unfolding drawn_parent
parent_of-drawn stack [] zero h = refl
parent_of-drawn stack (r ∷ above) zero h = refl
parent_of-drawn stack above (suc d) h = h d

add_row-other :
    (parent : Option String) (id j : String) (m : Maps)
    → same id j ≡ false
    → map_get (add_row parent id m).parent_by_span_id j ≡ map_get m.parent_by_span_id j
add_row-other none id j m h = map_get-set m.parent_by_span_id id j none ∙ rw h refl
add_row-other (some p) id j m h = map_get-set m.parent_by_span_id id j (some p) ∙ rw h refl

add_row_self :
    (parent : Option String) (id : String) (m : Maps)
    → map_get (add_row parent id m).parent_by_span_id id ≡ some parent
add_row_self none id m = map_get-set m.parent_by_span_id id id none ∙ rw (eq_refl id) refl
add_row_self (some p) id m = map_get-set m.parent_by_span_id id id (some p) ∙ rw (eq_refl id) refl

-- Later rows leave the parent of an id that is not theirs.
build_from-keeps :
    (rows : List Row) (stack : List (Option String)) (m : Maps) (id : String)
    → has (span_ids rows) id ≡ false
    → map_get (build_from stack m rows).parent_by_span_id id ≡ map_get m.parent_by_span_id id
unfolding build_from
build_from-keeps [] stack m id h = refl
build_from-keeps (r ∷ rows) stack m id h =
    build_from-keeps rows _ _ id (ground arith)
    ∙ add_row-other (parent_of stack (row_depth r)) r.span_id id m (ground arith)

build_from-parent :
    (before above : List Row) (r : Row) (after : List Row) (stack : List (Option String)) (m : Maps)
    → Holds stack above
    → has (span_ids after) r.span_id ≡ false
    → map_get (build_from stack m (before ++ r ∷ after)).parent_by_span_id r.span_id
      ≡ some (drawn_parent (row_depth r) (above_after before above))
unfolding build_from
build_from-parent [] above r after stack m h n =
    build_from-keeps after _ _ r.span_id n
    ∙ add_row_self (parent_of stack (row_depth r)) r.span_id m
    ∙ ap some (parent_of-drawn stack above (row_depth r) h)
build_from-parent (b ∷ before) above r after stack m h n =
    build_from-parent before (b ∷ above) r after _ _ (Holds-set_top stack above b h) n

-- The parent that the maps give to the last row of an id is the one that is drawn: the nearest row
-- above it one level up, if no row between is drawn higher; so every row at depth 0 is a root.
pub build_structural_maps-drawn :
    (before : List Row) (r : Row) (after : List Row)
    → has (span_ids after) r.span_id ≡ false
    → map_get (build_structural_maps (before ++ r ∷ after)).parent_by_span_id r.span_id
      ≡ some (drawn_parent (row_depth r) (above_after before []))
unfolding build_structural_maps
build_structural_maps-drawn before r after n =
    build_from-parent before [] r after [] no_maps (λ d. unfold drawn_parent in refl) n
