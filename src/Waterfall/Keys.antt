-- ===== src/Waterfall/Keys.antt =====
-- components/traces/Waterfall/WaterfallView.svelte: the rows that are drawn, the row that a selection
-- scrolls to, and the keys. Which elements take keys, the focus and the scrolling are the browser's.
pub mod Selects
use otel_desktop_viewer.Prelude.{
  ℕ, suc, ◌-◌, ◌==◌, String, same, has, Bool, true, false, ◌&&◌, ◌||◌, not, if◌then◌else◌, List, [],
  ◌∷◌, length, get_elem?, Option, none, some, map_get,
}
use otel_desktop_viewer.Rows.{KeyDelta, key_deltas, resolve_next_pos}
use otel_desktop_viewer.Waterfall.Structure.{Row}
use otel_desktop_viewer.Waterfall.Ancestors.{ParentMap, parent_id, ancestor_ids_of}
use otel_desktop_viewer.Waterfall.Visibility.{has_collapsed_ancestor}

abbrev pub grid_page_step : ℕ
grid_page_step = 8

abbrev pub is_open : Option Bool → Bool
is_open none = true
is_open (some hidden) = not hidden

-- `visibleRows`, by the ids of the rows.
unfoldable pub visible_rows : List Row → ParentMap → List String → List String
visible_rows [] parents collapsed = []
visible_rows (r ∷ rows) parents collapsed =
    if is_open (has_collapsed_ancestor r.span_id parents collapsed)
    then r.span_id ∷ visible_rows rows parents collapsed
    else visible_rows rows parents collapsed

abbrev pub next_index : Option ℕ → Option ℕ
next_index none = none
next_index (some i) = some (suc i)

-- `visibleRowIndex`, with `none` for -1.
unfoldable pub visible_row_index : List String → String → Option ℕ
visible_row_index [] id = none
visible_row_index (x ∷ visible) id =
    if same x id then some 0 else next_index (visible_row_index visible id)

abbrev pub or_ancestor : Option ℕ → Option ℕ → Option ℕ
or_ancestor none further = further
or_ancestor (some i) further = some i

abbrev pub first_visible : List String → List String → Option ℕ
first_visible visible [] = none
first_visible visible (a ∷ ids) =
    or_ancestor (visible_row_index visible a) (first_visible visible ids)

abbrev ids_or_none : Option (List String) → List String
ids_or_none none = []
ids_or_none (some ids) = ids

-- The row that `revealAndScrollToSpan` scrolls to. The walk of the ancestors always ends.
unfoldable pub reveal_index : List String → ParentMap → String → Option ℕ
unfolding visible_row_index
reveal_index visible parents id =
    or_ancestor (visible_row_index visible id)
      (first_visible visible (ids_or_none (ancestor_ids_of id parents)))

-- What a key does: nothing, a toggle of a row, or the selection of a span, which takes the focus.
pub data KeyEffect : Type 0 where
  nothing : KeyEffect
  toggles : String → KeyEffect
  selects : String → KeyEffect

-- The keys of the tree, or `none` when they are others.
abbrev pub select_parent : Option String → KeyEffect
select_parent none = nothing
select_parent (some p) = if same p "" then nothing else selects p

unfoldable pub handle_tree_keys :
    String → Option String → (String → Bool) → ParentMap → List String → Option KeyEffect
handle_tree_keys key none has_children parents collapsed = none
handle_tree_keys key (some id) has_children parents collapsed =
    if same id ""
    then none
    else if same key "ArrowRight" || same key "l"
    then some (if has_children id && has collapsed id then toggles id else nothing)
    else if same key "ArrowLeft" || same key "h"
    then some (
        if has_children id && not (has collapsed id)
        then toggles id
        else select_parent (parent_id parents id))
    else none

abbrev pub selects_row : Option String → KeyEffect
selects_row none = nothing
selects_row (some id) = selects id

abbrev pub navigate_visible_row : List String → ℕ → KeyEffect
navigate_visible_row visible i = selects_row (get_elem? visible i)

abbrev pub move_to : List String → ℕ → ℕ → KeyEffect
move_to visible current next =
    if next == current then nothing else navigate_visible_row visible next

abbrev pub move_from : KeyDelta → List String → Option ℕ → KeyEffect
move_from delta visible none = navigate_visible_row visible 0
move_from delta visible (some i) = move_to visible i (resolve_next_pos delta i (length visible - 1))

abbrev pub on_delta : Option KeyDelta → List String → Option ℕ → KeyEffect
on_delta none visible current = nothing
on_delta (some delta) visible current = move_from delta visible current

abbrev pub or_selected : Option String → Option String → Option String
or_selected none selected = selected
or_selected (some id) selected = some id

-- An empty id of a selected span is as good as none.
abbrev pub index_of : List String → Option String → Option String → Option ℕ
index_of visible (some id) selected = visible_row_index visible id
index_of visible none none = none
index_of visible none (some id) = if same id "" then none else visible_row_index visible id

abbrev pub confirm : Option String → KeyEffect
confirm none = nothing
confirm (some id) = if same id "" then nothing else selects id

abbrev pub or_grid_key :
    Option KeyEffect → String → Option String → Option String → List String → KeyEffect
or_grid_key (some effect) key focused selected visible = effect
or_grid_key none key focused selected visible =
    if same key "Enter" || same key " "
    then confirm (or_selected focused selected)
    else on_delta (key_deltas grid_page_step key) visible (index_of visible focused selected)

-- `handleGridKeydown` with a key that `shouldHandleGridKey` lets pass; `focused` is `focusedID`,
-- `has_children` whether the row of an id counts children.
unfoldable pub handle_grid_keydown :
    String
    → Option String
    → Option String
    → (String → Bool)
    → ParentMap
    → List String
    → List String
    → KeyEffect
unfolding handle_tree_keys visible_row_index
handle_grid_keydown key focused selected has_children parents collapsed [] = nothing
handle_grid_keydown key focused selected has_children parents collapsed (v ∷ visible) =
    or_grid_key (handle_tree_keys key (or_selected focused selected) has_children parents collapsed)
      key focused selected (v ∷ visible)
