-- ===== src/Rows.antt =====
-- components/shared/utils/table-keyboard-nav.ts: keys that move through the rows of a table.
pub mod Bounds
use package.text.Mathlib.Text.{◌==◌ as str_eq}
use otel_desktop_viewer.Prelude.{
  ℕ, zero, suc, ◌-◌, String, same, Bool, true, false, ◌==◌, if◌then◌else◌, List, [], ◌∷◌, length,
  get_elem?, Option, none, some,
}
use otel_desktop_viewer.Prelude.Int.{ℤ, pos, negsuc, ◌+ℤ◌, clamp_index}

pub data Position : Type 0 where
  first last : Position

pub data KeyDelta : Type 0 where
  relative : ℤ → KeyDelta
  absolute : Position → KeyDelta

abbrev pub page_step : ℕ
page_step = 10

-- `-step`
abbrev pub negated : ℕ → ℤ
negated zero = pos 0
negated (suc n) = negsuc n

-- `KEY_DELTAS`, with the step of the page keys.
unfoldable pub key_deltas : ℕ → String → Option KeyDelta
key_deltas step key =
    if same key "ArrowDown"
    then some (relative (pos 1))
    else if same key "j"
    then some (relative (pos 1))
    else if same key "ArrowUp"
    then some (relative (negated 1))
    else if same key "k"
    then some (relative (negated 1))
    else if same key "PageDown"
    then some (relative (pos step))
    else if same key "PageUp"
    then some (relative (negated step))
    else if same key "Home"
    then some (absolute first)
    else if same key "End"
    then some (absolute last)
    else none

abbrev pub raw_pos : KeyDelta → ℕ → ℕ → ℤ
raw_pos (absolute first) current_pos last_pos = pos 0
raw_pos (absolute last) current_pos last_pos = pos last_pos
raw_pos (relative offset) current_pos last_pos = pos current_pos +ℤ offset

unfoldable pub resolve_next_pos : KeyDelta → ℕ → ℕ → ℕ
resolve_next_pos delta current_pos last_pos =
    clamp_index (raw_pos delta current_pos last_pos) last_pos

-- The table's own callback that a call goes to.
pub data Callback : Type 0 where
  on_select on_activate : Callback

-- What `handleKeydown` does with a key that `shouldHandle` and `onKey` let pass: nothing, a call of
-- `onActivate` or `onSelect` with an id, or a call of `onSelect` and the focus on a row. `kept` is a
-- key whose default is not prevented, `prevented` one whose default is.
pub data Action : Type 0 where
  kept prevented : Action
  calls : Callback → String → Action
  selects : String → ℕ → Action

-- An element of `rows` is the row's id, `none` without the attribute; an empty id is as good as none.
abbrev pub select_row : ℕ → Option (Option String) → Action
select_row i none = prevented
select_row i (some none) = prevented
select_row i (some (some id)) = if same id "" then prevented else selects id i

abbrev pub move : KeyDelta → List (Option String) → Option ℕ → Action
move delta rows none = select_row 0 (get_elem? rows 0)
move delta rows (some i) =
    let next = resolve_next_pos delta i (length rows - 1) in
    if next == i then prevented else select_row next (get_elem? rows next)

-- `current.onActivate ?? current.onSelect`; the flag tells whether the table has `onActivate`.
abbrev pub activation : Bool → Callback
activation true = on_activate
activation false = on_select

abbrev pub activate : Bool → Option (Option String) → Action
activate activatable none = kept
activate activatable (some none) = kept
activate activatable (some (some id)) =
    if same id "" then kept else calls (activation activatable) id

abbrev pub row_at : List (Option String) → Option ℕ → Option (Option String)
row_at rows none = none
row_at rows (some i) = get_elem? rows i

abbrev pub on_delta : Option KeyDelta → List (Option String) → Option ℕ → Action
on_delta none rows focused = kept
on_delta (some delta) rows focused = move delta rows focused

-- `focused` is `currentIdx`, with `none` for -1.
unfoldable pub handle_keydown : ℕ → Bool → String → List (Option String) → Option ℕ → Action
handle_keydown step activatable key [] focused = kept
handle_keydown step activatable key (r ∷ rows) focused =
    if same key "Enter"
    then activate activatable (row_at (r ∷ rows) focused)
    else if same key " "
    then activate activatable (row_at (r ∷ rows) focused)
    else on_delta (key_deltas step key) (r ∷ rows) focused
