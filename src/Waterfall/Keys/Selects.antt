-- ===== src/Waterfall/Keys/Selects.antt =====
-- components/traces/Waterfall/WaterfallView.svelte: the span that a key selects.
use mathlib.Core.Path.{subst}
use package.text.Mathlib.TextEquality.{eq_iff}
use otel_desktop_viewer.Prelude.{
  ℕ, zero, suc, ◌-◌, ◌==◌, ◌≡◌, ◌⊎◌, inl, inr, refl, sym, ap, ◌∙◌, String, same, has, Bool, true,
  ◌&&◌, ◌||◌, not, Bool-cases, if◌then◌else◌, List, [], ◌∷◌, length, get_elem?, Option, none, some,
  arith,
}
use otel_desktop_viewer.Rows.{KeyDelta, key_deltas, resolve_next_pos}
use otel_desktop_viewer.Waterfall.Structure.{Row}
use otel_desktop_viewer.Waterfall.Ancestors.{ParentMap, parent_id}
use otel_desktop_viewer.Waterfall.Visibility.{has_collapsed_ancestor}
use otel_desktop_viewer.Waterfall.Keys.{
  is_open, visible_rows, KeyEffect, nothing, toggles, selects, select_parent, handle_tree_keys,
  selects_row, move_from, on_delta, or_selected, index_of, confirm, or_grid_key,
  handle_grid_keydown, grid_page_step,
}

visible_rows-open :
    (rows : List Row) (parents : ParentMap) (collapsed : List String) (id : String)
    → has (visible_rows rows parents collapsed) id ≡ true
    → is_open (has_collapsed_ancestor id parents collapsed) ≡ true
unfolding visible_rows
visible_rows-open [] parents collapsed id h = cc
visible_rows-open (r ∷ rows) parents collapsed id h =
    elim (Bool-cases (is_open (has_collapsed_ancestor r.span_id parents collapsed))) [
      | inr f ↦ visible_rows-open rows parents collapsed id (rw f at h)
      | inl t ↦ elim (Bool-cases (same r.span_id id)) [
        | inl here ↦
            let e : r.span_id ≡ id = ground (arith, eq_iff r.span_id id) in
            ap (λ x. is_open (has_collapsed_ancestor x parents collapsed)) (sym e) ∙ t
        | inr other ↦
            let later : has (r.span_id ∷ visible_rows rows parents collapsed) id ≡ true =
              rw t at h in
            visible_rows-open rows parents collapsed id (ground arith)
      ]
    ]

abbrev pub row_ids : List Row → List String
row_ids [] = []
row_ids (r ∷ rows) = r.span_id ∷ row_ids rows

visible_rows-row :
    (rows : List Row) (parents : ParentMap) (collapsed : List String) (id : String)
    → has (visible_rows rows parents collapsed) id ≡ true
    → has (row_ids rows) id ≡ true
unfolding visible_rows
visible_rows-row [] parents collapsed id h = cc
visible_rows-row (r ∷ rows) parents collapsed id h =
    elim (Bool-cases (is_open (has_collapsed_ancestor r.span_id parents collapsed))) [
      | inr f ↦ let later = visible_rows-row rows parents collapsed id (rw f at h) in ground arith
      | inl t ↦ elim (Bool-cases (same r.span_id id)) [
        | inl first ↦ ground arith
        | inr other ↦
            let drawn : has (r.span_id ∷ visible_rows rows parents collapsed) id ≡ true =
              rw t at h in
            let later = visible_rows-row rows parents collapsed id (ground arith) in ground arith
      ]
    ]

-- What a key may do, with the span that it starts from.
abbrev pub IsAllowed :
    List Row → ParentMap → List String → (String → Bool) → Option String → KeyEffect → Type 0
IsAllowed rows parents collapsed has_children current nothing = Unit
IsAllowed rows parents collapsed has_children current (toggles id) =
    (current ≡ some id) × (has_children id ≡ true)
IsAllowed rows parents collapsed has_children current (selects id) =
    ((has (row_ids rows) id ≡ true)
      × (is_open (has_collapsed_ancestor id parents collapsed) ≡ true))
    ⊎ ((current ≡ some id) ⊎ ((c : String) × (current ≡ some c) × (parent_id parents c ≡ some id)))

has-get : (xs : List String) (i : ℕ) (x : String) → get_elem? xs i ≡ some x → has xs x ≡ true
has-get [] i x h = cc
has-get (y ∷ ys) zero x h = ground (arith, eq_iff y x)
has-get (y ∷ ys) (suc i) x h = ground (arith, has-get ys i x h)

module _ (rows : List Row) (parents : ParentMap) (collapsed : List String)
    (has_children : String → Bool) where
  abbrev drawn : List String
  drawn = visible_rows rows parents collapsed

  abbrev Allowed : Option String → KeyEffect → Type 0
  Allowed current effect = IsAllowed rows parents collapsed has_children current effect

  selects_row-Allowed :
      (current : Option String) (i : ℕ) (o : Option String)
      → get_elem? drawn i ≡ o
      → Allowed current (selects_row o)
  selects_row-Allowed current i none h = tt
  selects_row-Allowed current i (some id) h =
      let member = has-get drawn i id h in
      inl (
        visible_rows-row rows parents collapsed id member,
        visible_rows-open rows parents collapsed id member,
      )

  move_from-Allowed :
      (current : Option String) (delta : KeyDelta) (o : Option ℕ)
      → Allowed current (move_from delta drawn o)
  move_from-Allowed current delta none = selects_row-Allowed current 0 (get_elem? drawn 0) refl
  move_from-Allowed current delta (some i) =
      let next = resolve_next_pos delta i (length drawn - 1) in
      elim (Bool-cases (next == i)) [
        | inl t ↦ rw t tt
        | inr f ↦ rw f (selects_row-Allowed current next (get_elem? drawn next) refl)
      ]

  on_delta-Allowed :
      (current : Option String) (delta : Option KeyDelta) (o : Option ℕ)
      → Allowed current (on_delta delta drawn o)
  on_delta-Allowed current none o = tt
  on_delta-Allowed current (some delta) o = move_from-Allowed current delta o

  confirm-Allowed : (current : Option String) → Allowed current (confirm current)
  confirm-Allowed none = tt
  confirm-Allowed (some id) = elim (Bool-cases (same id "")) [
    | inl t ↦ rw t tt
    | inr f ↦ rw f (inr (inl refl))
  ]

  select_parent-Allowed :
      (c : String) (o : Option String)
      → parent_id parents c ≡ o
      → Allowed (some c) (select_parent o)
  select_parent-Allowed c none h = tt
  select_parent-Allowed c (some p) h = elim (Bool-cases (same p "")) [
    | inl t ↦ rw t tt
    | inr f ↦ rw f (inr (inr (c, refl, h)))
  ]

  abbrev AllowedTree : Option String → Option KeyEffect → Type 0
  AllowedTree current none = Unit
  AllowedTree current (some effect) = Allowed current effect

  toggle_if-Allowed :
      (c : String) (wanted : Bool) (otherwise : KeyEffect)
      → Allowed (some c) otherwise
      → Allowed (some c) (if has_children c && wanted then toggles c else otherwise)
  toggle_if-Allowed c wanted otherwise h = elim (Bool-cases (has_children c && wanted)) [
    | inl t ↦ rw t (refl, ground arith)
    | inr f ↦ rw f h
  ]

  handle_tree_keys-Allowed :
      (key : String) (current : Option String)
      → AllowedTree current (handle_tree_keys key current has_children parents collapsed)
  unfolding handle_tree_keys
  handle_tree_keys-Allowed key none = tt
  handle_tree_keys-Allowed key (some c) = elim (Bool-cases (same c "")) [
    | inl t ↦ rw t tt
    | inr named ↦ elim (Bool-cases (same key "ArrowRight" || same key "l")) [
      | inl right ↦ rw (named, right) (toggle_if-Allowed c (has collapsed c) nothing tt)
      | inr f ↦ elim (Bool-cases (same key "ArrowLeft" || same key "h")) [
        | inl left ↦
            rw (named, f, left)
              (toggle_if-Allowed c (not (has collapsed c)) (select_parent (parent_id parents c))
                (select_parent-Allowed c (parent_id parents c) refl))
        | inr g ↦ rw (named, f, g) tt
      ]
    ]
  ]

  or_grid_key-Allowed :
      (key : String) (focused selected : Option String) (tree : Option KeyEffect)
      → AllowedTree (or_selected focused selected) tree
      → Allowed (or_selected focused selected) (or_grid_key tree key focused selected drawn)
  or_grid_key-Allowed key focused selected (some effect) h = h
  or_grid_key-Allowed key focused selected none h =
      elim (Bool-cases (same key "Enter" || same key " ")) [
        | inl t ↦ rw t (confirm-Allowed (or_selected focused selected))
        | inr f ↦ rw f (
            on_delta-Allowed (or_selected focused selected) (key_deltas grid_page_step key)
              (index_of drawn focused selected))
      ]

  handle_grid_keydown-Allowed :
      (key : String) (focused selected : Option String) (vs : List String)
      → drawn ≡ vs
      → Allowed
          (or_selected focused selected)
          (handle_grid_keydown key focused selected has_children parents collapsed vs)
  unfolding handle_grid_keydown
  handle_grid_keydown-Allowed key focused selected [] e = tt
  handle_grid_keydown-Allowed key focused selected (v ∷ visible) e =
      let tree =
        handle_tree_keys key (or_selected focused selected) has_children parents collapsed in
      subst
        (λ vs. Allowed (or_selected focused selected) (or_grid_key tree key focused selected vs)) e
        (or_grid_key-Allowed key focused selected tree
          (handle_tree_keys-Allowed key (or_selected focused selected)))

-- A key selects the span of a row with no collapsed ancestor, the span that it starts from, or that span's parent, and nothing
-- else; and it toggles only the span that it starts from, if that has children.
pub handle_grid_keydown-IsAllowed :
    (key : String) (focused selected : Option String) (has_children : String → Bool)
    (rows : List Row) (parents : ParentMap) (collapsed : List String)
    → IsAllowed rows parents collapsed has_children (or_selected focused selected) (
        handle_grid_keydown key focused selected has_children parents collapsed
          (visible_rows rows parents collapsed))
handle_grid_keydown-IsAllowed key focused selected has_children rows parents collapsed =
    handle_grid_keydown-Allowed rows parents collapsed has_children key focused selected
      (visible_rows rows parents collapsed) refl
