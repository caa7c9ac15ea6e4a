-- ===== src/Rows/Bounds.antt =====
-- components/shared/utils/table-keyboard-nav.ts: where a key takes the focus of a table.
use otel_desktop_viewer.Prelude.{
  ℕ, zero, suc, ◌-◌, ◌≤◌, ◌<◌, ◌≡◌, ◌≢◌, ◌⊎◌, inl, inr, refl, String, same, Bool, false, Bool-cases,
  ◌==◌, List, [], ◌∷◌, length, get_elem?, Option, none, some, arith,
}
use otel_desktop_viewer.Prelude.Int.{pos}
use otel_desktop_viewer.Rows.{
  first, last, KeyDelta, relative, absolute, raw_pos, resolve_next_pos, key_deltas, Callback,
  Action, kept, prevented, calls, selects, activation, select_row, move, activate, row_at, on_delta,
  handle_keydown,
}

get_elem?-lt {ℓ} :
    {A : Type ℓ} (xs : List A) (i : ℕ) (x : A) → get_elem? xs i ≡ some x → i < length xs
get_elem?-lt [] i x h = cc
get_elem?-lt (y ∷ ys) zero x h = omega arith
get_elem?-lt (y ∷ ys) (suc i) x h = let le = get_elem?-lt ys i x h in omega arith

-- The row that is selected has the id, and it is not empty.
select_row-eq :
    (i : ℕ) (row : Option (Option String)) (id : String) (j : ℕ)
    → select_row i row ≡ selects id j
    → (j ≡ i) × ((row ≡ some (some id)) × (same id "" ≡ false))
select_row-eq i none id j h = cc
select_row-eq i (some none) id j h = cc
select_row-eq i (some (some x)) id j h = elim (Bool-cases (same x "")) [
  | inl e ↦ cc (rw e at h)
  | inr e ↦ ground arith
]

-- What a call with an id is about: a row that is there has the id, which is not empty. A move goes
-- to a row without the focus; a call that does not move is that of the row with the focus.
abbrev pub IsForRow : Bool → List (Option String) → Option ℕ → Action → Type 0
IsForRow activatable rows focused kept = Unit
IsForRow activatable rows focused prevented = Unit
IsForRow activatable rows focused (selects id i) =
    (i < length rows)
    × ((get_elem? rows i ≡ some (some id)) × ((same id "" ≡ false) × (focused ≢ some i)))
IsForRow activatable rows focused (calls callback id) =
    (row_at rows focused ≡ some (some id))
    × ((same id "" ≡ false) × (callback ≡ activation activatable))

activate-IsForRow :
    (activatable : Bool) (rows : List (Option String)) (focused : Option ℕ)
    (row : Option (Option String))
    → row_at rows focused ≡ row
    → IsForRow activatable rows focused (activate activatable row)
activate-IsForRow activatable rows focused none e = tt
activate-IsForRow activatable rows focused (some none) e = tt
activate-IsForRow activatable rows focused (some (some id)) e = elim (Bool-cases (same id "")) [
  | inl t ↦ rw t tt
  | inr f ↦ rw f (e, (f, refl))
]

select_row-not :
    (i : ℕ) (row : Option (Option String)) (callback : Callback) (id : String)
    → select_row i row ≢ calls callback id
select_row-not i none callback id h = cc
select_row-not i (some none) callback id h = cc
select_row-not i (some (some x)) callback id h = elim (Bool-cases (same x "")) [
  | inl e ↦ cc (rw e at h)
  | inr e ↦ cc (rw e at h)
]

move-selects :
    (delta : KeyDelta) (rows : List (Option String)) (focused : Option ℕ) (id : String) (i : ℕ)
    → move delta rows focused ≡ selects id i
    → (get_elem? rows i ≡ some (some id)) × ((same id "" ≡ false) × (focused ≢ some i))
move-selects delta rows none id i h =
    let (at_i, (found, named)) = select_row-eq 0 (get_elem? rows 0) id i h in
    (rw at_i found, (named, λ e. cc))
move-selects delta rows (some k) id i h =
    let target = resolve_next_pos delta k (length rows - 1) in
    elim (Bool-cases (target == k)) [
      | inl same_row ↦ cc (rw same_row at h)
      | inr other ↦
          let (at_i, (found, named)) =
            select_row-eq target (get_elem? rows target) id i (rw other at h) in
          (rw at_i found, (named, λ e. ground arith))
    ]

on_delta-selects :
    (delta : Option KeyDelta) (rows : List (Option String)) (focused : Option ℕ) (id : String)
    (i : ℕ)
    → on_delta delta rows focused ≡ selects id i
    → (get_elem? rows i ≡ some (some id)) × ((same id "" ≡ false) × (focused ≢ some i))
on_delta-selects none rows focused id i h = cc
on_delta-selects (some delta) rows focused id i h = move-selects delta rows focused id i h

on_delta-not :
    (delta : Option KeyDelta) (rows : List (Option String)) (focused : Option ℕ)
    (callback : Callback) (id : String)
    → on_delta delta rows focused ≢ calls callback id
on_delta-not none rows focused callback id h = cc
on_delta-not (some delta) rows none callback id h =
    select_row-not 0 (get_elem? rows 0) callback id h
on_delta-not (some delta) rows (some k) callback id h =
    let target = resolve_next_pos delta k (length rows - 1) in
    elim (Bool-cases (target == k)) [
      | inl t ↦ cc (rw t at h)
      | inr f ↦ select_row-not target (get_elem? rows target) callback id (rw f at h)
    ]

on_delta-IsForRow :
    (activatable : Bool) (delta : Option KeyDelta) (rows : List (Option String))
    (focused : Option ℕ) (action : Action)
    → on_delta delta rows focused ≡ action
    → IsForRow activatable rows focused action
on_delta-IsForRow activatable delta rows focused kept h = tt
on_delta-IsForRow activatable delta rows focused prevented h = tt
on_delta-IsForRow activatable delta rows focused (calls callback id) h =
    absurd (on_delta-not delta rows focused callback id h)
on_delta-IsForRow activatable delta rows focused (selects id i) h =
    let on = on_delta-selects delta rows focused id i h in (get_elem?-lt rows i (some id) on.0, on)

-- Whatever a key calls, it is with the id of a row of the table, which is not empty. A key that moves
-- selects and focuses a row that does not have the focus; any other call is about the row that has
-- it, and is of `onActivate`, or of `onSelect` in a table without.
pub handle_keydown-IsForRow :
    (step : ℕ) (activatable : Bool) (key : String) (rows : List (Option String))
    (focused : Option ℕ)
    → IsForRow activatable rows focused (handle_keydown step activatable key rows focused)
unfolding handle_keydown
handle_keydown-IsForRow step activatable key [] focused = tt
handle_keydown-IsForRow step activatable key (r ∷ rows) focused =
    let active =
      activate-IsForRow activatable (r ∷ rows) focused (row_at (r ∷ rows) focused) refl in
    elim (Bool-cases (same key "Enter")) [
      | inl enter ↦ rw enter active
      | inr other ↦ elim (Bool-cases (same key " ")) [
        | inl space ↦ rw (other, space) active
        | inr moved ↦
            rw (other, moved)
              (on_delta-IsForRow activatable (key_deltas step key) (r ∷ rows) focused _ refl)
      ]
    ]

-- In a table with a last row, the target of a key is a row of the table: for a relative key the one
-- at its distance, or the first or last row where that one lies outside; for the others the first or
-- the last.
pub resolve_next_pos_bounds :
    (delta : KeyDelta) (current_pos last_pos : ℕ)
    → (resolve_next_pos delta current_pos last_pos ≤ last_pos)
      × ((resolve_next_pos delta current_pos last_pos ≡ 0)
          ⊎ ((resolve_next_pos delta current_pos last_pos ≡ last_pos)
              ⊎ (pos (resolve_next_pos delta current_pos last_pos)
                  ≡ raw_pos delta current_pos last_pos)))
unfolding resolve_next_pos
resolve_next_pos_bounds (absolute first) current_pos last_pos = (ground arith, ground arith)
resolve_next_pos_bounds (absolute last) current_pos last_pos = (ground arith, ground arith)
resolve_next_pos_bounds (relative offset) current_pos last_pos = (ground arith, ground arith)
