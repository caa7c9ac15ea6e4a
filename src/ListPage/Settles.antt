-- ===== src/ListPage/Settles.antt =====
-- The effect of contexts/signal-list-page.svelte.ts that keeps the selection on the list.
use text.Mathlib.TextEquality.{eq_iff}
use text.Mathlib.TextPositions.{eq_refl}
use otel_desktop_viewer.Prelude.{
  ℕ, zero, suc, ◌<◌, ◌≡◌, ◌≢◌, ◌⊎◌, inl, inr, refl, ap, ◌∙◌, String, same, true, false, Bool-cases,
  All, List, [], ◌∷◌, length, get_elem?, Option, none, some, arith,
}
use otel_desktop_viewer.ListPage.Selection.{
  find_index_from, find_item_index_by_id, resolve_fallback_index, resolve_fallback_index_bounds,
}
use otel_desktop_viewer.ListPage.Page.{
  Page, SortDirection, sorted_items, selected_index, leave_item, keep_selection, auto_select,
}

module _ {A : Type 0} (get_item_id : A → String) where
  -- An entry's own id is found in the list.
  find_index_from-entry :
      (xs : List A) (k i : ℕ) (x : A)
      → get_elem? xs k ≡ some x
      → (j : ℕ) × (find_index_from (λ item. same (get_item_id item) (get_item_id x)) xs i ≡ some j)
  find_index_from-entry [] k i x h = cc
  find_index_from-entry (y ∷ ys) zero i x h =
      let e : y ≡ x = ground arith in (i, rw (e, eq_refl (get_item_id x)))
  find_index_from-entry (y ∷ ys) (suc k) i x h =
      elim (Bool-cases (same (get_item_id y) (get_item_id x))) [
        | inl here ↦ (i, rw here)
        | inr there ↦ let (j, found) = find_index_from-entry ys k (suc i) x h in (j, rw there found)
      ]

  get_elem?-lt : (xs : List A) (k : ℕ) → k < length xs → (x : A) × (get_elem? xs k ≡ some x)
  get_elem?-lt [] k h = absurd (omega arith)
  get_elem?-lt (x ∷ xs) zero h = (x, refl)
  get_elem?-lt (x ∷ xs) (suc k) h = get_elem?-lt xs k (omega arith)

  All-get_elem? :
      (P : A → Type 0) (xs : List A) (k : ℕ) (x : A) → All P xs → get_elem? xs k ≡ some x → P x
  All-get_elem? P [] k x a h = cc
  All-get_elem? P (y ∷ ys) zero x a h = let e : y ≡ x = ground arith in rw (← e) a.0
  All-get_elem? P (y ∷ ys) (suc k) x a h = All-get_elem? P ys k x a.1 h

  -- The id of an entry, unless it is empty, has an index.
  find_item_index_by_id-entry :
      (xs : List A) (k : ℕ) (x : A)
      → get_elem? xs k ≡ some x
      → same (get_item_id x) "" ≡ false
      → (j : ℕ) × (find_item_index_by_id xs (some (get_item_id x)) get_item_id ≡ some j)
  unfolding find_item_index_by_id
  find_item_index_by_id-entry xs k x h e =
      let (j, found) = find_index_from-entry xs k 0 x h in (j, rw e found)

  module _ (sort : String → SortDirection → List A → List A) where
    -- The selection is an entry of the list, whose index is remembered, or the list is empty and
    -- nothing is selected.
    pub IsSettled : Page A → Type 0
    IsSettled p =
        ((idx : ℕ) × (selected_index get_item_id sort p ≡ some idx) × (p.last_valid_index ≡ idx))
        ⊎ ((sorted_items get_item_id sort p ≡ []) × (p.selected_id ≡ none))

    -- One run of the effect on a list that is there.
    auto_select-rows :
        (p : Page A) (rows : List A) (found : Option ℕ)
        → p.mounted ≡ true
        → p.loading ≡ false
        → sorted_items get_item_id sort p ≡ rows
        → selected_index get_item_id sort p ≡ found
        → auto_select get_item_id sort p ≡ keep_selection get_item_id sort rows found p
    unfolding auto_select
    auto_select-rows p rows found m l r f = rw f (simp (m, l, r))

    found-IsSettled :
        (p : Page A) (rows : List A) (idx : ℕ)
        → p.mounted ≡ true
        → p.loading ≡ false
        → sorted_items get_item_id sort p ≡ rows
        → selected_index get_item_id sort p ≡ some idx
        → IsSettled (auto_select get_item_id sort p)
    unfolding IsSettled
    found-IsSettled p rows idx m l r f =
        rw (auto_select-rows p rows (some idx) m l r f) (inl (idx, f, refl))

    leave-nothing :
        (p : Page A) → p.selected_id ≡ none → leave_item get_item_id sort p.selected_id p ≡ p
    leave-nothing p e = ap (λ o. leave_item get_item_id sort o p) e

    leave-named :
        (p : Page A) (id : String)
        → p.selected_id ≡ some id
        → same id "" ≡ false
        → leave_item get_item_id sort p.selected_id p ≡ record p { selected_id = none }
    leave-named p id e named = ap (λ o. leave_item get_item_id sort o p) e ∙ rw named refl

    nothing-IsSettled :
        (p : Page A)
        → p.mounted ≡ true
        → p.loading ≡ false
        → sorted_items get_item_id sort p ≡ []
        → p.selected_id ≡ none
        → IsSettled (auto_select get_item_id sort p)
    unfolding IsSettled find_item_index_by_id
    nothing-IsSettled p m l r e =
        rw (auto_select-rows p [] none m l r (rw e refl), leave-nothing p e) (inr (r, e))

    clear-IsSettled :
        (p : Page A) (o : Option String)
        → p.mounted ≡ true
        → p.loading ≡ false
        → sorted_items get_item_id sort p ≡ []
        → p.selected_id ≡ o
        → o ≢ some ""
        → IsSettled (auto_select get_item_id sort (keep_selection get_item_id sort [] none p))
    clear-IsSettled p none m l r e ne = rw (leave-nothing p e) (nothing-IsSettled p m l r e)
    clear-IsSettled p (some id) m l r e ne = elim (Bool-cases (same id "")) [
      | inl empty ↦ absurd (ne (ap some ((eq_iff id "").0 empty)))
      | inr named ↦
          rw (leave-named p id e named)
            (nothing-IsSettled (record p { selected_id = none }) m l r refl)
    ]

    -- With nothing selected, or an id that is not in the list, the first run navigates and the
    -- second finds what it navigated to.
    settle :
        (p : Page A) (rows : List A) (found : Option ℕ)
        → p.mounted ≡ true
        → p.loading ≡ false
        → sorted_items get_item_id sort p ≡ rows
        → selected_index get_item_id sort p ≡ found
        → All (λ x. same (get_item_id x) "" ≡ false) rows
        → p.selected_id ≢ some ""
        → IsSettled (auto_select get_item_id sort (auto_select get_item_id sort p))
    settle p rows (some idx) m l r f a ne =
        rw (auto_select-rows p rows (some idx) m l r f)
          (found-IsSettled (record p { last_valid_index = idx }) rows idx m l r f)
    settle p [] none m l r f a ne =
        rw (auto_select-rows p [] none m l r f) (clear-IsSettled p p.selected_id m l r refl ne)
    settle p (x ∷ xs) none m l r f a ne =
        let k = resolve_fallback_index p.last_valid_index (length (x ∷ xs)) in
        let (y, at_k) =
          get_elem?-lt (x ∷ xs) k
            (resolve_fallback_index_bounds p.last_valid_index (length (x ∷ xs)) (omega arith)).0 in
        let named = All-get_elem? (λ z. same (get_item_id z) "" ≡ false) (x ∷ xs) k y a at_k in
        let (j, found) = find_item_index_by_id-entry (x ∷ xs) k y at_k named in
        rw (auto_select-rows p (x ∷ xs) none m l r f, at_k, named)
          (found-IsSettled (record p { selected_id = some (get_item_id y) }) (x ∷ xs) j m l r
            (rw r found))

-- On a page that is mounted and has its list, two runs of the effect bring the selection to rest,
-- if no entry's id is empty: an entry is selected and its index remembered, or the list is empty.
pub auto_select-IsSettled :
    {A : Type 0} (get_item_id : A → String) (sort : String → SortDirection → List A → List A)
    (p : Page A)
    → p.mounted ≡ true
    → p.loading ≡ false
    → All (λ x. same (get_item_id x) "" ≡ false) (sorted_items get_item_id sort p)
    → p.selected_id ≢ some ""
    → IsSettled get_item_id sort (auto_select get_item_id sort (auto_select get_item_id sort p))
auto_select-IsSettled get_item_id sort p m l a ne = settle get_item_id sort p _ _ m l refl refl a ne
