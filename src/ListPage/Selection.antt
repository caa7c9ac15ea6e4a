-- ===== src/ListPage/Selection.antt =====
-- The index arithmetic of contexts/signal-list-page.svelte.ts. `none` stands for the index -1.
use otel_desktop_viewer.Prelude.{
  ℕ, suc, ◌+◌, ◌-◌, ◌≤◌, ◌<◌, ◌≡◌, ◌⊎◌, min, String, same, Bool, ◌==◌, if◌then◌else◌, List, [], ◌∷◌,
  Option, none, some, arith,
}
use otel_desktop_viewer.Prelude.Int.{ℤ, pos, pos_part, neg_part, ◌+ℤ◌, clamp_index}

module _ {ℓ} {A : Type ℓ} where
  -- `findIndex`
  abbrev pub find_index_from : (A → Bool) → List A → ℕ → Option ℕ
  find_index_from p [] i = none
  find_index_from p (x ∷ xs) i = if p x then some i else find_index_from p xs (suc i)

  -- An id that is missing or empty has no index.
  unfoldable pub find_item_index_by_id : List A → Option String → (A → String) → Option ℕ
  find_item_index_by_id items none get_item_id = none
  find_item_index_by_id items (some id) get_item_id =
      if same id "" then none else find_index_from (λ item. same (get_item_id item) id) items 0

-- `clampNavTargetIndex`
unfoldable pub clamp_nav_target_index : Option ℕ → ℤ → ℕ → Option ℕ
clamp_nav_target_index none delta len = none
clamp_nav_target_index (some i) delta len =
    if len == 0 then none else some (clamp_index (pos i +ℤ delta) (len - 1))

-- `resolveFallbackIndex`
unfoldable pub resolve_fallback_index : ℕ → ℕ → ℕ
resolve_fallback_index last_valid len = if len == 0 then 0 else min last_valid (len - 1)

-- In a list that is not empty the target is an index: the one moved by `delta`, or the first or the
-- last where that one lies before or behind the list.
pub clamp_nav_target_index_bounds :
    (i : ℕ) (delta : ℤ) (len : ℕ)
    → 0 < len
    → (j : ℕ) × (clamp_nav_target_index (some i) delta len ≡ some j)
      × (j < len)
      × ((j + neg_part delta ≡ i + pos_part delta)
          ⊎ (((i + pos_part delta < neg_part delta) × (j ≡ 0))
              ⊎ ((len + neg_part delta ≤ i + pos_part delta) × (suc j ≡ len))))
unfolding clamp_nav_target_index
clamp_nav_target_index_bounds i delta len h =
    (clamp_index (pos i +ℤ delta) (len - 1), ground arith, ground arith, ground arith)

-- A fallback in a list that is not empty is an index of it: the last valid one, or the last of the
-- list where that one lies behind it.
pub resolve_fallback_index_bounds :
    (last_valid len : ℕ)
    → 0 < len
    → (resolve_fallback_index last_valid len < len)
      × ((resolve_fallback_index last_valid len ≡ last_valid)
          ⊎ ((len ≤ last_valid) × (suc (resolve_fallback_index last_valid len) ≡ len)))
unfolding resolve_fallback_index
resolve_fallback_index_bounds last_valid len h = (ground arith, ground arith)
