-- ===== src/Waterfall/Lens/Toggles.antt =====
-- components/traces/Waterfall/WaterfallView.svelte: what a gesture changes.
use package.text.Mathlib.TextEquality.{eq_iff}
use otel_desktop_viewer.Prelude.{
  ◌≡◌, ◌⊎◌, ◌<◌, refl, sym, ap, ◌∙◌, String, same, has, Bool, true, false, not, Bool-cases, inl,
  inr, if◌then◌else◌, List, [], ◌∷◌, length, Option, none, some, map_get, map_set, map_get-set,
  add_key, remove_key, has-add_key, has-remove_key, map_set-IsObject, IsObject, get-absent, arith,
}
use otel_desktop_viewer.Waterfall.CollapseStore.{
  collapsed_for_trace, set_collapsed_for_trace, is_tracked, max_tracked_traces, collapsed-set,
}
use otel_desktop_viewer.Waterfall.Lens.{
  Response, Lens, apply_overrides, search_shape, collapsed_under, effective_collapsed, toggled,
  toggle_under, toggle_collapse, set_all, respond, Gesture, toggle, all_to, gesture, gestures,
}

abbrev flipped : String → String → Bool → Bool
flipped id k b = if same id k then not b else b

has-toggled :
    (ids : List String) (id k : String) → has (toggled ids id) k ≡ flipped id k (has ids k)
has-toggled ids id k = ground (arith, has-add_key ids id k, has-remove_key ids id k, eq_iff id k)

abbrev pub overridden : Option Bool → Bool → Bool
overridden none b = b
overridden (some c) b = c

-- The override of a span decides.
pub has-apply_overrides :
    (overrides : List (String × Bool)) (out : List String) (k : String)
    → IsObject overrides
    → has (apply_overrides out overrides) k ≡ overridden (map_get overrides k) (has out k)
unfolding apply_overrides map_get
has-apply_overrides [] out k h = refl
has-apply_overrides ((id, true) ∷ overrides) out k (fresh, h) = ground (
  arith,
  has-apply_overrides overrides (add_key out id) k h,
  has-add_key out id k,
  eq_iff id k,
  get-absent overrides k,
)
has-apply_overrides ((id, false) ∷ overrides) out k (fresh, h) = ground (
  arith,
  has-apply_overrides overrides (remove_key out id) k h,
  has-remove_key out id k,
  eq_iff id k,
  get-absent overrides k,
)

-- The override that a toggle sets.
overridden-flipped :
    (m : List (String × Bool)) (shape : List String) (id k : String)
    → IsObject m
    → overridden
        (if same id k then some (not (has (apply_overrides shape m) id)) else map_get m k)
        (has shape k)
      ≡ flipped id k (has (apply_overrides shape m) k)
overridden-flipped m shape id k once = elim (Bool-cases (same id k)) [
  | inl t ↦
      let e : id ≡ k = ground (arith, eq_iff id k) in
      rw t (ap (λ x. not (has (apply_overrides shape m) x)) e)
  | inr f ↦ rw f (sym (has-apply_overrides m shape k once))
]

pub toggle_under-flips :
    (shape : Option (List String)) (trace_id id k : String) (lens : Lens)
    → IsObject lens.search_overrides
    → (is_tracked lens.store trace_id ≡ true) ⊎ (length lens.store < max_tracked_traces)
    → has (collapsed_under shape trace_id (toggle_under shape trace_id id lens)) k
      ≡ flipped id k (has (collapsed_under shape trace_id lens) k)
toggle_under-flips none trace_id id k lens once room =
    let ids = collapsed_for_trace lens.store trace_id in
    let set = collapsed-set trace_id trace_id (toggled ids id) lens.store room in
    let here : same trace_id trace_id ≡ true = ground (arith, eq_iff trace_id trace_id) in
    let stored : collapsed_for_trace (set_collapsed_for_trace trace_id (toggled ids id) lens.store)
          trace_id
        ≡ toggled ids id =
      set ∙ rw here refl in
    ap (λ s. has s k) stored ∙ has-toggled ids id k
toggle_under-flips (some shape) trace_id id k lens once room =
    let m = lens.search_overrides in
    let v = not (has (apply_overrides shape m) id) in
    has-apply_overrides (map_set m id v) shape k (map_set-IsObject m id v once)
    ∙ ap (λ o. overridden o (has shape k)) (map_get-set m id k v)
    ∙ overridden-flipped m shape id k once

-- The toggle of a row closes it when it is open and opens it when it is closed, and changes no other
-- row: by the reader's own set when no search is active, unless a new trace meets a full store, and
-- by an override when one is.
pub toggle_collapse-flips :
    (r : Response) (id k : String) (lens : Lens)
    → IsObject lens.search_overrides
    → (is_tracked lens.store r.trace_id ≡ true) ⊎ (length lens.store < max_tracked_traces)
    → has (effective_collapsed r (toggle_collapse r id lens)) k ≡ (
        if same id k
        then not (has (effective_collapsed r lens) k)
        else has (effective_collapsed r lens) k)
unfolding effective_collapsed toggle_collapse
toggle_collapse-flips r id k lens once room =
    toggle_under-flips (search_shape r.spans) r.trace_id id k lens once room

gesture-store :
    (r : Response) (shape : List String) (g : Gesture) (lens : Lens)
    → search_shape r.spans ≡ some shape
    → (gesture r g lens).store ≡ lens.store
unfolding toggle_collapse set_all
gesture-store r shape (toggle id) lens h = rw h refl
gesture-store r shape (all_to collapsed) lens h = rw h refl

gestures-store :
    (r : Response) (shape : List String) (gs : List Gesture) (lens : Lens)
    → search_shape r.spans ≡ some shape
    → (gestures r gs lens).store ≡ lens.store
unfolding gestures
gestures-store r shape [] lens h = refl
gestures-store r shape (g ∷ gs) lens h =
    gestures-store r shape gs (gesture r g lens) h ∙ gesture-store r shape g lens h

-- Whatever is toggled, opened or closed while a search is active, the answer that ends the search
-- shows the reader's own arrangement as it was before.
pub gestures-restored :
    (searching cleared : Response) (shape : List String) (gs : List Gesture) (lens : Lens)
    → search_shape searching.spans ≡ some shape
    → search_shape cleared.spans ≡ none
    → effective_collapsed cleared (respond (gestures searching gs (respond lens)))
      ≡ effective_collapsed cleared lens
unfolding effective_collapsed respond
gestures-restored searching cleared shape gs lens h none_left =
    let e = gestures-store searching shape gs (respond lens) h in
    rw none_left (ap (λ s. collapsed_for_trace s cleared.trace_id) e)
