-- ===== src/Waterfall/Lens/Refines.antt =====
-- components/traces/Waterfall/WaterfallView.svelte: the gestures, against a tree whose rows are each
-- open or closed.
use package.text.Mathlib.TextEquality.{eq_iff}
use otel_desktop_viewer.Prelude.{
  ◌≡◌, ◌⊎◌, ◌<◌, refl, ap, ◌∙◌, String, same, has, Bool, true, false, not, inl, if◌then◌else◌, List,
  [], ◌∷◌, length, Option, none, some, map_get, map_set, map_get-set, map_set-IsObject, IsObject,
  arith,
}
use otel_desktop_viewer.Waterfall.Structure.{build_structural_maps}
use otel_desktop_viewer.Waterfall.CollapseStore.{
  CollapseStore, collapsed_for_trace, set_collapsed_for_trace, is_tracked, max_tracked_traces,
  collapsed-set,
}
use otel_desktop_viewer.Waterfall.Lens.{
  Response, Lens, rows_of, apply_overrides, search_shape, collapsed_under, effective_collapsed,
  collapsible_span_ids, toggled, toggle_under, toggle_collapse, set_each, set_all, set_all_under,
  Gesture, toggle, all_to, gesture, gestures,
}
use otel_desktop_viewer.Waterfall.Lens.Toggles.{overridden, has-apply_overrides, toggle_under-flips}

-- Which rows are closed.
abbrev pub Arrangement : Type 0
Arrangement = String → Bool

abbrev pub in_shape : Option (List String) → Arrangement
in_shape none k = false
in_shape (some shape) k = has shape k

-- A toggle turns one row; the other gesture closes or opens every row that has children, and leaves
-- the others as the search has them.
abbrev pub arrange : Arrangement → List String → Gesture → Arrangement → Arrangement
arrange base ids (toggle id) closed k = if same id k then not (closed k) else closed k
arrange base ids (all_to c) closed k = if has ids k then c else base k

abbrev pub arrange_all : Arrangement → List String → List Gesture → Arrangement → Arrangement
arrange_all base ids [] closed = closed
arrange_all base ids (g ∷ gs) closed = arrange_all base ids gs (arrange base ids g closed)

-- A trace that is known, or has room.
abbrev pub HasPlace : String → CollapseStore → Type 0
HasPlace trace_id store = (is_tracked store trace_id ≡ true) ⊎ (length store < max_tracked_traces)

abbrev Ready : String → Lens → Type 0
Ready trace_id lens = IsObject lens.search_overrides × HasPlace trace_id lens.store

is_tracked-map_set :
    (m : CollapseStore) (k : String) (v : List String) → is_tracked (map_set m k v) k ≡ true
unfolding is_tracked map_set
is_tracked-map_set [] k v = ground (arith, eq_iff k k)
is_tracked-map_set ((j, w) ∷ m) k v = ground (arith, is_tracked-map_set m k v)

is_tracked-set :
    (trace_id : String) (ids : List String) (store : CollapseStore)
    → is_tracked (set_collapsed_for_trace trace_id ids store) trace_id ≡ true
unfolding set_collapsed_for_trace
is_tracked-set trace_id ids store = is_tracked-map_set _ trace_id ids

set_each-IsObject :
    (c : Bool) (ids : List String) (m : List (String × Bool))
    → IsObject m
    → IsObject (set_each c ids m)
set_each-IsObject c [] m h = h
set_each-IsObject c (id ∷ ids) m h =
    set_each-IsObject c ids (map_set m id c) (map_set-IsObject m id c h)

get-set_each :
    (c : Bool) (ids : List String) (m : List (String × Bool)) (k : String)
    → map_get (set_each c ids m) k ≡ (if has ids k then some c else map_get m k)
get-set_each c [] m k = refl
get-set_each c (id ∷ ids) m k =
    ground (arith, get-set_each c ids (map_set m id c) k, map_get-set m id k c)

toggle_under-Ready :
    (shape : Option (List String)) (trace_id id : String) (lens : Lens)
    → Ready trace_id lens
    → Ready trace_id (toggle_under shape trace_id id lens)
toggle_under-Ready none trace_id id lens (once, place) = (
  once,
  inl (is_tracked-set trace_id (toggled (collapsed_for_trace lens.store trace_id) id) lens.store),
)
toggle_under-Ready (some shape) trace_id id lens (once, place) = (
  map_set-IsObject lens.search_overrides id
      (not (has (apply_overrides shape lens.search_overrides) id)) once,
  place,
)

set_all_under-Ready :
    (shape : Option (List String)) (trace_id : String) (c : Bool) (ids : List String) (lens : Lens)
    → Ready trace_id lens
    → Ready trace_id (set_all_under shape trace_id c ids lens)
set_all_under-Ready none trace_id c ids lens (once, place) =
    (once, inl (is_tracked-set trace_id (if c then ids else []) lens.store))
set_all_under-Ready (some shape) trace_id c ids lens (once, place) =
    (set_each-IsObject c ids [] tt, place)

all_or_none :
    (c : Bool) (ids : List String) (k : String)
    → has (if c then ids else []) k ≡ (if has ids k then c else false)
all_or_none true ids k = ground arith
all_or_none false ids k = ground arith

set_all_under-arranges :
    (shape : Option (List String)) (trace_id : String) (c : Bool) (ids : List String) (lens : Lens)
    (k : String)
    → Ready trace_id lens
    → has (collapsed_under shape trace_id (set_all_under shape trace_id c ids lens)) k
      ≡ (if has ids k then c else in_shape shape k)
unfolding map_get
set_all_under-arranges none trace_id c ids lens k (once, place) =
    let here : same trace_id trace_id ≡ true = ground (arith, eq_iff trace_id trace_id) in
    let stored : collapsed_for_trace
          (set_collapsed_for_trace trace_id (if c then ids else []) lens.store) trace_id
        ≡ (if c then ids else []) =
      collapsed-set trace_id trace_id (if c then ids else []) lens.store place ∙ rw here refl in
    ap (λ s. has s k) stored ∙ all_or_none c ids k
set_all_under-arranges (some shape) trace_id c ids lens k (once, place) =
    has-apply_overrides (set_each c ids []) shape k (set_each-IsObject c ids [] tt)
    ∙ ap (λ o. overridden o (has shape k)) (get-set_each c ids [] k)
    ∙ ground arith

abbrev pub collapsible : Response → List String
collapsible r =
    collapsible_span_ids (rows_of r.spans)
      (build_structural_maps (rows_of r.spans)).children_by_span_id

gesture-Ready :
    (r : Response) (g : Gesture) (lens : Lens)
    → Ready r.trace_id lens
    → Ready r.trace_id (gesture r g lens)
unfolding toggle_collapse set_all
gesture-Ready r (toggle id) lens h = toggle_under-Ready (search_shape r.spans) r.trace_id id lens h
gesture-Ready r (all_to c) lens h =
    set_all_under-Ready (search_shape r.spans) r.trace_id c (collapsible r) lens h

gesture-arranges :
    (r : Response) (g : Gesture) (lens : Lens) (k : String)
    → Ready r.trace_id lens
    → has (effective_collapsed r (gesture r g lens)) k
      ≡ arrange
          (in_shape (search_shape r.spans))
          (collapsible r)
          g
          (has (effective_collapsed r lens))
          k
unfolding toggle_collapse set_all effective_collapsed
gesture-arranges r (toggle id) lens k (once, place) =
    toggle_under-flips (search_shape r.spans) r.trace_id id k lens once place
gesture-arranges r (all_to c) lens k h =
    set_all_under-arranges (search_shape r.spans) r.trace_id c (collapsible r) lens k h

arrange-same :
    (base : Arrangement) (ids : List String) (g : Gesture) (a b : Arrangement)
    → ((k : String) → a k ≡ b k)
    → (k : String) → arrange base ids g a k ≡ arrange base ids g b k
arrange-same base ids (toggle id) a b h k = rw (h k) refl
arrange-same base ids (all_to c) a b h k = refl

arrange_all-same :
    (base : Arrangement) (ids : List String) (gs : List Gesture) (a b : Arrangement)
    → ((k : String) → a k ≡ b k)
    → (k : String) → arrange_all base ids gs a k ≡ arrange_all base ids gs b k
arrange_all-same base ids [] a b h k = h k
arrange_all-same base ids (g ∷ gs) a b h k =
    arrange_all-same base ids gs (arrange base ids g a) (arrange base ids g b)
      (arrange-same base ids g a b h) k

-- Any gestures on an answer, with a search or without one, leave the rows closed that they leave
-- closed on a tree where each row is open or closed and a gesture turns one row or sets all that have
-- children: how the closed rows are kept, in the store or as overrides of the search, does not show.
-- The trace is known, or the store has room.
pub gestures-arrange :
    (r : Response) (gs : List Gesture) (lens : Lens) (k : String)
    → IsObject lens.search_overrides
    → HasPlace r.trace_id lens.store
    → has (effective_collapsed r (gestures r gs lens)) k
      ≡ arrange_all
          (in_shape (search_shape r.spans))
          (collapsible r)
          gs
          (has (effective_collapsed r lens))
          k
unfolding gestures
gestures-arrange r [] lens k once place = refl
gestures-arrange r (g ∷ gs) lens k once place =
    let (once', place') = gesture-Ready r g lens (once, place) in
    gestures-arrange r gs (gesture r g lens) k once' place'
    ∙ arrange_all-same (in_shape (search_shape r.spans)) (collapsible r) gs _ _
        (λ j. gesture-arranges r g lens j (once, place)) k
