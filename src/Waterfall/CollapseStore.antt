-- ===== src/Waterfall/CollapseStore.antt =====
-- components/traces/Waterfall/waterfall-collapse-store.ts: the collapsed spans of each trace.
use otel_desktop_viewer.Prelude.{
  ℕ, suc, ◌≤◌, ◌<◌, ◌≡◌, ◌⊎◌, inl, inr, refl, leb, String, same, Bool, true, false, Bool-cases,
  if◌then◌else◌, List, [], ◌∷◌, length, Option, none, some, map_get, map_set, map_get-set, arith,
}

abbrev pub max_tracked_traces : ℕ
max_tracked_traces = 20

-- `collapsedByTrace`, the oldest entry first.
abbrev pub CollapseStore : Type 0
CollapseStore = List (String × List String)

abbrev or_empty : Option (List String) → List String
or_empty none = []
or_empty (some ids) = ids

unfoldable pub collapsed_for_trace : CollapseStore → String → List String
collapsed_for_trace store trace_id = or_empty (map_get store trace_id)

-- `collapsedByTrace.has`
unfoldable pub is_tracked : CollapseStore → String → Bool
is_tracked [] id = false
is_tracked ((k, v) ∷ m) id = if same k id then true else is_tracked m id

-- The loop that deletes the oldest entry, which is the first.
unfoldable pub evict : CollapseStore → CollapseStore
evict [] = []
evict (e ∷ m) =
    let rest = evict m in if leb max_tracked_traces (length (e ∷ m)) then rest else e ∷ m

unfoldable pub set_collapsed_for_trace : String → List String → CollapseStore → CollapseStore
unfolding is_tracked evict
set_collapsed_for_trace trace_id next store =
    map_set (if is_tracked store trace_id then store else evict store) trace_id next

unfoldable pub reset_collapse_store : CollapseStore → CollapseStore
reset_collapse_store store = []

length-map_set :
    (m : CollapseStore) (k : String) (v : List String) → length (map_set m k v) ≤ suc (length m)
unfolding map_set
length-map_set [] k v = omega arith
length-map_set ((j, w) ∷ m) k v = ground (arith, length-map_set m k v)

length-map_set_tracked :
    (m : CollapseStore) (k : String) (v : List String)
    → is_tracked m k ≡ true
    → length (map_set m k v) ≡ length m
unfolding map_set is_tracked
length-map_set_tracked [] k v h = cc
length-map_set_tracked ((j, w) ∷ m) k v h = ground (arith, length-map_set_tracked m k v)

length-evict : (m : CollapseStore) → length (evict m) < max_tracked_traces
unfolding evict
length-evict [] = omega arith
length-evict (e ∷ m) = ground (arith, length-evict m)

evict-small : (m : CollapseStore) → length m < max_tracked_traces → evict m ≡ m
unfolding evict
evict-small [] h = refl
evict-small (e ∷ m) h = ground arith

-- A store that holds no more than its bound does so too when a trace is set.
pub set_collapsed_for_trace-bounded :
    (trace_id : String) (next : List String) (store : CollapseStore)
    → length store ≤ max_tracked_traces
    → length (set_collapsed_for_trace trace_id next store) ≤ max_tracked_traces
unfolding set_collapsed_for_trace
set_collapsed_for_trace-bounded trace_id next store h =
    elim (Bool-cases (is_tracked store trace_id)) [
      | inl old ↦ rw old (omega (arith, length-map_set_tracked store trace_id next old))
      | inr new ↦
          rw new (omega (arith, length-map_set (evict store) trace_id next, length-evict store))
    ]

-- What was set for a trace is read back, and other traces keep theirs unless a new trace meets a
-- full store.
pub collapsed-set :
    (trace_id other : String) (next : List String) (store : CollapseStore)
    → (is_tracked store trace_id ≡ true) ⊎ (length store < max_tracked_traces)
    → collapsed_for_trace (set_collapsed_for_trace trace_id next store) other
      ≡ (if same trace_id other then next else collapsed_for_trace store other)
unfolding set_collapsed_for_trace collapsed_for_trace
collapsed-set trace_id other next store (inl old) =
    rw (old, map_get-set store trace_id other next) (ground arith)
collapsed-set trace_id other next store (inr room) =
    rw (evict-small store room, map_get-set) (ground arith)
