-- ===== src/Metrics/Resolution.antt =====
-- components/metrics/utils/metric-timeseries-visible.ts: which series are drawn when a metric is
-- opened and after its data are refreshed.
use package.text.Mathlib.TextEquality.{eq_iff}
use otel_desktop_viewer.Prelude.{
  ℕ, zero, suc, ◌≤◌, ◌≡◌, refl, String, has, All, Bool, true, false, not, List, [], ◌∷◌, any,
  keep_if, take, length, length-take, Option, none, some, ap, arith, Bool-cases, inl, inr,
}
use otel_desktop_viewer.Metrics.Storage.{Storage}
use otel_desktop_viewer.Metrics.Visible.{
  AggregationView, load_persisted_view, persisted_visible_keys, save_persisted_aggregation_view,
  or_fresh, resolve_from, resolve_timeseries_visible, reconcile_timeseries_visible,
  default_visible_timeseries,
}
use otel_desktop_viewer.Metrics.Persistence.{or_none_drawn, save_persisted_aggregation_view-keeps}

-- Every key of the first list is one of the second.
abbrev pub AllIn : List String → List String → Type 0
AllIn current keys = All (λ k. has current k ≡ true) keys

take-All : (P : String → Type 0) (n : ℕ) (ks : List String) → All P ks → All P (take n ks)
take-All P zero ks h = tt
take-All P (suc n) [] h = tt
take-All P (suc n) (k ∷ ks) (h, hs) = (h, take-All P n ks hs)

keep_if-All : (current ks : List String) → AllIn current (keep_if (has current) ks)
keep_if-All current [] = tt
keep_if-All current (k ∷ ks) = elim (Bool-cases (has current k)) [
  | inl t ↦ rw t (t, keep_if-All current ks)
  | inr f ↦ rw f (keep_if-All current ks)
]

has-cons : (x : String) (current ks : List String) → AllIn current ks → AllIn (x ∷ current) ks
has-cons x current [] h = tt
has-cons x current (k ∷ ks) (h, hs) = (ground arith, has-cons x current ks hs)

AllIn-self : (ks : List String) → AllIn ks ks
AllIn-self [] = tt
AllIn-self (k ∷ ks) = (ground (arith, eq_iff k k), has-cons k ks ks (AllIn-self ks))

abbrev pub Within : Option ℕ → List String → Type 0
Within none ks = Unit
Within (some limit) ks = length ks ≤ limit

keep_if-same : (current ks : List String) → AllIn current ks → keep_if (has current) ks ≡ ks
keep_if-same current [] h = refl
keep_if-same current (k ∷ ks) (h, hs) = rw (h, keep_if-same current ks hs)

any-none : (current ks : List String) → AllIn current ks → any (λ k. not (has current k)) ks ≡ false
any-none current [] h = refl
any-none current (k ∷ ks) (h, hs) = rw (h, any-none current ks hs)

take-same : (n : ℕ) (ks : List String) → length ks ≤ n → take n ks ≡ ks
take-same zero [] h = refl
take-same zero (k ∷ ks) h = ground arith
take-same (suc n) [] h = refl
take-same (suc n) (k ∷ ks) h = ap (λ js. k ∷ js) (take-same n ks (omega arith))

resolve_from_sound :
    (saved : Option (List String)) (current : List String) (initial limit : ℕ)
    → initial ≤ limit
    → AllIn current (resolve_from saved current initial (some limit))
      × (length (resolve_from saved current initial (some limit)) ≤ limit)
resolve_from_sound none current initial limit h = (
  take-All (λ k. has current k ≡ true) initial current (AllIn-self current),
  omega (arith, length-take initial current),
)
resolve_from_sound (some keys) current initial limit h = (
  take-All (λ k. has current k ≡ true) limit (keep_if (has current) keys)
      (keep_if-All current keys),
  omega (arith, length-take limit (keep_if (has current) keys)),
)

-- The series drawn when a metric is opened are series that its data have, whatever was saved, and
-- no more than the limit, if the number drawn at first is within it.
pub resolve_timeseries_visible_sound :
    (s : Storage) (current : List String) (id : String) (initial limit : ℕ)
    → initial ≤ limit
    → let drawn = resolve_timeseries_visible s current id initial (some limit) in
      AllIn current drawn × (length drawn ≤ limit)
unfolding resolve_timeseries_visible
resolve_timeseries_visible_sound s current id initial limit h =
    resolve_from_sound (persisted_visible_keys s id) current initial limit h

or_fresh_sound :
    (P : List String → Type 0) (kept : List String) (stale : Bool) (fresh : List String)
    → P kept
    → P fresh
    → P []
    → P (or_fresh kept stale fresh)
or_fresh_sound P (k ∷ ks) stale fresh h g e = h
or_fresh_sound P [] true fresh h g e = g
or_fresh_sound P [] false fresh h g e = e

-- After a refresh the series drawn are series that the new data have, and no more than the limit,
-- if that is at least the 10 that are drawn by default.
pub reconcile_timeseries_visible_sound :
    (s : Storage) (visible current : List String) (id : String) (limit : ℕ)
    → default_visible_timeseries ≤ limit
    → let drawn = reconcile_timeseries_visible s visible current id (some limit) in
      AllIn current drawn × (length drawn ≤ limit)
unfolding reconcile_timeseries_visible
reconcile_timeseries_visible_sound s visible current id limit h =
    let kept = keep_if (has current) visible in
    or_fresh_sound (λ ks. AllIn current ks × (length ks ≤ limit)) (take limit kept)
      (any (λ k. not (has current k)) visible)
      (resolve_timeseries_visible s current id default_visible_timeseries (some limit))
      (
        take-All (λ k. has current k ≡ true) limit kept (keep_if-All current visible),
        omega (arith, length-take limit kept),
      )
      (resolve_timeseries_visible_sound s current id default_visible_timeseries limit h)
      (tt, omega arith)

-- A refresh that loses none of the series drawn, which are within the limit, leaves them as they
-- are and in their order, none at all included.
pub reconcile_timeseries_visible-same :
    (s : Storage) (visible current : List String) (id : String) (limit : ℕ)
    → AllIn current visible
    → length visible ≤ limit
    → reconcile_timeseries_visible s visible current id (some limit) ≡ visible
unfolding reconcile_timeseries_visible
reconcile_timeseries_visible-same s [] current id limit all short = rw (take-same limit [] short)
reconcile_timeseries_visible-same s (k ∷ ks) current id limit all short =
    rw (keep_if-same current (k ∷ ks) all, take-same limit (k ∷ ks) short)

-- Saving an aggregation for a metric that had nothing saved makes its next visit draw no series at
-- all, where it drew the first ones before.
pub save_persisted_aggregation_view-hides :
    (s : Storage) (current : List String) (id : String) (view : AggregationView) (initial limit : ℕ)
    → load_persisted_view s id ≡ none
    → (resolve_timeseries_visible s current id initial (some limit) ≡ take initial current)
      × (resolve_timeseries_visible
            (save_persisted_aggregation_view id view s)
            current
            id
            initial
            (some limit)
          ≡ [])
unfolding resolve_timeseries_visible persisted_visible_keys
save_persisted_aggregation_view-hides s current id view initial limit h =
    let none_kept : or_none_drawn (persisted_visible_keys s id) ≡ [] = rw h in
    let saved = save_persisted_aggregation_view-keeps id view s in
    (rw h, rw (saved.1, none_kept, take-same limit [] (omega arith)))
