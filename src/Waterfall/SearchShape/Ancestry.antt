-- ===== src/Waterfall/SearchShape/Ancestry.antt =====
-- `computeAncestorsOfMatched` of components/traces/Waterfall/WaterfallView.svelte: the set it ends with.
use package.text.Mathlib.TextEquality.{eq_iff}
use otel_desktop_viewer.Prelude.{
  ℕ, zero, suc, ◌+◌, ◌≤◌, ◌<◌, ◌≡◌, ◌⊎◌, inl, inr, refl, sym, ap, ◌∙◌, String, same, has, true,
  Bool-cases, Option-cases, List, [], ◌∷◌, length, Option, none, some, map_get, arith,
}
use otel_desktop_viewer.Waterfall.Ancestors.{
  ParentMap, parent_id, unseen, unseen-le, unseen-cons-lt, parent_id-missing,
}
use otel_desktop_viewer.Waterfall.SearchShape.{
  climb_matched, ancestors_from, compute_ancestors_of_matched,
}

-- The parent of a span in the set is in the set, or is the one that is climbed to next.
abbrev ClosedUpTo : ParentMap → List String → Option String → Type 0
ClosedUpTo parents set next =
    (a b : String)
    → has set a ≡ true
    → parent_id parents a ≡ some b
    → (has set b ≡ true) ⊎ (next ≡ some b)

abbrev pub Includes : List String → List String → Type 0
Includes more set = (a : String) → has set a ≡ true → has more a ≡ true

-- The set that a climb ends with.
abbrev Climbs : ParentMap → List String → Option String → Option (List String) → Type 0
Climbs parents set next result =
    (more : List String) × (result ≡ some more)
    × Includes more set
    × ClosedUpTo parents more none
    × ((b : String) → next ≡ some b → has more b ≡ true)

some-eq : (a b : String) → some a ≡ some b → a ≡ b
some-eq a b h = cc

module _ (parents : ParentMap) where
  closed-cons :
      (set : List String) (pid : String)
      → ClosedUpTo parents set (some pid)
      → ClosedUpTo parents (pid ∷ set) (parent_id parents pid)
  closed-cons set pid closed a b h e = elim (Bool-cases (same pid a)) [
    | inl t ↦
        let here : pid ≡ a = ground (arith, eq_iff pid a) in inr (ap (parent_id parents) here ∙ e)
    | inr f ↦ elim (closed a b (rw f at h) e) [
      | inl t ↦ inl (ground arith)
      | inr n ↦ inl (ground (arith, eq_iff pid b, some-eq pid b n))
    ]
  ]

  climb_matched-nowhere :
      (fuel : ℕ) (set : List String)
      → 0 < fuel
      → ClosedUpTo parents set none
      → Climbs parents set none (climb_matched fuel parents set none)
  unfolding climb_matched
  climb_matched-nowhere zero set h closed = absurd (omega arith)
  climb_matched-nowhere (suc fuel) set h closed = (set, refl, λ a t. t, closed, λ b e. cc)

  Climbs-old :
      (set : List String) (pid : String)
      → has set pid ≡ true
      → ClosedUpTo parents set (some pid)
      → Climbs parents set (some pid) (some set)
  Climbs-old set pid old closed =
      let at_pid : (b : String) → some pid ≡ some b → has set b ≡ true =
        λ b e. ap (has set) (sym (some-eq pid b e)) ∙ old in
      (
        set,
        refl,
        λ a t. t,
        λ a b t e. elim (closed a b t e) [ inl here ↦ inl here | inr n ↦ inl (at_pid b n) ],
        at_pid,
      )

  Climbs-new :
      (set : List String) (pid : String) (result : Option (List String))
      → Climbs parents (pid ∷ set) (parent_id parents pid) result
      → Climbs parents set (some pid) result
  Climbs-new set pid result (more, e, includes, closed, reached) = (
    more,
    e,
    λ a t. includes a (ground arith),
    closed,
    λ b n. includes b (ground (arith, eq_iff pid b, some-eq pid b n)),
  )

  climb_matched-Climbs :
      (fuel : ℕ) (set : List String) (next : Option String)
      → unseen parents set + 2 ≤ fuel
      → ClosedUpTo parents set next
      → Climbs parents set next (climb_matched fuel parents set next)
  unfolding climb_matched
  climb_matched-Climbs zero set next h closed = absurd (omega arith)
  climb_matched-Climbs (suc fuel) set none h closed = (set, refl, λ a t. t, closed, λ b e. cc)
  climb_matched-Climbs (suc fuel) set (some pid) h closed = elim (Bool-cases (has set pid)) [
    | inl old ↦ rw old (Climbs-old set pid old closed)
    | inr new ↦
        let onward = closed-cons set pid closed in
        rw new (
          Climbs-new set pid _ (elim (Option-cases (map_get parents pid)) [
            | inr (p, found) ↦
                climb_matched-Climbs fuel (pid ∷ set) (parent_id parents pid)
                  (omega (arith, unseen-cons-lt parents set pid p found new)) onward
            | inl missing ↦
                let top = parent_id-missing parents pid missing in
                rw top (climb_matched-nowhere fuel (pid ∷ set) (omega arith) (rw top at onward))
          ]))
  ]

  -- The ancestors of the spans that are left are added to those that are there.
  ancestors_from-closed :
      (matched set : List String)
      → ClosedUpTo parents set none
      → (more : List String) × (ancestors_from parents set matched ≡ some more)
        × Includes more set
        × ClosedUpTo parents more none
        × ((m b : String) → has matched m ≡ true → parent_id parents m ≡ some b → has more b ≡ true)
  unfolding ancestors_from
  ancestors_from-closed [] set closed = (set, refl, λ a t. t, closed, λ m b t e. cc)
  ancestors_from-closed (id ∷ matched) set closed =
      let start : ClosedUpTo parents set (parent_id parents id) =
        λ a b t e. elim (closed a b t e) [ inl here ↦ inl here | inr n ↦ cc ] in
      let (climbed, e, includes, closed', reached) =
        climb_matched-Climbs (length parents + 2) set (parent_id parents id)
          (omega (arith, unseen-le parents set)) start in
      let (more, e', includes', closed'', reached') =
        ancestors_from-closed matched climbed closed' in
      (
        more,
        rw e e',
        λ a t. includes' a (includes a t),
        closed'',
        λ m b t p. elim (Bool-cases (same id m)) [
          | inl here ↦
              let same_id : id ≡ m = ground (arith, eq_iff id m) in
              includes' b (reached b (ap (parent_id parents) same_id ∙ p))
          | inr other ↦ reached' m b (rw other at t) p
        ],
      )

  -- The climb ends on every map, with the parents of every matched span and of every span it has.
  pub compute_ancestors_of_matched-closed :
      (matched : List String)
      → (set : List String) × (compute_ancestors_of_matched matched parents ≡ some set)
        × ((a b : String) → has set a ≡ true → parent_id parents a ≡ some b → has set b ≡ true)
        × ((m b : String) → has matched m ≡ true → parent_id parents m ≡ some b → has set b ≡ true)
  unfolding compute_ancestors_of_matched
  compute_ancestors_of_matched-closed matched =
      let (set, e, includes, closed, reached) = ancestors_from-closed matched [] (λ a b t p. cc) in
      (set, e, λ a b t p. elim (closed a b t p) [ inl here ↦ here | inr n ↦ cc ], reached)
