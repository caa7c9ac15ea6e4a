-- ===== src/Waterfall/Ancestors.antt =====
-- `ancestorIdsOf` of components/traces/Waterfall/waterfall-reveal.ts.
use text.Mathlib.TextEquality.{eq_iff}
use otel_desktop_viewer.Prelude.{
  ℕ, zero, suc, ◌+◌, ◌≤◌, ◌<◌, ◌≡◌, ◌≢◌, ◌⊎◌, inl, inr, refl, String, has, true, false, Bool-cases,
  Option-cases, if◌then◌else◌, List, [], ◌∷◌, length, Option, none, some, map_get, arith,
}

abbrev pub ParentMap : Type 0
ParentMap = List (String × Option String)

-- `parentOf.get(id) ?? null`
abbrev flat : Option (Option String) → Option String
flat none = none
flat (some p) = p

unfoldable pub parent_id : ParentMap → String → Option String
parent_id parents id = flat (map_get parents id)

abbrev pub cons_ancestor : String → Option (List String) → Option (List String)
cons_ancestor id none = none
cons_ancestor id (some ids) = some (id ∷ ids)

-- The loop; `none` stands for fuel that ran out.
unfoldable pub climb : ℕ → ParentMap → List String → Option String → Option (List String)
climb zero parents seen pid = none
climb (suc fuel) parents seen none = some []
climb (suc fuel) parents seen (some pid) =
    let more = cons_ancestor pid (climb fuel parents (pid ∷ seen) (parent_id parents pid)) in
    if has seen pid then some [] else more

-- Each lap takes another entry of the map.
unfoldable pub ancestor_ids_of : String → ParentMap → Option (List String)
unfolding climb parent_id
ancestor_ids_of span_id parents =
    climb (length parents + 2) parents (span_id ∷ []) (parent_id parents span_id)

module _ {ℓ} {V : Type ℓ} where
  -- The entries whose keys are not seen.
  pub unseen : List (String × V) → List String → ℕ
  unseen [] seen = 0
  unseen ((k, p) ∷ m) seen = if has seen k then unseen m seen else suc (unseen m seen)

  pub unseen-le : (m : List (String × V)) (seen : List String) → unseen m seen ≤ length m
  unfolding unseen
  unseen-le [] seen = omega arith
  unseen-le ((k, p) ∷ m) seen = ground (arith, unseen-le m seen)

  pub unseen-cons-le :
      (m : List (String × V)) (seen : List String) (id : String)
      → unseen m (id ∷ seen) ≤ unseen m seen
  unfolding unseen
  unseen-cons-le [] seen id = omega arith
  unseen-cons-le ((k, p) ∷ m) seen id = ground (arith, unseen-cons-le m seen id)

  -- To see a key of the map for the first time leaves fewer.
  pub unseen-cons-lt :
      (m : List (String × V)) (seen : List String) (id : String) (p : V)
      → map_get m id ≡ some p
      → has seen id ≡ false
      → unseen m (id ∷ seen) < unseen m seen
  unfolding unseen map_get
  unseen-cons-lt [] seen id p h n = cc
  unseen-cons-lt ((k, q) ∷ m) seen id p h n =
      ground (arith, unseen-cons-lt m seen id p, unseen-cons-le m seen id, eq_iff k id, eq_iff id k)

cons_ancestor-ne : (id : String) (x : Option (List String)) → x ≢ none → cons_ancestor id x ≢ none
cons_ancestor-ne id none h = absurd (h refl)
cons_ancestor-ne id (some ids) h = cc

climb-nowhere :
    (fuel : ℕ) (parents : ParentMap) (seen : List String)
    → 0 < fuel
    → climb fuel parents seen none ≢ none
unfolding climb
climb-nowhere zero parents seen h = absurd (omega arith)
climb-nowhere (suc fuel) parents seen h = cc

pub parent_id-missing :
    (parents : ParentMap) (id : String) → map_get parents id ≡ none → parent_id parents id ≡ none
unfolding parent_id
parent_id-missing parents id h = rw h refl

climb-ends :
    (fuel : ℕ) (parents : ParentMap) (seen : List String) (pid : Option String)
    → unseen parents seen + 2 ≤ fuel
    → climb fuel parents seen pid ≢ none
unfolding climb
climb-ends zero parents seen pid h = absurd (omega arith)
climb-ends (suc fuel) parents seen none h = cc
climb-ends (suc fuel) parents seen (some pid) h = elim (Bool-cases (has seen pid)) [
  | inl old ↦ rw old (cc)
  | inr new ↦ elim (Option-cases (map_get parents pid)) [
    | inr (p, found) ↦ rw new (
        cons_ancestor-ne pid _ (
          climb-ends fuel parents (pid ∷ seen) (parent_id parents pid)
            (omega (arith, unseen-cons-lt parents seen pid p found new))))
    | inl missing ↦
        rw (new, parent_id-missing parents pid missing)
          (cons_ancestor-ne pid _ (climb-nowhere fuel parents (pid ∷ seen) (omega arith)))
  ]
]

-- `ids` are the ancestors of `id` one after the other, none of them seen before, up to one with no
-- parent or with a parent that was seen.
abbrev pub Walk : ParentMap → List String → String → List String → Type 0
Walk parents seen id [] =
    (parent_id parents id ≡ none)
    ⊎ ((a : String) × (parent_id parents id ≡ some a) × (has seen a ≡ true))
Walk parents seen id (a ∷ ids) =
    (parent_id parents id ≡ some a) × (has seen a ≡ false) × Walk parents (a ∷ seen) a ids

cons_ancestor-eq :
    (id : String) (x : Option (List String)) (ids : List String)
    → cons_ancestor id x ≡ some ids
    → (more : List String) × (x ≡ some more) × (ids ≡ id ∷ more)
cons_ancestor-eq id none ids h = cc
cons_ancestor-eq id (some more) ids h = (more, refl, ground arith)

climb-Walk :
    (fuel : ℕ) (parents : ParentMap) (seen : List String) (id : String) (pid : Option String)
    (ids : List String)
    → parent_id parents id ≡ pid
    → climb fuel parents seen pid ≡ some ids
    → Walk parents seen id ids
unfolding climb
climb-Walk zero parents seen id pid ids e h = cc
climb-Walk (suc fuel) parents seen id none ids e h =
    let done : ids ≡ [] = ground arith in rw done (inl e)
climb-Walk (suc fuel) parents seen id (some a) ids e h = elim (Bool-cases (has seen a)) [
  | inl old ↦ let done : ids ≡ [] = ground arith in rw done (inr (a, e, old))
  | inr new ↦
      let longer : cons_ancestor a (climb fuel parents (a ∷ seen) (parent_id parents a))
          ≡ some ids =
        rw new at h in
      let (more, rest, same_ids) =
        cons_ancestor-eq a (climb fuel parents (a ∷ seen) (parent_id parents a)) ids longer in
      rw same_ids
        (e, new, climb-Walk fuel parents (a ∷ seen) a (parent_id parents a) more refl rest)
]

-- The walk ends on every map, with cycles too. It gives the parents one after the other, each once
-- and never the span itself, up to a span with no parent or with one that was met.
pub ancestor_ids_of-Walk :
    (span_id : String) (parents : ParentMap)
    → (ids : List String) × (ancestor_ids_of span_id parents ≡ some ids)
      × Walk parents (span_id ∷ []) span_id ids
ancestor_ids_of-Walk span_id parents = elim (Option-cases (ancestor_ids_of span_id parents)) [
  | inl stuck ↦ absurd (ends stuck)
  | inr (ids, e) ↦ (
    ids,
    e,
    unfold ancestor_ids_of in
        climb-Walk (length parents + 2) parents (span_id ∷ []) span_id _ ids refl e,
  )
]
  where
    ends : ancestor_ids_of span_id parents ≢ none
    ends =
        unfold ancestor_ids_of in
        climb-ends (length parents + 2) parents (span_id ∷ []) _
          (omega (arith, unseen-le parents (span_id ∷ [])))
