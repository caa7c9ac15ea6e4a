-- ===== src/Metrics/Colors.antt =====
-- components/metrics/utils/metric-timeseries-colors.ts: which series gets which colour of the palette.
use package.text.Mathlib.TextEquality.{eq_iff}
use otel_desktop_viewer.Prelude.{
  ◌≡◌, refl, String, same, has, true, false, Bool-cases, Option-cases, inl, inr, if◌then◌else◌,
  List, [], ◌∷◌, Option, none, some, map_get, map_set, map_delete, has_key, IsObject,
  map_set-IsObject, arith,
}

-- The series that are checked, with their colours.
abbrev pub Colors : Type 0
Colors = List (String × String)

-- The loop of `seedColorAssignments`, with the colours that are left.
unfoldable pub seed_from : List String → List String → List String → Colors → Colors
seed_from pool visible [] out = out
seed_from [] visible (key ∷ keys) out =
    if has visible key then out else seed_from [] visible keys out
seed_from (c ∷ pool) visible (key ∷ keys) out =
    let skipped = seed_from (c ∷ pool) visible keys out in
    let filled = seed_from pool visible keys (map_set out key c) in
    if has visible key then filled else skipped

unfoldable pub seed_color_assignments : List String → List String → List String → Colors
unfolding seed_from
seed_color_assignments pool visible legend_order = seed_from pool visible legend_order []

abbrev pub colors_in : Colors → List String
colors_in [] = []
colors_in ((k, c) ∷ m) = c ∷ colors_in m

abbrev pub first_unused : List String → List String → Option String
first_unused [] used = none
first_unused (c ∷ pool) used = if has used c then first_unused pool used else some c

abbrev give : Option String → String → Colors → Colors × Option String
give none key assigned = (assigned, none)
give (some c) key assigned = (map_set assigned key c, some c)

abbrev acquire_new : Option String → Option String → String → Colors → Colors × Option String
acquire_new (some c) unused key assigned = (assigned, some c)
acquire_new none unused key assigned = give unused key assigned

-- The map afterwards, and the colour.
unfoldable pub acquire_color : List String → Colors → String → Colors × Option String
acquire_color pool assigned key =
    acquire_new (map_get assigned key) (first_unused pool (colors_in assigned)) key assigned

unfoldable pub release_color : Colors → String → Colors
release_color assigned key = map_delete assigned key

-- The first loop of `syncColorAssignments`.
abbrev pub keep_visible : List String → Colors → Colors
keep_visible visible [] = []
keep_visible visible ((k, c) ∷ m) =
    if has visible k then (k, c) ∷ keep_visible visible m else keep_visible visible m

unfoldable pub acquire_each : List String → List String → List String → Colors → Colors
unfolding acquire_color
acquire_each pool visible [] assigned = assigned
acquire_each pool visible (key ∷ keys) assigned =
    acquire_each pool visible keys
      (if has visible key then (acquire_color pool assigned key).0 else assigned)

unfoldable pub sync_color_assignments : List String → Colors → List String → List String → Colors
unfolding acquire_each
sync_color_assignments pool assigned visible legend_order =
    acquire_each pool visible legend_order (keep_visible visible assigned)

-- No two of them are the same.
abbrev pub AreDistinct : List String → Type 0
AreDistinct [] = Unit
AreDistinct (c ∷ cs) = (has cs c ≡ false) × AreDistinct cs

-- Every series with a colour is visible, and no two have the same one.
abbrev pub AreShown : List String → Colors → Type 0
AreShown visible [] = Unit
AreShown visible ((k, c) ∷ m) = (has visible k ≡ true) × AreShown visible m

abbrev pub IsPainted : List String → Colors → Type 0
IsPainted visible m = AreDistinct (colors_in m) × AreShown visible m × IsObject m

has-colors-set :
    (m : Colors) (k c x : String)
    → has (colors_in m) x ≡ false
    → same c x ≡ false
    → has (colors_in (map_set m k c)) x ≡ false
unfolding map_set
has-colors-set [] k c x h n = ground arith
has-colors-set ((j, d) ∷ m) k c x h n = ground (arith, has-colors-set m k c x)

map_set-distinct :
    (m : Colors) (k c : String)
    → AreDistinct (colors_in m)
    → has (colors_in m) c ≡ false
    → AreDistinct (colors_in (map_set m k c))
unfolding map_set
map_set-distinct [] k c d h = (refl, tt)
map_set-distinct ((j, x) ∷ m) k c (fresh, d) h = elim (Bool-cases (same j k)) [
  | inl t ↦ let free : has (colors_in m) c ≡ false = ground arith in rw t (free, d)
  | inr f ↦
      let free : has (colors_in m) c ≡ false = ground arith in
      let apart : same c x ≡ false = ground (arith, eq_iff c x, eq_iff x c) in
      rw f (has-colors-set m k c x fresh apart, map_set-distinct m k c d free)
]

map_set-shown :
    (visible : List String) (m : Colors) (k c : String)
    → AreShown visible m
    → has visible k ≡ true
    → AreShown visible (map_set m k c)
unfolding map_set
map_set-shown visible [] k c s h = (h, tt)
map_set-shown visible ((j, x) ∷ m) k c (shown, s) h = elim (Bool-cases (same j k)) [
  | inl t ↦ rw t (shown, s)
  | inr f ↦ rw f (shown, map_set-shown visible m k c s h)
]

pub map_set-IsPainted :
    (visible : List String) (m : Colors) (k c : String)
    → IsPainted visible m
    → has (colors_in m) c ≡ false
    → has visible k ≡ true
    → IsPainted visible (map_set m k c)
map_set-IsPainted visible m k c (d, s, o) free h =
    (map_set-distinct m k c d free, map_set-shown visible m k c s h, map_set-IsObject m k c o)

first_unused-free :
    (pool used : List String) (c : String) → first_unused pool used ≡ some c → has used c ≡ false
first_unused-free [] used c h = cc
first_unused-free (d ∷ pool) used c h = elim (Bool-cases (has used d)) [
  | inl t ↦ first_unused-free pool used c (rw t at h)
  | inr f ↦ ground arith
]

pub acquire_color-IsPainted :
    (pool visible : List String) (assigned : Colors) (key : String)
    → IsPainted visible assigned
    → has visible key ≡ true
    → IsPainted visible (acquire_color pool assigned key).0
unfolding acquire_color
acquire_color-IsPainted pool visible assigned key p h = elim (Option-cases (map_get assigned key)) [
  | inr (c, old) ↦ rw old p
  | inl new ↦ elim (Option-cases (first_unused pool (colors_in assigned))) [
    | inl full ↦ rw (new, full) p
    | inr (c, free) ↦
        rw (new, free)
          (map_set-IsPainted visible assigned key c p
            (first_unused-free pool (colors_in assigned) c free) h)
  ]
]

pub acquire_each-IsPainted :
    (pool visible keys : List String) (assigned : Colors)
    → IsPainted visible assigned
    → IsPainted visible (acquire_each pool visible keys assigned)
unfolding acquire_each
acquire_each-IsPainted pool visible [] assigned p = p
acquire_each-IsPainted pool visible (key ∷ keys) assigned p = elim (Bool-cases (has visible key)) [
  | inl t ↦ rw t (
      acquire_each-IsPainted pool visible keys _
        (acquire_color-IsPainted pool visible assigned key p t))
  | inr f ↦ rw f (acquire_each-IsPainted pool visible keys assigned p)
]

has-keep_visible :
    (visible : List String) (m : Colors) (c : String)
    → has (colors_in m) c ≡ false
    → has (colors_in (keep_visible visible m)) c ≡ false
has-keep_visible visible [] c h = refl
has-keep_visible visible ((k, d) ∷ m) c h = ground (arith, has-keep_visible visible m c)

has_key-keep_visible :
    (visible : List String) (m : Colors) (k : String)
    → has_key m k ≡ false
    → has_key (keep_visible visible m) k ≡ false
has_key-keep_visible visible [] k h = refl
has_key-keep_visible visible ((j, d) ∷ m) k h = ground (arith, has_key-keep_visible visible m k)

pub keep_visible-IsPainted :
    (visible : List String) (m : Colors)
    → AreDistinct (colors_in m)
    → IsObject m
    → IsPainted visible (keep_visible visible m)
keep_visible-IsPainted visible [] d o = (tt, tt, tt)
keep_visible-IsPainted visible ((k, c) ∷ m) (fresh, d) (once, o) =
    let (d', s', o') = keep_visible-IsPainted visible m d o in
    elim (Bool-cases (has visible k)) [
      | inl t ↦ rw t (
        (has-keep_visible visible m c fresh, d'),
        (t, s'),
        (has_key-keep_visible visible m k once, o'),
      )
      | inr f ↦ rw f (d', s', o')
    ]

-- None of the colours left is given.
abbrev Apart : List String → Colors → Type 0
Apart [] m = Unit
Apart (c ∷ pool) m = (has (colors_in m) c ≡ false) × Apart pool m

Apart-set :
    (pool : List String) (m : Colors) (k c : String)
    → Apart pool m
    → has pool c ≡ false
    → Apart pool (map_set m k c)
Apart-set [] m k c a h = tt
Apart-set (d ∷ pool) m k c (free, a) h =
    let other : same c d ≡ false = ground (arith, eq_iff c d, eq_iff d c) in
    (has-colors-set m k c d free other, Apart-set pool m k c a (ground arith))

seed_from-IsPainted :
    (pool visible keys : List String) (out : Colors)
    → AreDistinct pool
    → Apart pool out
    → IsPainted visible out
    → IsPainted visible (seed_from pool visible keys out)
unfolding seed_from
seed_from-IsPainted pool visible [] out d a p = p
seed_from-IsPainted [] visible (key ∷ keys) out d a p = elim (Bool-cases (has visible key)) [
  | inl t ↦ rw t p
  | inr f ↦ rw f (seed_from-IsPainted [] visible keys out d a p)
]
seed_from-IsPainted (c ∷ pool) visible (key ∷ keys) out (fresh, d) (free, a) p =
    elim (Bool-cases (has visible key)) [
      | inl t ↦ rw t (
          seed_from-IsPainted pool visible keys (map_set out key c) d
            (Apart-set pool out key c a fresh) (map_set-IsPainted visible out key c p free t))
      | inr f ↦ rw f (seed_from-IsPainted (c ∷ pool) visible keys out (fresh, d) (free, a) p)
    ]

Apart-none : (pool : List String) → Apart pool []
Apart-none [] = tt
Apart-none (c ∷ pool) = (refl, Apart-none pool)

pub seed_color_assignments-IsPainted :
    (pool visible legend_order : List String)
    → AreDistinct pool
    → IsPainted visible (seed_color_assignments pool visible legend_order)
unfolding seed_color_assignments
seed_color_assignments-IsPainted pool visible legend_order d =
    seed_from-IsPainted pool visible legend_order [] d (Apart-none pool) (tt, tt, tt)
