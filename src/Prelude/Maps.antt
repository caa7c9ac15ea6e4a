-- ===== src/Prelude/Maps.antt =====
-- A JavaScript `Map` with string keys: entries in the order of insertion. `set` on a key that is
-- there keeps the key's place.
use Prim.Native.String.{String}
use mathlib.Core.Path.{◌≡◌, refl}
use mathlib.Core.Bool.{Bool, false, ◌||◌}
use mathlib.Core.Option.{Option, none, some}
use mathlib.Core.List.{List, [], ◌∷◌, ◌++◌}
use native.Mathlib.Omega.{arith}
use text.Mathlib.Text.{◌==◌ as str_eq}
use text.Mathlib.TextEquality.{eq_iff}
use mathlib.Core.Logic.{inl, inr}
use otel_desktop_viewer.Prelude.Tests.{if◌then◌else◌, Bool-cases}

-- `===` on strings, and `includes` or `Set.has` on a collection of them.
abbrev pub same : String → String → Bool
same a b = str_eq a b

abbrev pub has : List String → String → Bool
has [] k = false
has (x ∷ xs) k = same x k || has xs k

-- `Set.add` and `Set.delete`.
abbrev pub add_key : List String → String → List String
add_key ids id = if has ids id then ids else ids ++ id ∷ []

abbrev pub remove_key : List String → String → List String
remove_key [] id = []
remove_key (x ∷ ids) id = if same x id then remove_key ids id else x ∷ remove_key ids id

has-snoc : (xs : List String) (id k : String) → has (xs ++ id ∷ []) k ≡ (has xs k || same id k)
has-snoc [] id k = ground arith
has-snoc (x ∷ xs) id k = ground (arith, has-snoc xs id k)

pub has-add_key :
    (ids : List String) (id k : String) → has (add_key ids id) k ≡ (has ids k || same id k)
has-add_key ids id k = ground (arith, has-snoc ids id k, eq_iff id k)

pub has-remove_key :
    (ids : List String) (id k : String)
    → has (remove_key ids id) k ≡ (if same id k then false else has ids k)
has-remove_key [] id k = ground arith
has-remove_key (x ∷ ids) id k =
    ground (arith, has-remove_key ids id k, eq_iff x id, eq_iff id k, eq_iff x k)

module _ {ℓ} {V : Type ℓ} where
  unfoldable pub map_get : List (String × V) → String → Option V
  map_get [] k = none
  map_get ((j, v) ∷ m) k = if same j k then some v else map_get m k

  unfoldable pub map_set : List (String × V) → String → V → List (String × V)
  map_set [] k v = (k, v) ∷ []
  map_set ((j, w) ∷ m) k v = if same j k then (j, v) ∷ m else (j, w) ∷ map_set m k v

  unfoldable pub map_delete : List (String × V) → String → List (String × V)
  map_delete [] k = []
  map_delete ((j, w) ∷ m) k = if same j k then m else (j, w) ∷ map_delete m k

  pub map_get-set :
      (m : List (String × V)) (k j : String) (v : V)
      → map_get (map_set m k v) j ≡ (if same k j then some v else map_get m j)
  unfolding map_get map_set
  map_get-set [] k j v = refl
  map_get-set ((i, w) ∷ m) k j v =
      ground (arith, eq_iff k j, eq_iff i k, eq_iff i j, map_get-set m k j v)

  -- A map, and an object, has a key once.
  abbrev pub has_key : List (String × V) → String → Bool
  has_key [] k = false
  has_key ((j, v) ∷ q) k = same j k || has_key q k

  abbrev pub IsObject : List (String × V) → Type 0
  IsObject [] = Unit
  IsObject ((k, v) ∷ q) = (has_key q k ≡ false) × IsObject q

  pub get-absent : (q : List (String × V)) (k : String) → has_key q k ≡ false → map_get q k ≡ none
  unfolding map_get
  get-absent [] k h = refl
  get-absent ((j, v) ∷ q) k h = ground (arith, get-absent q k)

  has_key-set :
      (q : List (String × V)) (k : String) (v : V) (j : String)
      → has_key q j ≡ false
      → same k j ≡ false
      → has_key (map_set q k v) j ≡ false
  unfolding map_set
  has_key-set [] k v j h n = ground arith
  has_key-set ((i, w) ∷ q) k v j h n = ground (arith, has_key-set q k v j)

  pub map_set-IsObject :
      (q : List (String × V)) (k : String) (v : V) → IsObject q → IsObject (map_set q k v)
  unfolding map_set
  map_set-IsObject [] k v h = (refl, tt)
  map_set-IsObject ((j, w) ∷ q) k v (fresh, h) = elim (Bool-cases (same j k)) [
    | inl e ↦ rw e (fresh, h)
    | inr e ↦
        let other : same k j ≡ false = ground (arith, eq_iff k j, eq_iff j k) in
        rw e (has_key-set q k v j fresh other, map_set-IsObject q k v h)
  ]
