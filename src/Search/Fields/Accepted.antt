-- ===== src/Search/Fields/Accepted.antt =====
-- The static fields of constants/fields.ts and `findField` of components/shared/Search/queryParser.ts.
use otel_desktop_viewer.Prelude.{
  ℕ, zero, suc, ◌≡◌, refl, Text, text_eq, Bool, true, false, ◌&&◌, not, List, [], ◌∷◌, any, find,
  get_elem?, some, arith,
}
use otel_desktop_viewer.ListPage.Sequence.{SignalName, traces, metrics, logs}
use otel_desktop_viewer.Search.Query.{FieldDefinition, field_scope, attribute_scope, global}
use otel_desktop_viewer.Search.Parser.{names, find_field}
use otel_desktop_viewer.Search.Fields.{get_fields_by_signal}

abbrev pub name_of : FieldDefinition → Text
name_of (field_scope n os) = n
name_of (attribute_scope n os) = n
name_of global = []

-- No name is there twice, up to the case of letters, and no field is the global one.
distinct : List FieldDefinition → Bool
distinct [] = true
distinct (g ∷ gs) = names (name_of g) g && not (any (λ h. names (name_of h) g) gs) && distinct gs

find-any :
    (p : FieldDefinition → Bool) (gs : List FieldDefinition) (i : ℕ) (f : FieldDefinition)
    → get_elem? gs i ≡ some f
    → any p gs ≡ false
    → p f ≡ false
find-any p [] i f e h = cc
find-any p (g ∷ gs) zero f e h = ground arith
find-any p (g ∷ gs) (suc i) f e h = find-any p gs i f e (ground arith)

find_field-distinct :
    (gs : List FieldDefinition) (i : ℕ) (f : FieldDefinition)
    → distinct gs ≡ true
    → get_elem? gs i ≡ some f
    → find (names (name_of f)) gs ≡ some f
unfolding distinct
find_field-distinct [] i f d e = cc
find_field-distinct (g ∷ gs) zero f d e =
    let same : g ≡ f = ground arith in
    let itself : names (name_of g) g ≡ true = ground arith in rw (← same, itself) refl
find_field-distinct (g ∷ gs) (suc i) f d e =
    let other : names (name_of f) g ≡ false =
      find-any (λ h. names (name_of h) g) gs i f e (ground arith) in
    rw other (find_field-distinct gs i f (ground arith) e)

fields-distinct : (signal : SignalName) → distinct (get_fields_by_signal signal) ≡ true
unfolding distinct get_fields_by_signal find_field text_eq
fields-distinct traces = refl
fields-distinct metrics = refl
fields-distinct logs = refl

-- Every static field of a signal is the one that the parser finds under the field's own name: no
-- field hides another, upper and lower case aside.
pub get_fields_by_signal-find_field :
    (signal : SignalName) (i : ℕ) (f : FieldDefinition)
    → get_elem? (get_fields_by_signal signal) i ≡ some f
    → find_field (get_fields_by_signal signal) (name_of f) ≡ some f
unfolding find_field
get_fields_by_signal-find_field signal i f e =
    find_field-distinct (get_fields_by_signal signal) i f (fields-distinct signal) e
