-- ===== src/Waterfall/Children.antt =====
-- `buildChildrenBySpanID` of components/traces/Waterfall/waterfall-tree.ts.
use package.text.Mathlib.TextEquality.{eq_iff}
use otel_desktop_viewer.Prelude.{
  ◌≡◌, refl, sym, ap, ◌∙◌, String, same, Bool, false, Bool-cases, inl, inr, if◌then◌else◌, List, [],
  ◌∷◌, ◌++◌, append-nil, append_assoc, Option, none, some, map_get, map_set, map_get-set, arith,
}

-- The id of a span and of the parent that it reports.
pub record SpanNode : Type 0 where
  pub span_id : String
  pub parent_span_id : Option String

abbrev pub Index : Type 0
Index = List (String × List String)

abbrev pub pushed_onto : Option (List String) → String → List String
pushed_onto none id = id ∷ []
pushed_onto (some list) id = list ++ id ∷ []

-- A lap of the loop, which skips a span without a parent or with an empty one.
abbrev pub add_child : SpanNode → Option String → Index → Index
add_child n none m = m
add_child n (some pid) m =
    if same pid "" then m else map_set m pid (pushed_onto (map_get m pid) n.span_id)

unfoldable pub index_from : Index → List SpanNode → Index
index_from m [] = m
index_from m (n ∷ spans) = index_from (add_child n n.parent_span_id m) spans

unfoldable pub build_children_by_span_id : List SpanNode → Index
unfolding index_from
build_children_by_span_id spans = index_from [] spans

abbrev pub listed : Option (List String) → List String
listed none = []
listed (some list) = list

-- What the map has for an id, nothing for an id that is missing.
abbrev pub kids : Index → String → List String
kids m id = listed (map_get m id)

abbrev pub is_parent : String → Option String → Bool
is_parent id none = false
is_parent id (some pid) = same pid id

-- The spans that report the parent, in their order.
abbrev pub reporting : String → List SpanNode → List String
reporting id [] = []
reporting id (n ∷ spans) =
    if is_parent id n.parent_span_id then n.span_id ∷ reporting id spans else reporting id spans

abbrev one_kid : String → SpanNode → Option String → List String
one_kid id n pid = if is_parent id pid then n.span_id ∷ [] else []

listed-pushed :
    (found : Option (List String)) (child : String)
    → listed (some (pushed_onto found child)) ≡ listed found ++ child ∷ []
listed-pushed none child = refl
listed-pushed (some list) child = refl

kids-add_child :
    (id : String) (n : SpanNode) (pid : Option String) (m : Index)
    → same id "" ≡ false
    → kids (add_child n pid m) id ≡ kids m id ++ one_kid id n pid
kids-add_child id n none m h = sym (append-nil (kids m id))
kids-add_child id n (some pid) m h = elim (Bool-cases (same pid "")) [
  | inl e ↦
      let other : same pid id ≡ false =
        ground (arith, eq_iff pid id, eq_iff pid "", eq_iff id "") in
      rw (e, other) (sym (append-nil (kids m id)))
  | inr e ↦
      let got = map_get-set m pid id (pushed_onto (map_get m pid) n.span_id) in
      elim (Bool-cases (same pid id)) [
        | inl here ↦
            let p : pid ≡ id = ground (arith, eq_iff pid id) in
            let q : map_get m pid ≡ map_get m id = ap (map_get m) p in
            rw (e, got, here, q) (listed-pushed (map_get m id) n.span_id)
        | inr there ↦ rw (e, got, there) (sym (append-nil (kids m id)))
      ]
]

one_kid-append :
    (id : String) (n : SpanNode) (spans : List SpanNode)
    → one_kid id n n.parent_span_id ++ reporting id spans ≡ reporting id (n ∷ spans)
one_kid-append id n spans = elim (Bool-cases (is_parent id n.parent_span_id)) [
  | inl e ↦ rw e refl
  | inr e ↦ rw e refl
]

index_from-kids :
    (id : String) (m : Index) (spans : List SpanNode)
    → same id "" ≡ false
    → kids (index_from m spans) id ≡ kids m id ++ reporting id spans
unfolding index_from
index_from-kids id m [] h = sym (append-nil (kids m id))
index_from-kids id m (n ∷ spans) h =
    let pid = n.parent_span_id in
    index_from-kids id (add_child n pid m) spans h
    ∙ ap (λ front. front ++ reporting id spans) (kids-add_child id n pid m h)
    ∙ append_assoc (kids m id) (one_kid id n pid) (reporting id spans)
    ∙ ap (λ back. kids m id ++ back) (one_kid-append id n spans)

-- For an id that is not empty the map has the spans that report it as their parent, each as often as
-- it is there and in their order, and nothing for an id that no span reports.
pub build_children_by_span_id-reporting :
    (id : String) (spans : List SpanNode)
    → same id "" ≡ false
    → kids (build_children_by_span_id spans) id ≡ reporting id spans
unfolding build_children_by_span_id map_get
build_children_by_span_id-reporting id spans h = index_from-kids id [] spans h
