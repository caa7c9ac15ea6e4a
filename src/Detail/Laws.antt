-- ===== src/Detail/Laws.antt =====
-- components/shared/utils/debounced-detail-fetcher.svelte.ts: what the detail pane shows, and what
-- it waits for.
use otel_desktop_viewer.Prelude.{
  String, Bool, true, false, Bool-cases, Option-cases, List, [], ◌∷◌, ◌++◌, Option, none, some, ◌≡◌,
  ◌⊎◌, inl, inr, refl, sym, ap, ◌∙◌, arith,
}
use mathlib.Core.Path.{subst}
use otel_desktop_viewer.Detail.{
  Fetcher, initial, schedule, set_key, refetch, refresh, is_current, timer_fires, resolves, rejects,
  Step, selects, refreshes, fires, answers, fails, Reach, here, next,
}

module _ {K D : Type 0} (keys_equal : K → K → Bool) (Answer : K → D → Type 0)
    (fallback : String) where
  -- One of the requests is for a key equal to `k`.
  abbrev pub Awaits : K → List K → Type 0
  Awaits k [] = ⊥
  Awaits k (j ∷ js) = (keys_equal k j ≡ true) ⊎ Awaits k js

  -- What the state holds for the key that is selected.
  abbrev Fits : Option K → Fetcher K D → Type 0
  Fits none f = (f.shown ≡ none) × (f.loading ≡ false) × (f.error ≡ none) × (f.pending_timer ≡ none)
  Fits (some k) f =
      ((d : D)
        → f.loading ≡ false
        → f.shown ≡ some d
        → (j : K) × (keys_equal k j ≡ true) × Answer j d)
      × (f.loading ≡ true
          → ((j : K) × (f.pending_timer ≡ some j) × (keys_equal k j ≡ true)) ⊎ Awaits k f.in_flight)

  abbrev IsConsistent : Fetcher K D → Type 0
  IsConsistent f = Fits f.key f

  schedule-Fits :
      (keys_equal_refl : (k : K) → keys_equal k k ≡ true) (k : K) (f : Fetcher K D)
      → Fits (some k) (schedule k f)
  unfolding schedule
  schedule-Fits keys_equal_refl k f = (λ d l e. cc, λ l. inl (k, refl, keys_equal_refl k))

  Awaits-removed :
      (k j : K) (before after : List K)
      → keys_equal k j ≡ false
      → Awaits k (before ++ j ∷ after)
      → Awaits k (before ++ after)
  Awaits-removed k j [] after e (inl h) = ground arith
  Awaits-removed k j [] after e (inr h) = h
  Awaits-removed k j (x ∷ before) after e (inl h) = inl h
  Awaits-removed k j (x ∷ before) after e (inr h) = inr (Awaits-removed k j before after e h)

  current :
      (o : Option K) (k c : K) (b : Bool)
      → o ≡ some c
      → keys_equal c k ≡ b
      → is_current keys_equal o k ≡ b
  current o k c b e h = ap (λ p. is_current keys_equal p k) e ∙ h

  not_current : (o : Option K) (k : K) → o ≡ none → is_current keys_equal o k ≡ false
  not_current o k e = ap (λ p. is_current keys_equal p k) e

  -- The timer of a selected key becomes a request.
  fires-Fits :
      (o : Option K) (k : K) (f : Fetcher K D)
      → f.key ≡ o
      → f.pending_timer ≡ some k
      → Fits o f
      → Fits o (timer_fires keys_equal k f)
  unfolding timer_fires
  fires-Fits none k f e t (s, l, r, p) = rw (not_current f.key k e) (s, l, r, refl)
  fires-Fits (some c) k f e t (s, w) = elim (Bool-cases (keys_equal c k)) [
    | inl h ↦ rw (current f.key k c true e h) (s, λ l. inr (inl h))
    | inr h ↦ rw (current f.key k c false e h) (s, λ l. inr (still h (w l)))
  ]
    where
      still :
          keys_equal c k ≡ false
          → ((j : K) × (f.pending_timer ≡ some j) × (keys_equal c j ≡ true)) ⊎ Awaits c f.in_flight
          → Awaits c f.in_flight
      still h (inl (j, p, q)) = absurd (ground arith)
      still h (inr a) = a

  left_over :
      (c k : K) (before after : List K) (f : Fetcher K D)
      → f.in_flight ≡ before ++ k ∷ after
      → keys_equal c k ≡ false
      → ((j : K) × (f.pending_timer ≡ some j) × (keys_equal c j ≡ true)) ⊎ Awaits c f.in_flight
      → ((j : K) × (f.pending_timer ≡ some j) × (keys_equal c j ≡ true))
        ⊎ Awaits c (before ++ after)
  left_over c k before after f e h (inl p) = inl p
  left_over c k before after f e h (inr a) = inr (Awaits-removed c k before after h (rw e at a))

  answers-Fits :
      (o : Option K) (k : K) (d : D) (before after : List K) (f : Fetcher K D)
      → f.key ≡ o
      → f.in_flight ≡ before ++ k ∷ after
      → Answer k d
      → Fits o f
      → Fits o (resolves keys_equal k d (before ++ after) f)
  unfolding resolves
  answers-Fits none k d before after f e q a (s, l, r, p) = rw (not_current f.key k e) (s, l, r, p)
  answers-Fits (some c) k d before after f e q a (s, w) = elim (Bool-cases (keys_equal c k)) [
    | inl h ↦
        rw (current f.key k c true e h)
          (λ d' l' e'. (k, h, let same : d ≡ d' = cc in subst (Answer k) same a), λ l'. cc)
    | inr h ↦ rw (current f.key k c false e h) (s, λ l. left_over c k before after f q h (w l))
  ]

  fails-Fits :
      (o : Option K) (k : K) (m : Option String) (before after : List K) (f : Fetcher K D)
      → f.key ≡ o
      → f.in_flight ≡ before ++ k ∷ after
      → Fits o f
      → Fits o (rejects keys_equal fallback k m (before ++ after) f)
  unfolding rejects
  fails-Fits none k m before after f e q (s, l, r, p) = rw (not_current f.key k e) (s, l, r, p)
  fails-Fits (some c) k m before after f e q (s, w) = elim (Bool-cases (keys_equal c k)) [
    | inl h ↦ rw (current f.key k c true e h) (λ d' l' e'. cc, λ l'. cc)
    | inr h ↦ rw (current f.key k c false e h) (s, λ l. left_over c k before after f q h (w l))
  ]

  key-fires : (k : K) (f : Fetcher K D) → (timer_fires keys_equal k f).key ≡ f.key
  unfolding timer_fires
  key-fires k f = ground arith

  key-resolves :
      (k : K) (d : D) (others : List K) (f : Fetcher K D)
      → (resolves keys_equal k d others f).key ≡ f.key
  unfolding resolves
  key-resolves k d others f = ground arith

  key-rejects :
      (k : K) (m : Option String) (others : List K) (f : Fetcher K D)
      → (rejects keys_equal fallback k m others f).key ≡ f.key
  unfolding rejects
  key-rejects k m others f = ground arith

  module _ (keys_equal_refl : (k : K) → keys_equal k k ≡ true) where
    refresh-IsConsistent :
        (o : Option K) (f : Fetcher K D) → f.key ≡ o → IsConsistent f → IsConsistent (refetch o f)
    unfolding schedule
    refresh-IsConsistent none f e h = h
    refresh-IsConsistent (some c) f e h =
        subst (λ p. Fits p (schedule c f)) (sym e) (schedule-Fits keys_equal_refl c f)

    Step-IsConsistent :
        {f g : Fetcher K D} → Step keys_equal Answer fallback f g → IsConsistent f → IsConsistent g
    unfolding set_key refresh timer_fires resolves rejects
    Step-IsConsistent (selects none f) h = (refl, refl, refl, refl)
    Step-IsConsistent (selects (some k) f) h =
        schedule-Fits keys_equal_refl k (record f { key = some k })
    Step-IsConsistent (refreshes f) h = refresh-IsConsistent f.key f refl h
    Step-IsConsistent (fires k f e) h = rw (key-fires k f) (fires-Fits f.key k f refl e h)
    Step-IsConsistent (answers k d before after f e a) h =
        rw (key-resolves k d (before ++ after) f) (answers-Fits f.key k d before after f refl e a h)
    Step-IsConsistent (fails k m before after f e) h =
        rw (key-rejects k m (before ++ after) f) (fails-Fits f.key k m before after f refl e h)

    Reach-IsConsistent :
        {f g : Fetcher K D} → Reach keys_equal Answer fallback f g → IsConsistent f → IsConsistent g
    Reach-IsConsistent here h = h
    Reach-IsConsistent (next r s) h = Step-IsConsistent s (Reach-IsConsistent r h)

  -- Details that are there answer the key.
  abbrev pub Shows : K → Fetcher K D → Type 0
  Shows k f =
      (f.shown ≡ none)
      ⊎ ((d : D) × (f.shown ≡ some d) × ((j : K) × (keys_equal k j ≡ true) × Answer j d))

  -- A timer or a request for the key is there.
  abbrev pub Waits : K → Fetcher K D → Type 0
  Waits k f =
      ((j : K) × (f.pending_timer ≡ some j) × (keys_equal k j ≡ true)) ⊎ Awaits k f.in_flight

  abbrev pub SettledFor : Option K → Fetcher K D → Type 0
  SettledFor none f =
      (f.shown ≡ none) × (f.loading ≡ false) × (f.error ≡ none) × (f.pending_timer ≡ none)
  SettledFor (some k) f = ((f.loading ≡ true) × Waits k f) ⊎ ((f.loading ≡ false) × Shows k f)

  Fits-SettledFor : (o : Option K) (f : Fetcher K D) → Fits o f → SettledFor o f
  Fits-SettledFor none f h = h
  Fits-SettledFor (some k) f (s, w) = elim (Bool-cases f.loading) [
    | inl l ↦ inl (l, w l)
    | inr l ↦ inr (l, shows l (Option-cases f.shown))
  ]
    where
      shows : f.loading ≡ false → (f.shown ≡ none) ⊎ ((d : D) × (f.shown ≡ some d)) → Shows k f
      shows l (inl e) = inl e
      shows l (inr (d, e)) = inr (d, e, s d l e)

-- In every state that is reached from the first one, with any keys, answers and orders of events:
-- with no key nothing is shown, loading or scheduled; with a key, the pane is either loading, and has
-- a timer or a request for a key equal to it, or shows nothing or an answer to a key equal to it.
pub fetcher_consistent :
    {K D : Type 0} (keys_equal : K → K → Bool) (Answer : K → D → Type 0) (fallback : String)
    {f : Fetcher K D}
    → ((k : K) → keys_equal k k ≡ true)
    → Reach keys_equal Answer fallback initial f
    → SettledFor keys_equal Answer fallback f.key f
fetcher_consistent keys_equal Answer fallback {f} r reach =
    Fits-SettledFor keys_equal Answer fallback f.key f
      (Reach-IsConsistent keys_equal Answer fallback r reach (refl, refl, refl, refl))
