-- ===== src/ListPage/Races/Loading.antt =====
-- What a list page (contexts/signal-list-page.svelte.ts) that is loading waits for.
use otel_desktop_viewer.Prelude.{
  ℕ, ◌≤◌, ◌<◌, ◌≡◌, ◌≢◌, ◌⊎◌, inl, inr, refl, String, Bool, true, false, Bool-cases, List, [], ◌∷◌,
  ◌++◌, Option, none, some, arith,
}
use otel_desktop_viewer.ListPage.Sequence.{
  SignalName, Latest, latest_seq, begin_list_update, is_latest_list_update,
}
use otel_desktop_viewer.ListPage.Page.{
  same_signal_refl, Page, FetchResult, fetched, rejected, start_list_fetch, finish_list_fetch,
  handle_search_results,
}
use otel_desktop_viewer.ListPage.Races.{
  World, start_search, now, Step, fetch_starts, search_starts, fetch_settles, search_answers,
  search_fails, Reach, here, next,
}
use otel_desktop_viewer.ListPage.Races.Numbers.{now-start, number-start}

-- `n` is one of the numbers.
abbrev pub Has : ℕ → List ℕ → Type 0
Has n [] = ⊥
Has n (x ∷ xs) = (x ≡ n) ⊎ Has n xs

Has-removed :
    (n : ℕ) (before after : List ℕ) (seq : ℕ)
    → seq ≢ n
    → Has n (before ++ seq ∷ after)
    → Has n (before ++ after)
Has-removed n [] after seq ne (inl e) = absurd (ne e)
Has-removed n [] after seq ne (inr h) = h
Has-removed n (x ∷ before) after seq ne (inl e) = inl e
Has-removed n (x ∷ before) after seq ne (inr h) = inr (Has-removed n before after seq ne h)

not_latest-ne :
    (m : Latest) (signal : SignalName) (seq : ℕ)
    → is_latest_list_update m signal seq ≡ false
    → seq ≢ latest_seq m signal
unfolding is_latest_list_update
not_latest-ne m signal seq h = ground arith

left_over :
    (n : ℕ) (before after : List ℕ) (seq : ℕ) (others : List ℕ)
    → seq ≢ n
    → Has n (before ++ seq ∷ after) ⊎ Has n others
    → Has n (before ++ after) ⊎ Has n others
left_over n before after seq others ne (inl h) = inl (Has-removed n before after seq ne h)
left_over n before after seq others ne (inr h) = inr h

swap {ℓ κ} : {P : Type ℓ} {Q : Type κ} → P ⊎ Q → Q ⊎ P
swap (inl p) = inr p
swap (inr q) = inl q

module _ {A : Type 0} (signal : SignalName) where
  -- While a list is loading, the answer to the latest update is still to come.
  abbrev Waits : World A → Type 0
  Waits w =
      w.page.loading ≡ true → Has (now signal w.page) w.fetches ⊎ Has (now signal w.page) w.searches

  abbrev pub is_failure : {u v : World A} → Step signal u v → Bool
  is_failure (search_fails w before after seq e) = true
  is_failure (fetch_starts w) = false
  is_failure (search_starts w) = false
  is_failure (fetch_settles w before after seq result refresh e) = false
  is_failure (search_answers w before after seq results e) = false

  -- An answer that leaves the list loading is not the latest's, and is dropped.
  finish-loading :
      (seq : ℕ) (result : FetchResult A) (refresh : Option (Bool × String)) (p : Page A)
      → (finish_list_fetch signal seq result refresh p).loading ≡ true
      → is_latest_list_update p.latest signal seq ≡ false
  unfolding finish_list_fetch
  finish-loading seq (fetched xs) none p l = ground arith
  finish-loading seq (fetched xs) (some (a, b)) p l = ground arith
  finish-loading seq (rejected m) refresh p l = ground arith

  finish-dropped :
      (seq : ℕ) (result : FetchResult A) (refresh : Option (Bool × String)) (p : Page A)
      → is_latest_list_update p.latest signal seq ≡ false
      → finish_list_fetch signal seq result refresh p ≡ p
  unfolding finish_list_fetch
  finish-dropped seq result refresh p h = rw h refl

  search-loading :
      (seq : ℕ) (results : List A) (p : Page A)
      → (handle_search_results signal signal results seq p).loading ≡ true
      → is_latest_list_update p.latest signal seq ≡ false
  unfolding handle_search_results
  search-loading seq results p l = elim (Bool-cases (is_latest_list_update p.latest signal seq)) [
    | inr old ↦ old
    | inl new ↦ cc (rw (same_signal_refl signal, new) at l)
  ]

  search-dropped :
      (seq : ℕ) (results : List A) (p : Page A)
      → is_latest_list_update p.latest signal seq ≡ false
      → handle_search_results signal signal results seq p ≡ p
  unfolding handle_search_results
  search-dropped seq results p h = ground arith

  Step-Waits : {u v : World A} (s : Step signal u v) → is_failure s ≡ false → Waits u → Waits v
  unfolding start_list_fetch
  Step-Waits (fetch_starts w) f j l =
      inl (inl (omega (arith, now-start w.page.latest signal, number-start w.page.latest signal)))
  Step-Waits (search_starts w) f j l =
      inr (inl (omega (arith, now-start w.page.latest signal, number-start w.page.latest signal)))
  Step-Waits (fetch_settles w before after seq result refresh e) f j l =
      let old = finish-loading seq result refresh w.page l in
      let same = finish-dropped seq result refresh w.page old in
      rw same (
        left_over (now signal w.page) before after seq w.searches
          (not_latest-ne w.page.latest signal seq old) (rw e at (j (rw same at l))))
  Step-Waits (search_answers w before after seq results e) f j l =
      let old = search-loading seq results w.page l in
      let same = search-dropped seq results w.page old in
      rw same (
        swap (
          left_over (now signal w.page) before after seq w.fetches
            (not_latest-ne w.page.latest signal seq old) (rw e at (swap (j (rw same at l))))))
  Step-Waits (search_fails w before after seq e) f j l = cc

  -- What a run of steps with no failed search keeps.
  pub data Clean (w : World A) : World A → Type 0 where
    stay : Clean w w
    then_step :
        {u v : World A} → Clean w u → (s : Step signal u v) → is_failure s ≡ false → Clean w v

  Clean-Waits : {w u : World A} → Clean w u → Waits w → Waits u
  Clean-Waits stay j = j
  Clean-Waits (then_step c s f) j = Step-Waits s f (Clean-Waits c j)

  older-dropped :
      (seq : ℕ) (result : FetchResult A) (refresh : Option (Bool × String)) (p : Page A)
      → seq ≤ now signal p
      → finish_list_fetch signal seq result refresh (start_search signal p) ≡ start_search signal p
  older-dropped seq result refresh p h =
      finish-dropped seq result refresh (start_search signal p)
        (older (begin_list_update p.latest signal).0 seq (omega (arith, now-start p.latest signal)))
    where
      older :
          (m : Latest) (k : ℕ) → k < latest_seq m signal → is_latest_list_update m signal k ≡ false
      older m k lt = unfold is_latest_list_update in ground arith

module _ {A : Type 0} (signal : SignalName) where
  -- The list is not loading, or the answer to the latest update is still to come.
  abbrev pub IsJustified : World A → Type 0
  IsJustified w =
      (w.page.loading ≡ false)
      ⊎ (Has (now signal w.page) w.fetches ⊎ Has (now signal w.page) w.searches)

  IsJustified-Waits : (w : World A) → IsJustified w → Waits signal w
  IsJustified-Waits w (inl e) l = cc
  IsJustified-Waits w (inr h) l = h

-- From a state that is not loading, or in which the answer to the latest update is under way: as long
-- as no search fails or answers an editor that has left, a list that is loading waits for that answer,
-- which is under way.
pub loading_is_answered :
    {A : Type 0} (signal : SignalName) {w u : World A}
    → IsJustified signal w
    → Clean signal w u
    → u.page.loading ≡ true
    → Has (now signal u.page) u.fetches ⊎ Has (now signal u.page) u.searches
loading_is_answered signal {w} j c l = Clean-Waits signal c (IsJustified-Waits signal w j) l

-- Where one fetch is under way, a search that is submitted and fails leaves the list loading with
-- nothing under way, however the fetch settles.
pub failed_search_strands :
    {A : Type 0} (signal : SignalName) (w : World A) (seq : ℕ) (result : FetchResult A)
    (refresh : Option (Bool × String))
    → w.page.loading ≡ true
    → w.fetches ≡ seq ∷ []
    → w.searches ≡ []
    → seq ≤ now signal w.page
    → (u : World A) × Reach signal w u
      × (u.page.loading ≡ true)
      × (u.fetches ≡ [])
      × (u.searches ≡ [])
failed_search_strands {A} signal w seq result refresh l e none_searching h = (
  record failed { page = finish_list_fetch signal seq result refresh failed.page; fetches = [] },
  next (next (next here (search_starts w)) (search_fails started [] w.searches _ refl))
      (fetch_settles failed [] [] seq result refresh e),
  rw (older-dropped signal seq result refresh w.page h) l,
  refl,
  none_searching,
)
  where
    started : World A
    started = record w {
      page = start_search signal w.page;
      searches = (begin_list_update w.page.latest signal).1 ∷ w.searches;
    }

    failed : World A
    failed = record started { searches = w.searches }
