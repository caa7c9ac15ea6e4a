-- ===== src/Detail.antt =====
-- components/shared/utils/debounced-detail-fetcher.svelte.ts: the selection, the debounce timer and
-- the requests that are under way. A key set by the caller is followed at once by the effect that
-- watches it; setting the key that is there already runs no effect and is no step.
pub mod Laws
use otel_desktop_viewer.Prelude.{
  ℕ, String, Bool, true, false, if◌then◌else◌, List, [], ◌∷◌, ◌++◌, Option, none, some, ◌≡◌,
}

-- `pending_timer` is the key that the timer's fetch is for; `in_flight` are the keys of the requests
-- that have not settled.
pub record Fetcher (K : Type 0) (D : Type 0) : Type 0 where
  pub key : Option K
  pub shown : Option D
  pub loading : Bool
  pub error : Option String
  pub pending_timer : Option K
  pub in_flight : List K

abbrev pub initial : {K D : Type 0} → Fetcher K D
initial = record {
  key = none;
  shown = none;
  loading = false;
  error = none;
  pending_timer = none;
  in_flight = [];
}

module _ {K D : Type 0} where
  -- `schedule`, which drops the timer that is there.
  unfoldable pub schedule : K → Fetcher K D → Fetcher K D
  schedule for_key f = record f { loading = true; error = none; pending_timer = some for_key }

  unfoldable pub clear : Fetcher K D → Fetcher K D
  clear f = record f { pending_timer = none; shown = none; loading = false; error = none }

  -- The setter of `key`, and the effect.
  unfoldable pub set_key : Option K → Fetcher K D → Fetcher K D
  unfolding clear schedule
  set_key none f = clear (record f { key = none })
  set_key (some k) f = schedule k (record f { key = some k })

  abbrev pub refetch : Option K → Fetcher K D → Fetcher K D
  refetch none f = f
  refetch (some current) f = schedule current f

  unfoldable pub refresh : Fetcher K D → Fetcher K D
  unfolding schedule
  refresh f = refetch f.key f

-- `key === null || !opts.keysEqual(key, forKey)`, negated
abbrev pub is_current : {K : Type 0} → (K → K → Bool) → Option K → K → Bool
is_current keys_equal none for_key = false
is_current keys_equal (some k) for_key = keys_equal k for_key

module _ {K D : Type 0} (keys_equal : K → K → Bool) where
  -- The timer's callback, for the key that it holds.
  unfoldable pub timer_fires : K → Fetcher K D → Fetcher K D
  timer_fires for_key f =
      if is_current keys_equal f.key for_key
      then record f { pending_timer = none; in_flight = for_key ∷ f.in_flight }
      else record f { pending_timer = none }

  -- The request for `for_key` resolves; `others` are the requests that stay under way.
  unfoldable pub resolves : K → D → List K → Fetcher K D → Fetcher K D
  resolves for_key result others f =
      if is_current keys_equal f.key for_key
      then record f { shown = some result; loading = false; in_flight = others }
      else record f { in_flight = others }

  -- The request rejects, with the message of an `Error` or with none.
  unfoldable pub rejects : String → K → Option String → List K → Fetcher K D → Fetcher K D
  rejects fallback for_key message others f =
      if is_current keys_equal f.key for_key
      then record f {
        error = some (elim message [ none ↦ fallback | some m ↦ m ]);
        shown = none;
        loading = false;
        in_flight = others;
      }
      else record f { in_flight = others }

  -- The caller, the clock and the requests in any order. `Answer k d` says that `d` is an answer to
  -- the request for `k`.
  pub data Step (Answer : K → D → Type 0) (fallback : String)
      : Fetcher K D → Fetcher K D → Type 0 where
    selects : (k : Option K) (f : Fetcher K D) → Step Answer fallback f (set_key k f)
    refreshes : (f : Fetcher K D) → Step Answer fallback f (refresh f)
    fires :
        (k : K) (f : Fetcher K D)
        → f.pending_timer ≡ some k
        → Step Answer fallback f (timer_fires k f)
    answers :
        (k : K) (d : D) (before after : List K) (f : Fetcher K D)
        → f.in_flight ≡ before ++ k ∷ after
        → Answer k d
        → Step Answer fallback f (resolves k d (before ++ after) f)
    fails :
        (k : K) (message : Option String) (before after : List K) (f : Fetcher K D)
        → f.in_flight ≡ before ++ k ∷ after
        → Step Answer fallback f (rejects fallback k message (before ++ after) f)

  pub data Reach (Answer : K → D → Type 0) (fallback : String) (f : Fetcher K D)
      : Fetcher K D → Type 0 where
    here : Reach Answer fallback f f
    next :
        {g h : Fetcher K D}
        → Reach Answer fallback f g
        → Step Answer fallback g h
        → Reach Answer fallback f h
