-- ===== src/ListPage/Sequence.antt =====
-- components/shared/utils/list-update-seq.ts
use otel_desktop_viewer.Prelude.{ℕ, ◌+◌, ◌≤◌, ◌≡◌, ◌≢◌, refl, ◌==◌, Bool, true, false, arith}

pub data SignalName : Type 0 where
  traces metrics logs : SignalName

-- `latestListUpdateSeq`, 0 for a signal that is not there.
pub record Latest : Type 0 where
  pub of_traces : ℕ
  pub of_metrics : ℕ
  pub of_logs : ℕ

unfoldable pub latest_seq : Latest → SignalName → ℕ
latest_seq m traces = m.of_traces
latest_seq m metrics = m.of_metrics
latest_seq m logs = m.of_logs

unfoldable pub set_latest : Latest → SignalName → ℕ → Latest
set_latest m traces n = record m { of_traces = n }
set_latest m metrics n = record m { of_metrics = n }
set_latest m logs n = record m { of_logs = n }

-- The new state, and the number of this update.
unfoldable pub begin_list_update : Latest → SignalName → Latest × ℕ
unfolding latest_seq set_latest
begin_list_update m signal = let next = latest_seq m signal + 1 in (set_latest m signal next, next)

unfoldable pub is_latest_list_update : Latest → SignalName → ℕ → Bool
unfolding latest_seq
is_latest_list_update m signal seq = seq == latest_seq m signal

unfoldable pub cancel_pending_list_updates : Latest → SignalName → Latest
unfolding begin_list_update
cancel_pending_list_updates m signal = (begin_list_update m signal).0

-- A new update of a signal is the latest, and no update with a number given out before is.
pub begin_list_update-is_latest :
    (m : Latest) (signal : SignalName) (old : ℕ)
    → old ≤ latest_seq m signal
    → let (m', seq) = begin_list_update m signal in
      (is_latest_list_update m' signal seq ≡ true) × (is_latest_list_update m' signal old ≡ false)
unfolding begin_list_update is_latest_list_update
begin_list_update-is_latest m traces old h = ground arith
begin_list_update-is_latest m metrics old h = ground arith
begin_list_update-is_latest m logs old h = ground arith

-- The updates of one signal do not touch those of another.
pub begin_list_update-other :
    (m : Latest) (signal other : SignalName) (seq : ℕ)
    → signal ≢ other
    → is_latest_list_update (begin_list_update m signal).0 other seq
      ≡ is_latest_list_update m other seq
unfolding begin_list_update is_latest_list_update
begin_list_update-other m traces metrics seq h = refl
begin_list_update-other m traces logs seq h = refl
begin_list_update-other m metrics traces seq h = refl
begin_list_update-other m metrics logs seq h = refl
begin_list_update-other m logs traces seq h = refl
begin_list_update-other m logs metrics seq h = refl
begin_list_update-other m traces traces seq h = absurd (h refl)
begin_list_update-other m metrics metrics seq h = absurd (h refl)
begin_list_update-other m logs logs seq h = absurd (h refl)
