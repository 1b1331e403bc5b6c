-- ===== src/Host/Scheduler.antt =====
-- The read scheduler of one pane: crates/herdr-relay/src/watch/scheduler.rs. The clock's reading
-- is an argument of each call.
use herdr_mobile.Base.{
  Bool, List, Option, [], if◌then◌else◌, is_some, is_some_and, leb, length, ltb, map, max, min,
  none, not, secs, some, ℕ, ◌%◌, ◌&&◌, ◌++◌, ◌+◌, ◌-◌, ◌^◌, ◌∷◌,
}
pub mod Deadlines
pub mod Window
pub mod Rate
pub mod Retry

pub record PaneScheduler : Type 0 where
  pub window : ℕ
  pub poll : ℕ
  pub input_offsets : List ℕ
  pub max_per_sec : ℕ
  pub pending_due : Option ℕ
  pub window_open_until : Option ℕ
  pub next_poll : ℕ
  pub input_due : List ℕ
  pub read_history : List ℕ

pub data FireOutcome : Type 0 where
  read poll_read rate_limited : FireOutcome

abbrev insert_sorted : ℕ → List ℕ → List ℕ
insert_sorted x [] = x ∷ []
insert_sorted x (y ∷ ys) = let rest = insert_sorted x ys in if leb x y then x ∷ y ∷ ys else y ∷ rest

-- `sort_unstable`, on numbers.
abbrev pub sort_unstable : List ℕ → List ℕ
sort_unstable [] = []
sort_unstable (x ∷ xs) = insert_sorted x (sort_unstable xs)

unfoldable pub new : ℕ → ℕ → List ℕ → ℕ → ℕ → PaneScheduler
new window poll input_offsets max_per_sec now = record {
  window = window;
  poll = poll;
  input_offsets = sort_unstable input_offsets;
  max_per_sec = max_per_sec;
  pending_due = none;
  window_open_until = none;
  next_poll = now + poll;
  input_due = [];
  read_history = [];
}

unfoldable pub on_input_sent : PaneScheduler → ℕ → PaneScheduler
on_input_sent s now = record s { input_due = map (λ offset. now + offset) s.input_offsets }

abbrev pub open_until_or : Option ℕ → ℕ → ℕ
open_until_or none now = now
open_until_or (some until) now = max until now

unfoldable pub on_revision_changed : PaneScheduler → ℕ → PaneScheduler
on_revision_changed s now =
    if is_some s.pending_due
    then s
    else record s { pending_due = some (open_until_or s.window_open_until now) }

abbrev pub first : List ℕ → Option ℕ
first [] = none
first (x ∷ xs) = some x

abbrev pub min_some : ℕ → Option ℕ → ℕ
min_some due none = due
min_some due (some other) = min due other

unfoldable pub next_deadline : PaneScheduler → Option ℕ
next_deadline s = some (min_some (min_some s.next_poll s.pending_due) (first s.input_due))

-- The `while` loop that pops the reads of a second ago and older.
unfoldable pub pop_old : ℕ → List ℕ → List ℕ
pop_old now [] = []
pop_old now (t ∷ ts) = let rest = pop_old now ts in if leb (secs 1) (now - t) then rest else t ∷ ts

unfoldable pub retain_after : ℕ → List ℕ → List ℕ
retain_after now [] = []
retain_after now (due ∷ dues) =
    let rest = retain_after now dues in if ltb now due then due ∷ rest else rest

abbrev pub unwrap_or : Option ℕ → ℕ → ℕ
unwrap_or none d = d
unwrap_or (some x) d = x

abbrev pub is_due : ℕ → Option ℕ → Bool
is_due now due = is_some_and due (λ d. leb d now)

-- The timers that a read serves are armed again, and old reads leave the history.
unfoldable pub rearm : PaneScheduler → ℕ → PaneScheduler
unfolding pop_old retain_after
rearm s now = record s {
  next_poll = if leb s.next_poll now then now + s.poll else s.next_poll;
  input_due = if is_due now (first s.input_due) then retain_after now s.input_due else s.input_due;
  read_history = pop_old now s.read_history;
}

-- The cap, then the read. `as u32` wraps.
unfoldable pub issue : PaneScheduler → Bool → ℕ → PaneScheduler × FireOutcome
issue s revision_due now =
    if leb s.max_per_sec (length s.read_history % 2 ^ 32)
    then (
      (if revision_due
          then record s { pending_due = some (unwrap_or (first s.read_history) now + secs 1) }
          else s),
      rate_limited,
    )
    else if revision_due
    then (
      record s {
        pending_due = none;
        window_open_until = some (now + s.window);
        read_history = s.read_history ++ now ∷ [];
      },
      read,
    )
    else (record s { read_history = s.read_history ++ now ∷ [] }, poll_read)

unfoldable pub fire : PaneScheduler → ℕ → PaneScheduler × Option FireOutcome
unfolding rearm issue
fire s now =
    let revision_due = is_due now s.pending_due in
    let poll_due = leb s.next_poll now in
    let input_due = is_due now (first s.input_due) in
    if not revision_due && not poll_due && not input_due
    then (s, none)
    else (let (s', outcome) = issue (rearm s now) revision_due now in (s', some outcome))

-- A call of one of the three operations, with its clock reading.
pub data Event : Type 0 where
  input_sent revision_changed fired : ℕ → Event

abbrev pub time : Event → ℕ
time (input_sent now) = now
time (revision_changed now) = now
time (fired now) = now

abbrev pub outcome_at : ℕ → Option FireOutcome → Option (ℕ × FireOutcome)
outcome_at now none = none
outcome_at now (some o) = some (now, o)

-- The state after a call, and the time and outcome of a `fire` that had a timer due.
unfoldable pub step : PaneScheduler → Event → PaneScheduler × Option (ℕ × FireOutcome)
unfolding on_input_sent on_revision_changed fire
step s (input_sent now) = (on_input_sent s now, none)
step s (revision_changed now) = (on_revision_changed s now, none)
step s (fired now) = let (s', o) = fire s now in (s', outcome_at now o)
