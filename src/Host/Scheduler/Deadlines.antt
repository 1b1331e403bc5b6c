-- ===== src/Host/Scheduler/Deadlines.antt =====
-- When the caller's loop has to wake: `next_deadline` and `fire` of watch/scheduler.rs.
use herdr_mobile.Base.{
  Bool, List, Option, [], ap, arith, false, leb, none, refl, secs, some, ℕ, ◌+◌, ◌<◌, ◌||◌, ◌↔◌,
  ◌∙◌, ◌∷◌, ◌≡◌,
}
use herdr_mobile.Host.Scheduler.{
  PaneScheduler, first, min_some, is_due, unwrap_or, retain_after, rearm, issue, fire,
  next_deadline, pop_old,
}

is_due-min_some :
    (now due : ℕ) (other : Option ℕ)
    → leb (min_some due other) now ≡ (leb due now || is_due now other)
is_due-min_some now due none = ground arith
is_due-min_some now due (some d) = ground arith

is_due-next_deadline :
    (s : PaneScheduler) (now : ℕ)
    → is_due now (next_deadline s)
      ≡ ((leb s.next_poll now || is_due now s.pending_due) || is_due now (first s.input_due))
unfolding next_deadline
is_due-next_deadline s now =
    is_due-min_some now (min_some s.next_poll s.pending_due) (first s.input_due)
    ∙ ap (λ b. b || is_due now (first s.input_due)) (is_due-min_some now s.next_poll s.pending_due)

-- `fire` does nothing exactly while the deadline that `next_deadline` names is still ahead.
pub fire-none_iff :
    (s : PaneScheduler) (now : ℕ) → ((fire s now).1 ≡ none) ↔ (is_due now (next_deadline s) ≡ false)
unfolding fire
fire-none_iff s now = rw (is_due-next_deadline s now) (λ h. ground arith, λ h. ground arith)

first-retain_after : (now : ℕ) (dues : List ℕ) → is_due now (first (retain_after now dues)) ≡ false
unfolding retain_after
first-retain_after now [] = refl
first-retain_after now (due ∷ dues) = ground (arith, first-retain_after now dues)

-- The history after a read of a second ago and older has left it.
first-pop_old : (now : ℕ) (ts : List ℕ) → now < unwrap_or (first (pop_old now ts)) now + secs 1
unfolding pop_old
first-pop_old now [] = omega arith
first-pop_old now (t ∷ ts) = ground (arith, first-pop_old now ts)

module _ (s : PaneScheduler) (now : ℕ) where
  next_poll-issue : (due : Bool) → (issue s due now).0.next_poll ≡ s.next_poll
  unfolding issue
  next_poll-issue due = ground arith

  input_due-issue : (due : Bool) → (issue s due now).0.input_due ≡ s.input_due
  unfolding issue
  input_due-issue due = ground arith

  pending_due-issue :
      now < unwrap_or (first s.read_history) now + secs 1
      → is_due now (issue s (is_due now s.pending_due) now).0.pending_due ≡ false
  unfolding issue
  pending_due-issue h = ground arith

  input_due-rearm : is_due now (first (rearm s now).input_due) ≡ false
  unfolding rearm
  input_due-rearm = ground (arith, first-retain_after now s.input_due)

  next_poll-rearm : 0 < s.poll → leb (rearm s now).next_poll now ≡ false
  unfolding rearm
  next_poll-rearm h = ground arith

  pub first-rearm : now < unwrap_or (first (rearm s now).read_history) now + secs 1
  unfolding rearm
  first-rearm = first-pop_old now s.read_history

  pub pending_due-rearm : (rearm s now).pending_due ≡ s.pending_due
  unfolding rearm
  pending_due-rearm = refl

-- The loop does not spin: with a poll period above zero, no timer is due any more at the instant
-- of a `fire`, also when the cap has refused the read.
pub next_deadline-fire :
    (s : PaneScheduler) (now : ℕ) → 0 < s.poll → is_due now (next_deadline (fire s now).0) ≡ false
unfolding fire
next_deadline-fire s now h =
    let due = is_due now s.pending_due in
    let s' = rearm s now in
    rw (is_due-next_deadline (fire s now).0 now) (
      ground (
        arith,
        next_poll-issue s' now due,
        input_due-issue s' now due,
        pending_due-issue s' now (first-rearm s now),
        pending_due-rearm s now,
        input_due-rearm s now,
        next_poll-rearm s now h,
      ))
