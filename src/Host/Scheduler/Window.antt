-- ===== src/Host/Scheduler/Window.antt =====
-- The coalescing window of watch/scheduler.rs: reads for a revision are a window apart, and a
-- revision that waits is not lost.
use herdr_mobile.Base.{
  Bool, List, Option, Option-cases, [], arith, inl, inr, is_some, none, refl, secs, some, subst,
  sym, true, ℕ, ◌+◌, ◌<◌, ◌∙◌, ◌∷◌, ◌≡◌, ◌≢◌, ◌≤◌, ◌⊎◌,
}
use herdr_mobile.Host.Scheduler.{
  PaneScheduler, FireOutcome, read, poll_read, rate_limited, Event, input_sent, revision_changed,
  fired, first, is_due, unwrap_or, rearm, issue, fire, new, step, on_revision_changed,
  on_input_sent, outcome_at, time,
}
use herdr_mobile.Host.Scheduler.Deadlines.{first-rearm, pending_due-rearm}

-- The time of a read that a revision has triggered.
abbrev pub read_time : Option (ℕ × FireOutcome) → List ℕ → List ℕ
read_time (some (now, read)) rest = now ∷ rest
read_time _ rest = rest

unfoldable pub revision_reads : PaneScheduler → List Event → List ℕ
revision_reads s [] = []
revision_reads s (e ∷ es) = let (s', o) = step s e in read_time o (revision_reads s' es)

-- Each time is at or after `from`, and the next one is `window` later.
abbrev pub Spaced : ℕ → ℕ → List ℕ → Type 0
Spaced window from [] = Unit
Spaced window from (t ∷ ts) = (from ≤ t) × Spaced window (t + window) ts

-- A revision waits for the open window to close.
abbrev Waits : PaneScheduler → Type 0
Waits s = (d : ℕ) → s.pending_due ≡ some d → unwrap_or s.window_open_until 0 ≤ d

module _ (s : PaneScheduler) (now : ℕ) where
  Waits-on_revision_changed : Waits s → Waits (on_revision_changed s now)
  unfolding on_revision_changed
  Waits-on_revision_changed w d h = ground (arith, w d)

  window-issue : (due : Bool) → (issue s due now).0.window ≡ s.window
  unfolding issue
  window-issue due = ground arith

  -- What a read by `issue` does to the revision's timers.
  issue_revision :
      (due : Bool)
      → now < unwrap_or (first s.read_history) now + secs 1
      → (((issue s due now).1 ≡ read)
          × (due ≡ true)
          × ((issue s due now).0.pending_due ≡ none)
          × ((issue s due now).0.window_open_until ≡ some (now + s.window)))
        ⊎ (((issue s due now).1 ≢ read)
            × ((issue s due now).0.window_open_until ≡ s.window_open_until)
            × (((issue s due now).0.pending_due ≡ s.pending_due)
                ⊎ ((due ≡ true)
                    × ((d : ℕ) × ((issue s due now).0.pending_due ≡ some d) × (now < d)))))
  unfolding issue
  issue_revision due h = ground arith

module _ (s : PaneScheduler) (now : ℕ) where
  window-rearm : (rearm s now).window ≡ s.window
  unfolding rearm
  window-rearm = refl

  open_until-rearm : (rearm s now).window_open_until ≡ s.window_open_until
  unfolding rearm
  open_until-rearm = refl

  window-fire : (fire s now).0.window ≡ s.window
  unfolding fire
  window-fire =
      ground (arith, window-issue (rearm s now) now (is_due now s.pending_due), window-rearm)

  -- What `fire` does to the revision's timers.
  fire_revision :
      (((fire s now).1 ≡ some read)
        × (is_due now s.pending_due ≡ true)
        × ((fire s now).0.pending_due ≡ none)
        × ((fire s now).0.window_open_until ≡ some (now + s.window)))
      ⊎ (((fire s now).1 ≢ some read)
          × ((fire s now).0.window_open_until ≡ s.window_open_until)
          × (((fire s now).0.pending_due ≡ s.pending_due)
              ⊎ ((is_due now s.pending_due ≡ true)
                  × ((d : ℕ) × ((fire s now).0.pending_due ≡ some d) × (now < d)))))
  unfolding fire
  fire_revision =
      let due = is_due now s.pending_due in
      ground (
        arith,
        issue_revision (rearm s now) now due (first-rearm s now),
        window-rearm,
        open_until-rearm,
        pending_due-rearm s now,
      )

  open_until-le : Waits s → is_due now s.pending_due ≡ true → unwrap_or s.window_open_until 0 ≤ now
  open_until-le w h = elim (Option-cases s.pending_due) [
    | inl e ↦ absurd (not_due e)
    | inr (d, e) ↦ ground (arith, e, w d e)
  ]
    where
      not_due : s.pending_due ≡ none → ⊥
      not_due e = ground (arith, e)

  Waits-fire : Waits s → Waits (fire s now).0
  Waits-fire w d h = elim fire_revision [
    | inl (answer, due, cleared, open') ↦ ground (arith, cleared, h)
    | inr (answer, same, inl kept) ↦ rw same (w d (sym kept ∙ h))
    | inr (answer, same, inr (due, (d', armed, later))) ↦
        rw same (ground (arith, open_until-le w due, armed, h))
  ]

  Spaced-fire :
      (ts : List ℕ)
      → Waits s
      → Spaced (fire s now).0.window (unwrap_or (fire s now).0.window_open_until 0) ts
      → Spaced s.window
          (unwrap_or s.window_open_until 0)
          (read_time (outcome_at now (fire s now).1) ts)
  Spaced-fire ts w h = elim fire_revision [
    | inl (answer, due, cleared, open') ↦ rw answer (
      open_until-le w due,
      subst (λ k. Spaced s.window (unwrap_or k 0) ts) open'
          (subst (λ k. Spaced k (unwrap_or (fire s now).0.window_open_until 0) ts) window-fire h),
    )
    | inr (answer, same, rest) ↦ rw (not_read (fire s now).1 answer) (
        subst (λ k. Spaced s.window (unwrap_or k 0) ts) same
          (subst (λ k. Spaced k (unwrap_or (fire s now).0.window_open_until 0) ts) window-fire h))
  ]
    where
      not_read : (o : Option FireOutcome) → o ≢ some read → read_time (outcome_at now o) ts ≡ ts
      not_read none h = refl
      not_read (some read) h = absurd (h refl)
      not_read (some poll_read) h = refl
      not_read (some rate_limited) h = refl

open_until-on_revision_changed :
    (s : PaneScheduler) (now : ℕ)
    → ((on_revision_changed s now).window_open_until ≡ s.window_open_until)
      × ((on_revision_changed s now).window ≡ s.window)
unfolding on_revision_changed
open_until-on_revision_changed s now = ground arith

revision_reads-Spaced_from :
    (s : PaneScheduler) (events : List Event)
    → Waits s
    → Spaced s.window (unwrap_or s.window_open_until 0) (revision_reads s events)
unfolding revision_reads step on_input_sent
revision_reads-Spaced_from s [] w = tt
revision_reads-Spaced_from s (input_sent now ∷ es) w =
    revision_reads-Spaced_from (on_input_sent s now) es w
revision_reads-Spaced_from s (revision_changed now ∷ es) w =
    let s' = on_revision_changed s now in
    let (same, kept) = open_until-on_revision_changed s now in
    subst (λ k. Spaced s.window (unwrap_or k 0) (revision_reads s' es)) same
      (subst (λ k. Spaced k (unwrap_or s'.window_open_until 0) (revision_reads s' es)) kept
        (revision_reads-Spaced_from s' es (Waits-on_revision_changed s now w)))
revision_reads-Spaced_from s (fired now ∷ es) w =
    Spaced-fire s now (revision_reads (fire s now).0 es) w
      (revision_reads-Spaced_from (fire s now).0 es (Waits-fire s now w))

-- Whatever is called on a new scheduler and at whatever times, two reads that revisions have
-- triggered are at least the coalescing window apart.
pub revision_reads-Spaced :
    (window poll : ℕ) (offsets : List ℕ) (max_per_sec start : ℕ) (events : List Event)
    → Spaced window 0 (revision_reads (new window poll offsets max_per_sec start) events)
unfolding new
revision_reads-Spaced window poll offsets max_per_sec start events =
    revision_reads-Spaced_from (new window poll offsets max_per_sec start) events
      (λ d h. ground arith)

-- A revision that is waiting is not lost: after any call it still waits, unless the call was the
-- `fire` that answered with its read.
pub step-pending_due :
    (s : PaneScheduler) (e : Event)
    → is_some s.pending_due ≡ true
    → (is_some (step s e).0.pending_due ≡ true)
      ⊎ (((step s e).1 ≡ some (time e, read)) × ((step s e).0.pending_due ≡ none))
unfolding step on_input_sent on_revision_changed
step-pending_due s (input_sent now) h = inl h
step-pending_due s (revision_changed now) h = inl (rw h h)
step-pending_due s (fired now) h = elim (fire_revision s now) [
  | inl (answer, due, cleared, open') ↦ inr (rw answer refl, cleared)
  | inr (answer, same, inl kept) ↦ inl (rw kept h)
  | inr (answer, same, inr (due, (d, armed, later))) ↦ inl (rw armed refl)
]
