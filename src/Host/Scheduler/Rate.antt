-- ===== src/Host/Scheduler/Rate.antt =====
-- The read-rate cap of watch/scheduler.rs against a count of the reads that it issued.
use herdr_mobile.Base.{
  Bool, List, Option, [], arith, false, if◌then◌else◌, inl, inr, length, length-append, none, refl,
  some, subst, true, ℕ, ◌%◌, ◌&&◌, ◌++◌, ◌+◌, ◌<◌, ◌^◌, ◌∷◌, ◌≡◌, ◌≤◌, ◌⊎◌,
}
use herdr_mobile.Base.Windows.{within, count_within, count_within-append, count_within-le, one_if}
use herdr_mobile.Host.Scheduler.{
  PaneScheduler, FireOutcome, read, poll_read, Event, input_sent, revision_changed, fired, is_due,
  pop_old, rearm, issue, fire, new, step, on_revision_changed, on_input_sent, outcome_at, time,
}

-- The time of a read, whatever has triggered it.
abbrev is_read : Option FireOutcome → Bool
is_read (some read) = true
is_read (some poll_read) = true
is_read _ = false

abbrev is_read_at : Option (ℕ × FireOutcome) → Bool
is_read_at none = false
is_read_at (some (now, o)) = is_read (some o)

unfoldable pub all_reads : PaneScheduler → List Event → List ℕ
all_reads s [] = []
all_reads s (e ∷ es) =
    let rest = all_reads (step s e).0 es in if is_read_at (step s e).1 then time e ∷ rest else rest

-- The clock does not go back.
abbrev pub InOrder : ℕ → List Event → Type 0
InOrder last [] = Unit
InOrder last (e ∷ es) = (last ≤ time e) × InOrder (time e) es

pub length-pop_old-le : (now : ℕ) (ts : List ℕ) → length (pop_old now ts) ≤ length ts
unfolding pop_old
length-pop_old-le now [] = omega arith
length-pop_old-le now (t ∷ ts) = ground (arith, length-pop_old-le now ts)

count_within-pop_old :
    (t now : ℕ) (ts : List ℕ) → now ≤ t → count_within t (pop_old now ts) ≡ count_within t ts
unfolding pop_old
count_within-pop_old t now [] h = refl
count_within-pop_old t now (x ∷ ts) h = ground (arith, count_within-pop_old t now ts)

pub as_u32_lem : (n m : ℕ) → n ≤ m → m < 2 ^ 32 → n % 2 ^ 32 ≡ n
as_u32_lem n m h k = omega arith

-- The cap is a `u32` that the history's length respects.
abbrev pub Capped : PaneScheduler → Type 0
Capped s = (length s.read_history ≤ s.max_per_sec) × (s.max_per_sec < 2 ^ 32)

module _ (s : PaneScheduler) (now : ℕ) (due : Bool) where
  pub max_per_sec-issue : (issue s due now).0.max_per_sec ≡ s.max_per_sec
  unfolding issue
  max_per_sec-issue = ground arith

  issue_history :
      Capped s
      → ((is_read (some (issue s due now).1) ≡ true)
          × ((issue s due now).0.read_history ≡ s.read_history ++ now ∷ [])
          × (length s.read_history < s.max_per_sec))
        ⊎ ((is_read (some (issue s due now).1) ≡ false)
            × ((issue s due now).0.read_history ≡ s.read_history))
  unfolding issue
  issue_history capped =
      ground (arith, as_u32_lem (length s.read_history) s.max_per_sec capped.0 capped.1)

module _ (s : PaneScheduler) (now : ℕ) where
  abbrev pub kept : List ℕ
  kept = pop_old now s.read_history

  pub history-rearm : (rearm s now).read_history ≡ kept
  unfolding rearm
  history-rearm = refl

  pub max_per_sec-rearm : (rearm s now).max_per_sec ≡ s.max_per_sec
  unfolding rearm
  max_per_sec-rearm = refl

  pub Capped-rearm : Capped s → Capped (rearm s now)
  Capped-rearm c =
      rw (history-rearm, max_per_sec-rearm)
        (omega (arith, c.0, length-pop_old-le now s.read_history), c.1)

  max_per_sec-fire : (fire s now).0.max_per_sec ≡ s.max_per_sec
  unfolding fire
  max_per_sec-fire =
      ground
        (arith, max_per_sec-issue (rearm s now) now (is_due now s.pending_due), max_per_sec-rearm)

  fire_history :
      Capped s
      → ((is_read (fire s now).1 ≡ true)
          × ((fire s now).0.read_history ≡ kept ++ now ∷ [])
          × (length kept < s.max_per_sec))
        ⊎ ((is_read (fire s now).1 ≡ false)
            × (((fire s now).0.read_history ≡ kept)
                ⊎ ((fire s now).0.read_history ≡ s.read_history)))
  unfolding fire
  fire_history c = ground (
    arith,
    issue_history (rearm s now) now (is_due now s.pending_due) (Capped-rearm c),
    history-rearm,
    max_per_sec-rearm,
  )

-- `p` reads so far lie in the second that ends at `t`; the history accounts for them.
abbrev Accounted : ℕ → ℕ → PaneScheduler → ℕ → Type 0
Accounted t last s p =
    Capped s × (last ≤ t → p ≡ count_within t s.read_history) × (p ≤ s.max_per_sec)

Accounted-fire :
    (t last now p : ℕ) (s : PaneScheduler)
    → last ≤ now
    → Accounted t last s p
    → Accounted t now (fire s now).0 (p + one_if (is_read (fire s now).1 && within t now))
Accounted-fire t last now p s m acc =
    let ks = kept s now in
    let popped = count_within-pop_old t now s.read_history in
    let appended = count_within-append t ks (now ∷ []) in
    let shorter = length-pop_old-le now s.read_history in
    rw (max_per_sec-fire s now) (elim (fire_history s now acc.0) [
      | inl (answer, e, room) ↦
          rw (answer, e)
            (
              (omega (arith, length-append ks (now ∷ []), room), acc.0.1),
              λ h. ground (arith, popped, acc.1, appended),
              ground (arith, popped, acc.1, acc.2, appended, count_within-le t ks),
            )
      | inr (answer, inl e) ↦
          rw (answer, e)
            (
              (omega (arith, acc.0.0, shorter), acc.0.1),
              λ h. ground (arith, popped, acc.1),
              omega (arith, acc.2),
            )
      | inr (answer, inr e) ↦
          rw (answer, e) (acc.0, λ h. ground (arith, acc.1), omega (arith, acc.2))
    ])

on_revision_changed_lem :
    (s : PaneScheduler) (now : ℕ)
    → ((on_revision_changed s now).max_per_sec ≡ s.max_per_sec)
      × ((on_revision_changed s now).read_history ≡ s.read_history)
unfolding on_revision_changed
on_revision_changed_lem s now = ground arith

all_reads_bounded :
    (t : ℕ) (s : PaneScheduler) (last : ℕ) (events : List Event) (p : ℕ)
    → InOrder last events
    → Accounted t last s p
    → p + count_within t (all_reads s events) ≤ s.max_per_sec
unfolding all_reads step on_input_sent
all_reads_bounded t s last [] p m acc = omega (arith, acc.2)
all_reads_bounded t s last (input_sent now ∷ es) p m acc =
    all_reads_bounded t (on_input_sent s now) now es p m.1
      (acc.0, λ h. acc.1 (omega (arith, m.0)), acc.2)
all_reads_bounded t s last (revision_changed now ∷ es) p m acc =
    let (cap, same) = on_revision_changed_lem s now in
    subst (λ k. p + count_within t (all_reads (on_revision_changed s now) es) ≤ k) cap
      (all_reads_bounded t (on_revision_changed s now) now es p m.1
        (rw (cap, same) (acc.0, λ h. acc.1 (omega (arith, m.0)), acc.2)))
all_reads_bounded t s last (fired now ∷ es) p m acc = ground (
  arith,
  max_per_sec-fire s now,
  is_read-outcome_at (fire s now).1,
  all_reads_bounded t (fire s now).0 now es _ m.1 (Accounted-fire t last now p s m.0 acc),
)
  where
    is_read-outcome_at : (o : Option FireOutcome) → is_read_at (outcome_at now o) ≡ is_read o
    is_read-outcome_at none = refl
    is_read-outcome_at (some o) = refl

-- Whatever is called on a new scheduler, on a clock that does not go back, at most `max_per_sec`
-- reads of any kind are issued in any one second. The cap is a `u32`.
pub all_reads-capped :
    (window poll : ℕ) (offsets : List ℕ) (max_per_sec start t : ℕ) (events : List Event)
    → max_per_sec < 2 ^ 32
    → InOrder start events
    → count_within t (all_reads (new window poll offsets max_per_sec start) events) ≤ max_per_sec
unfolding new
all_reads-capped window poll offsets max_per_sec start t events small m = omega (
  arith,
  all_reads_bounded t (new window poll offsets max_per_sec start) start events 0 m
      ((omega arith, small), λ h. refl, omega arith),
)
