-- ===== src/Host/Scheduler/Retry.antt =====
-- A revision that the read-rate cap of watch/scheduler.rs refuses is read later.
use herdr_mobile.Base.{
  List, [], ap, arith, length, secs, some, sym, true, ℕ, ◌+◌, ◌<◌, ◌^◌, ◌∙◌, ◌∷◌, ◌≡◌, ◌≤◌,
}
use herdr_mobile.Host.Scheduler.{
  PaneScheduler, FireOutcome, read, rate_limited, first, is_due, unwrap_or, pop_old, rearm, issue,
  fire,
}
use herdr_mobile.Host.Scheduler.Rate.{
  length-pop_old-le, as_u32_lem, history-rearm, max_per_sec-rearm, Capped-rearm, max_per_sec-issue,
  Capped,
}

length-pop_old-lt :
    (now : ℕ) (ts : List ℕ)
    → 0 < length ts
    → unwrap_or (first ts) 0 + secs 1 ≤ now
    → length (pop_old now ts) < length ts
unfolding pop_old
length-pop_old-lt now [] h k = omega (arith, h)
length-pop_old-lt now (t ∷ ts) h k = ground (arith, length-pop_old-le now ts)

module _ (s : PaneScheduler) (now : ℕ) where
  -- A revision that the cap has refused: the history is full, and the retry is a second after its
  -- oldest read.
  issue_refused :
      Capped s
      → (issue s true now).1 ≡ rate_limited
      → (s.max_per_sec ≤ length s.read_history)
        × ((issue s true now).0.read_history ≡ s.read_history)
        × ((issue s true now).0.pending_due ≡ some (unwrap_or (first s.read_history) now + secs 1))
  unfolding issue
  issue_refused capped h =
      ground (arith, as_u32_lem (length s.read_history) s.max_per_sec capped.0 capped.1)

  issue_due :
      length s.read_history < s.max_per_sec → s.max_per_sec < 2 ^ 32 → (issue s true now).1 ≡ read
  unfolding issue
  issue_due h small =
      ground (arith, as_u32_lem (length s.read_history) s.max_per_sec (omega arith) small)

  fire_due :
      is_due now s.pending_due ≡ true
      → fire s now ≡ ((issue (rearm s now) true now).0, some (issue (rearm s now) true now).1)
  unfolding fire
  fire_due h = ground (arith, h)

fire_room :
    (s : PaneScheduler) (now : ℕ)
    → length (pop_old now s.read_history) < s.max_per_sec
    → s.max_per_sec < 2 ^ 32
    → is_due now s.pending_due ≡ true
    → (fire s now).1 ≡ some read
fire_room s now room small h = rw (fire_due s now h) (
    ap some (
      issue_due (rearm s now) now (rw (history-rearm s now, max_per_sec-rearm s now) room)
        (rw (max_per_sec-rearm s now) small)))

-- A revision that the cap refuses is kept and read at its retry: with a cap above zero, it then waits
-- for one second after `oldest`, the first of the reads that still count, and the first `fire` at
-- or after that instant, when nothing is called in between, issues the revision's read.
pub fire-retry :
    (s : PaneScheduler) (now later oldest : ℕ) (recent : List ℕ)
    → length s.read_history ≤ s.max_per_sec
    → s.max_per_sec < 2 ^ 32
    → 0 < s.max_per_sec
    → is_due now s.pending_due ≡ true
    → (fire s now).1 ≡ some rate_limited
    → pop_old now s.read_history ≡ oldest ∷ recent
    → oldest + secs 1 ≤ later
    → ((fire s now).0.pending_due ≡ some (oldest + secs 1))
      × ((fire (fire s now).0 later).1 ≡ some read)
fire-retry s now later oldest recent len small pos due refused counted late =
    let s' = rearm s now in
    let r = (issue s' true now).0 in
    let e = fire_due s now due in
    let at_cap =
      issue_refused s' now (Capped-rearm s now (len, small))
        (some_injective (sym (ap (λ f. f.1) e) ∙ refused)) in
    let history = history-rearm s now ∙ counted in
    let waits : r.pending_due ≡ some (oldest + secs 1) =
      at_cap.2 ∙ ap (λ ts. some (unwrap_or (first ts) now + secs 1)) history in
    let due' : is_due later r.pending_due ≡ true = rw waits (ground (arith, late)) in
    let cap = max_per_sec-issue s' now true ∙ max_per_sec-rearm s now in
    let full : s.max_per_sec ≤ length s'.read_history =
      omega (arith, at_cap.0, max_per_sec-rearm s now) in
    let len' : length s'.read_history ≤ s.max_per_sec =
      omega (arith, len, length-pop_old-le now s.read_history, ap length (history-rearm s now)) in
    let first_read : unwrap_or (first s'.read_history) 0 ≡ oldest =
      ap (λ ts. unwrap_or (first ts) 0) history in
    rw e (
      waits,
      fire_room r later
          (rw (at_cap.1, cap)
            (omega (
              arith,
              full,
              len',
              length-pop_old-lt later s'.read_history (omega (arith, full, pos))
                  (rw first_read late),
            )))
          (rw cap small) due',
    )
  where
    some_injective : {x y : FireOutcome} → some x ≡ some y → x ≡ y
    some_injective h = cc
