-- ===== src/Hub/Limits/Sliding.antt =====
-- `IpRateLimiter` of routes/limits.rs against a count of the calls that it let through.
use herdr_mobile.Base.{
  Bool-cases, List, [], arith, beq, beq→eq, false, if◌then◌else◌, inl, inr, leb, length, refl,
  subst, sym, true, ℕ, ◌&&◌, ◌++◌, ◌+◌, ◌<◌, ◌∷◌, ◌≡◌, ◌≤◌, ◌⊎◌,
}
use herdr_mobile.Base.AssocMap.{get, get-insert, get-insert_self}
use herdr_mobile.Base.Windows.{within, count_within, count_within-append, count_within-le, one_if}
use herdr_mobile.Hub.Limits.{IpAddr, IpRateLimiter, new_ip_limiter, events_of, pop_expired, allow}

-- The times at which calls for `ip` were let through, in a run of calls by any addresses.
unfoldable pub allowed : IpAddr → IpRateLimiter → List (IpAddr × ℕ) → List ℕ
allowed ip l [] = []
allowed ip l ((j, now) ∷ calls) =
    let rest = allowed ip (allow l j now).0 calls in
    if (allow l j now).1 && beq j ip then now ∷ rest else rest

-- The clock does not go back.
abbrev pub Monotone : ℕ → List (IpAddr × ℕ) → Type 0
Monotone last [] = Unit
Monotone last ((j, now) ∷ calls) = (last ≤ now) × Monotone now calls

-- What is popped no longer counts.
count_within-pop_expired :
    (t now : ℕ) (xs : List ℕ) → now ≤ t → count_within t (pop_expired now xs) ≡ count_within t xs
unfolding pop_expired
count_within-pop_expired t now [] h = refl
count_within-pop_expired t now (x ∷ xs) h = ground (arith, count_within-pop_expired t now xs)

max-allow :
    (l : IpRateLimiter) (j : IpAddr) (now : ℕ) → (allow l j now).0.max_per_window ≡ l.max_per_window
unfolding allow
max-allow l j now = ground arith

events-allow_ne :
    (l : IpRateLimiter) (ip j : IpAddr) (now : ℕ)
    → beq j ip ≡ false
    → events_of (allow l j now).0 ip ≡ events_of l ip
unfolding allow
events-allow_ne l ip j now h =
    let kept = pop_expired now (events_of l j) in
    ground (arith, get-insert j ip kept l.seen, get-insert j ip (kept ++ now ∷ []) l.seen)

events-allow_self :
    (l : IpRateLimiter) (ip : IpAddr) (now : ℕ)
    → let kept = pop_expired now (events_of l ip) in
      (((allow l ip now).1 ≡ false) × (events_of (allow l ip now).0 ip ≡ kept))
      ⊎ (((allow l ip now).1 ≡ true)
          × (events_of (allow l ip now).0 ip ≡ kept ++ now ∷ [])
          × (length kept < l.max_per_window))
unfolding allow
events-allow_self l ip now =
    let kept = pop_expired now (events_of l ip) in
    elim (Bool-cases (leb l.max_per_window (length kept))) [
      | inl full ↦ inl (rw full refl, rw (full, get-insert_self ip kept l.seen) refl)
      | inr room ↦ inr (
        rw room refl,
        rw (room, get-insert_self ip (kept ++ now ∷ []) l.seen) refl,
        ground (arith, room),
      )
    ]

-- The calls that were let through so far number `p` in the second that ends at `t`; the address's
-- deque accounts for them from `last` on.
abbrev Accounted : ℕ → ℕ → ℕ → List ℕ → ℕ → Type 0
Accounted t last max_per_window events p =
    (last ≤ t → p ≡ count_within t events) × (p ≤ max_per_window)

Accounted-allow_ne :
    (t last now p : ℕ) (ip j : IpAddr) (l : IpRateLimiter)
    → last ≤ now
    → beq j ip ≡ false
    → Accounted t last l.max_per_window (events_of l ip) p
    → Accounted t now (allow l j now).0.max_per_window (events_of (allow l j now).0 ip) p
Accounted-allow_ne t last now p ip j l m differ acc =
    rw (max-allow l j now, events-allow_ne l ip j now differ) (λ h. acc.0 (omega arith), acc.1)

Accounted-allow_self :
    (t last now p : ℕ) (ip : IpAddr) (l : IpRateLimiter)
    → last ≤ now
    → Accounted t last l.max_per_window (events_of l ip) p
    → Accounted t now
        (allow l ip now).0.max_per_window
        (events_of (allow l ip now).0 ip)
        (p + one_if ((allow l ip now).1 && within t now))
Accounted-allow_self t last now p ip l m acc =
    let kept = pop_expired now (events_of l ip) in
    let counted = count_within-pop_expired t now (events_of l ip) in
    rw (max-allow l ip now) (elim (events-allow_self l ip now) [
      | inl (refused, e) ↦ rw (refused, e) (λ h. ground (arith, counted, acc.0), omega arith)
      | inr (let_in, e, room) ↦
          rw (let_in, e)
            (
              λ h. ground (arith, counted, acc.0, count_within-append t kept (now ∷ [])),
              ground (
                arith,
                counted,
                acc.0,
                count_within-append t kept (now ∷ []),
                count_within-le t kept,
              ),
            )
    ])

allowed_bounded :
    (t : ℕ) (ip : IpAddr) (l : IpRateLimiter) (last : ℕ) (calls : List (IpAddr × ℕ)) (p : ℕ)
    → Monotone last calls
    → Accounted t last l.max_per_window (events_of l ip) p
    → p + count_within t (allowed ip l calls) ≤ l.max_per_window
unfolding allowed
allowed_bounded t ip l last [] p m acc = omega arith
allowed_bounded t ip l last ((j, now) ∷ calls) p m acc = elim (Bool-cases (beq j ip)) [
  | inl same ↦
      let l' = (allow l j now).0 in
      let acc' : Accounted t now l'.max_per_window (events_of l' ip)
          (p + one_if ((allow l j now).1 && within t now)) =
        subst
          (λ k.
            Accounted t now (allow l k now).0.max_per_window (events_of (allow l k now).0 ip)
              (p + one_if ((allow l k now).1 && within t now)))
          (sym (beq→eq j ip same)) (Accounted-allow_self t last now p ip l m.0 acc) in
      ground (arith, same, max-allow l j now, allowed_bounded t ip l' now calls _ m.1 acc')
  | inr differ ↦ ground (
    arith,
    differ,
    max-allow l j now,
    allowed_bounded t ip (allow l j now).0 now calls p m.1
        (Accounted-allow_ne t last now p ip j l m.0 differ acc),
  )
]

-- Whatever calls arrive from whatever addresses, on a clock that does not go back, at most
-- `max_per_window` of one address's calls are let through in any one second.
pub count_within-allowed :
    (n t : ℕ) (ip : IpAddr) (calls : List (IpAddr × ℕ))
    → Monotone 0 calls
    → count_within t (allowed ip (new_ip_limiter n) calls) ≤ n
unfolding new_ip_limiter get
count_within-allowed n t ip calls m =
    omega (arith, allowed_bounded t ip (new_ip_limiter n) 0 calls 0 m (λ h. refl, omega arith))
