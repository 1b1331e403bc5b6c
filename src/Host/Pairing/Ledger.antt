-- ===== src/Host/Pairing/Ledger.antt =====
-- What a pairing session of pairing.rs answers after any calls, against a ledger that never forgets:
-- the phrase that was issued last, the failures counted against it and whether it enrolled a Device.
use herdr_mobile.Base.{
  Bool, Bool-cases, Bytes, List, Option, Option-cases, Result, Result-cases, [], ap, arith, err,
  false, if◌then◌else◌, inl, inr, is_some, leb, ltb, none, not, ok, refl, some, true, ℕ, ◌+◌, ◌-◌,
  ◌<◌, ◌||◌, ◌∷◌, ◌≡◌, ◌≤◌,
}
use herdr_mobile.Proto.Phrase.{display_form}
use herdr_mobile.Host.Pairing.Issued.{generate_live-ok}
use herdr_mobile.Host.Pairing.{
  expire, count_failure, Crates, Draws, LivePhrase, PairingSession, PairingError, SessionState,
  live_state, expired, spent, enrolled, generate_live, new, phrase_lifetime, max_attempts,
  apply_expiry, is_live, handle, phrase_display, phrase_canonical, pairing_uri, qr, psk_for,
  psk_from_phrase, record_failed_attempt, record_enrolled, regenerate, map_live, live_of,
}

-- A call of the session: a query, a failed handshake, an enrolment, or the key `p`.
pub data Call : Type 0 where
  asked failed : ℕ → Call
  enrolls : Call
  renewed : Draws → ℕ → Call

-- The clock does not run backwards over the calls, from one instant to another.
abbrev pub InOrder : ℕ → List Call → ℕ → Type 0
InOrder from [] to = from ≤ to
InOrder from (asked now ∷ calls) to = (from ≤ now) × InOrder now calls to
InOrder from (failed now ∷ calls) to = (from ≤ now) × InOrder now calls to
InOrder from (enrolls ∷ calls) to = InOrder from calls to
InOrder from (renewed draws now ∷ calls) to = (from ≤ now) × InOrder now calls to

pub record Ledger : Type 0 where
  pub issued : LivePhrase
  pub failures : ℕ
  pub is_enrolled : Bool

abbrev pub open_ledger : LivePhrase → Ledger
open_ledger l = record { issued = l; failures = 0; is_enrolled = false }

unfoldable pub is_over : Ledger → ℕ → Bool
is_over g now =
    leb max_attempts g.failures
    || (g.is_enrolled || ltb phrase_lifetime (now - g.issued.generated_at))

-- What is answered of the phrase that was issued last, while it is not over.
abbrev pub answer : {A : Type 0} → Ledger → ℕ → (LivePhrase → A) → Option A
answer g now f = if is_over g now then none else some (f g.issued)

abbrev renew_ledger : Ledger → Result PairingError LivePhrase → Ledger
renew_ledger g (err e) = g
renew_ledger g (ok l) = open_ledger l

module _ (crates : Crates) (words : List Bytes) where
  unfoldable pub run : PairingSession → List Call → PairingSession
  run s [] = s
  run s (asked now ∷ calls) = run (psk_for crates s now).0 calls
  run s (failed now ∷ calls) = run (record_failed_attempt s now) calls
  run s (enrolls ∷ calls) = run (record_enrolled s) calls
  run s (renewed draws now ∷ calls) = run (regenerate crates s words draws now).0 calls

  unfoldable pub ledger_run : Bytes → Ledger → List Call → Ledger
  ledger_run origin g [] = g
  ledger_run origin g (asked now ∷ calls) = ledger_run origin g calls
  ledger_run origin g (failed now ∷ calls) =
      ledger_run origin (record g { failures = g.failures + 1 }) calls
  ledger_run origin g (enrolls ∷ calls) = ledger_run origin (record g { is_enrolled = true }) calls
  ledger_run origin g (renewed draws now ∷ calls) =
      ledger_run origin (renew_ledger g (generate_live crates origin words draws now)) calls

abbrev cleared : LivePhrase → LivePhrase
cleared l = record l { failed_attempts = 0 }

-- The state against the ledger, at the last reading of the clock.
abbrev Tracks : SessionState → Ledger → ℕ → Type 0
Tracks (live_state l) g now =
    (cleared l ≡ cleared g.issued)
    × (l.failed_attempts ≡ g.failures)
    × (g.failures < max_attempts)
    × (g.is_enrolled ≡ false)
Tracks expired g now = is_over g now ≡ true
Tracks spent g now = is_over g now ≡ true
Tracks enrolled g now = is_over g now ≡ true

over_later : (g : Ledger) (from to : ℕ) → from ≤ to → is_over g from ≡ true → is_over g to ≡ true
unfolding is_over
over_later g from to later h = ground arith

over_failure :
    (g : Ledger) (now : ℕ)
    → is_over g now ≡ true
    → is_over (record g { failures = g.failures + 1 }) now ≡ true
unfolding is_over
over_failure g now h = ground arith

Tracks-expire :
    (state : SessionState) (g : Ledger) (from now : ℕ)
    → from ≤ now
    → Tracks state g from
    → Tracks (expire state now) g now
unfolding is_over
Tracks-expire (live_state l) g from now later (same, counts, few, not_enrolled) =
    elim (Bool-cases (ltb phrase_lifetime (now - l.generated_at))) [
      | inl late ↦ rw late (ground (arith, late, ap (λ p. p.generated_at) same))
      | inr in_time ↦ rw in_time (same, counts, few, not_enrolled)
    ]
Tracks-expire expired g from now later t = over_later g from now later t
Tracks-expire spent g from now later t = over_later g from now later t
Tracks-expire enrolled g from now later t = over_later g from now later t

Tracks-count_failure :
    (state : SessionState) (g : Ledger) (now : ℕ)
    → Tracks state g now
    → Tracks (count_failure state) (record g { failures = g.failures + 1 }) now
unfolding is_over
Tracks-count_failure (live_state l) g now (same, counts, few, not_enrolled) =
    elim (Bool-cases (leb max_attempts (l.failed_attempts + 1))) [
      | inl third ↦ rw third (ground (arith, third, counts))
      | inr fewer ↦
          rw fewer (same, omega (arith, counts), ground (arith, fewer, counts), not_enrolled)
    ]
Tracks-count_failure expired g now t = over_failure g now t
Tracks-count_failure spent g now t = over_failure g now t
Tracks-count_failure enrolled g now t = over_failure g now t

Tracks-later :
    (state : SessionState) (g : Ledger) (from to : ℕ)
    → from ≤ to
    → Tracks state g from
    → Tracks state g to
Tracks-later (live_state l) g from to later t = t
Tracks-later expired g from to later t = over_later g from to later t
Tracks-later spent g from to later t = over_later g from to later t
Tracks-later enrolled g from to later t = over_later g from to later t

enrolled_over : (g : Ledger) (now : ℕ) → is_over (record g { is_enrolled = true }) now ≡ true
unfolding is_over
enrolled_over g now = ground arith

-- Along a run, the state keeps to the ledger.
module _ (crates : Crates) (words : List Bytes) where
  regenerate_ok :
      (s : PairingSession) (draws : Draws) (now : ℕ) (l : LivePhrase)
      → generate_live crates s.relay_origin words draws now ≡ ok l
      → regenerate crates s words draws now ≡ (record s { state = live_state l }, none)
  unfolding regenerate
  regenerate_ok s draws now l e = rw (e, regenerate) refl

  regenerate_err :
      (s : PairingSession) (draws : Draws) (now : ℕ) (x : PairingError)
      → generate_live crates s.relay_origin words draws now ≡ err x
      → regenerate crates s words draws now ≡ (s, some x)
  unfolding regenerate
  regenerate_err s draws now x e = rw (e, regenerate) refl

  Tracks-run :
      (s : PairingSession) (g : Ledger) (calls : List Call) (from to : ℕ)
      → InOrder from calls to
      → Tracks s.state g from
      → Tracks
          ((run crates words s calls).state)
          (ledger_run crates words s.relay_origin g calls)
          to
  unfolding run ledger_run psk_for record_failed_attempt record_enrolled apply_expiry
  Tracks-run s g [] from to order t = Tracks-later s.state g from to order t
  Tracks-run s g (asked now ∷ calls) from to (later, order) t =
      Tracks-run (apply_expiry s now) g calls now to order
        (Tracks-expire s.state g from now later t)
  Tracks-run s g (failed now ∷ calls) from to (later, order) t =
      Tracks-run (record_failed_attempt s now) (record g { failures = g.failures + 1 }) calls now to
        order
        (Tracks-count_failure (expire s.state now) g now (Tracks-expire s.state g from now later t))
  Tracks-run s g (enrolls ∷ calls) from to order t =
      Tracks-run (record_enrolled s) (record g { is_enrolled = true }) calls from to order
        (enrolled_over g from)
  Tracks-run s g (renewed draws now ∷ calls) from to (later, order) t =
      elim (Result-cases (generate_live crates s.relay_origin words draws now)) [
        | inl (l, e) ↦
            rw (e, regenerate_ok s draws now l e, run)
              (Tracks-run (record s { state = live_state l }) (open_ledger l) calls now to order
                (
                  refl,
                  (generate_live-ok crates s.relay_origin words draws now l e).1,
                  omega arith,
                  refl,
                ))
        | inr (x, e) ↦
            rw (e, regenerate_err s draws now x e, run)
              (Tracks-run s g calls now to order (Tracks-later s.state g from now later t))
      ]

answer_lem :
    {A : Type 0} (state : SessionState) (g : Ledger) (from now : ℕ)
    → from ≤ now
    → Tracks state g from
    → (f : LivePhrase → A)
    → map_live (live_of (expire state now)) (λ l. f (cleared l)) ≡ answer g now (λ l. f (cleared l))
unfolding is_over
answer_lem (live_state l) g from now later (same, counts, few, not_enrolled) f =
    elim (Bool-cases (ltb phrase_lifetime (now - l.generated_at))) [
      | inl late ↦ ground (arith, late, few, not_enrolled, ap (λ p. p.generated_at) same)
      | inr in_time ↦
          ground (arith, in_time, few, not_enrolled, ap (λ p. p.generated_at) same, ap f same)
    ]
answer_lem expired g from now later t f = rw (over_later g from now later t) refl
answer_lem spent g from now later t f = rw (over_later g from now later t) refl
answer_lem enrolled g from now later t f = rw (over_later g from now later t) refl

is_live_lem :
    (state : SessionState) (g : Ledger) (now : ℕ)
    → map_live (live_of (expire state now)) (λ p. p.uri) ≡ answer g now (λ p. p.uri)
    → is_some (live_of (expire state now)) ≡ not (is_over g now)
is_live_lem state g now h = elim (Option-cases (live_of (expire state now))) [
  | inl e ↦ ground (arith, h, e)
  | inr (l, e) ↦ ground (arith, h, e)
]

module _ (crates : Crates) (words : List Bytes) (origin : Bytes) (draws : Draws) (start : ℕ)
    (l : LivePhrase) (calls : List Call) (now : ℕ) where
  abbrev session : PairingSession
  session = run crates words (record { relay_origin = origin; state = live_state l }) calls

  abbrev ledger : Ledger
  ledger = ledger_run crates words origin (open_ledger l) calls

  -- A session that was opened with a phrase, after any calls in the clock's order, gives out the
  -- routing handle, both forms of the phrase, the URI, the QR code and the key of the handshake of
  -- the phrase that was issued last, and only while that phrase has at most 600 seconds, fewer than
  -- three failures since and no enrolment; then `is_live` says so, and otherwise nothing is given
  -- out until the key `p` issues another. A generation that fails changes nothing.
  pub queries-run :
      generate_live crates origin words draws start ≡ ok l
      → InOrder start calls now
      → (new crates origin words draws start
          ≡ ok (record { relay_origin = origin; state = live_state l }))
        × ((psk_for crates session now).1
            ≡ answer ledger now (λ p. psk_from_phrase crates p.phrase.canonical))
        × ((handle session now).1 ≡ answer ledger now (λ p. p.handle))
        × ((phrase_display session now).1 ≡ answer ledger now (λ p. display_form p.phrase))
        × ((phrase_canonical session now).1 ≡ answer ledger now (λ p. p.phrase.canonical))
        × ((pairing_uri session now).1 ≡ answer ledger now (λ p. p.uri))
        × ((qr session now).1 ≡ answer ledger now (λ p. p.qr))
        × ((is_live session now).1 ≡ not (is_over ledger now))
  unfolding new psk_for handle phrase_display phrase_canonical pairing_uri qr is_live apply_expiry
  queries-run issued order =
      let tracks =
        Tracks-run crates words (record { relay_origin = origin; state = live_state l })
          (open_ledger l) calls start now order
          (
            refl,
            (generate_live-ok crates origin words draws start l issued).1,
            omega arith,
            refl,
          ) in
      (
        rw issued refl,
        answer_lem session.state ledger now now (omega arith) tracks
            (λ p. psk_from_phrase crates p.phrase.canonical),
        answer_lem session.state ledger now now (omega arith) tracks (λ p. p.handle),
        answer_lem session.state ledger now now (omega arith) tracks (λ p. display_form p.phrase),
        answer_lem session.state ledger now now (omega arith) tracks (λ p. p.phrase.canonical),
        answer_lem session.state ledger now now (omega arith) tracks (λ p. p.uri),
        answer_lem session.state ledger now now (omega arith) tracks (λ p. p.qr),
        is_live_lem session.state ledger now
            (answer_lem session.state ledger now now (omega arith) tracks (λ p. p.uri)),
      )
