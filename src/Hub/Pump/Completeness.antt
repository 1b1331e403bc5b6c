-- ===== src/Hub/Pump/Completeness.antt =====
-- Which frames the byte pump of relay.rs enqueues for the peer, and when it stops.
use herdr_mobile.Base.{
  Bool, Bool-cases, Bytes, List, Option, [], false, inl, inr, length, ltb, none, not, refl, some,
  sym, true, ℕ, ◌++◌, ◌||◌, ◌∙◌, ◌∷◌, ◌≡◌,
}
use herdr_mobile.Hub.Limits.{allow_frame}
use herdr_mobile.Hub.Session.{Tx}
use herdr_mobile.Hub.Connection.{max_frame_bytes}
use herdr_mobile.Hub.Pump.{
  Event, binary, text_frame, pong, ping, ended, close_frame, outgoing, ping_due, pong_overdue,
  Output, Shared, Pump, Connection, Next, continues, breaks, on_binary, on_text, step, resume,
  Ended, run,
}
use herdr_mobile.Hub.Pump.Forwarding.{
  handed, to_some, listener, deliverable, handed-append, on_binary_outcomes, handed-on_text,
}

resume-none :
    (p : Pump) (turn : List Output × Next) (later : Pump → Ended)
    → (resume p turn later).2 ≡ none
    → (p' : Pump) × ((later p').2 ≡ none)
      × (handed (resume p turn later).0 ≡ handed turn.0 ++ handed (later p').0)
      × (turn.1 ≡ continues p')
resume-none p (outputs, breaks frame) later h = cc
resume-none p (outputs, continues p') later h = (p', h, handed-append outputs (later p').0, refl)

to_some-append :
    (peer : Option Tx) (bytes : Bytes) (due : List (Tx × Bytes))
    → to_some peer bytes [] ++ due ≡ to_some peer bytes due
to_some-append none bytes due = refl
to_some-append (some peer) bytes due = refl

handed-binary :
    (c : Connection) (shared : Shared) (p : Pump) (bytes : Bytes) (now : ℕ) (later : Pump → Ended)
    (due : List (Tx × Bytes))
    → ((p' : Pump) → (later p').2 ≡ none → handed (later p').0 ≡ due)
    → (resume p (on_binary c shared p bytes now) later).2 ≡ none
    → handed (resume p (on_binary c shared p bytes now) later).0
      ≡ to_some (listener c shared) bytes due
handed-binary c shared p bytes now later due h still =
    let (p', on, whole, continued) = resume-none p (on_binary c shared p bytes now) later still in
    elim (on_binary_outcomes c shared p bytes now) [
      | inl (quiet, stop) ↦ absurd (differ (sym stop ∙ continued))
      | inr (small, given, _) ↦
          rw (whole, given, h p' on) (to_some-append (listener c shared) bytes due)
    ]
  where
    differ : {p' : Pump} → breaks none ≡ continues p' → ⊥
    differ e = cc

handed-text :
    (c : Connection) (shared : Shared) (p : Pump) (bytes : Bytes) (now : ℕ) (sent : Bool)
    (later : Pump → Ended) (due : List (Tx × Bytes))
    → ((p' : Pump) → (later p').2 ≡ none → handed (later p').0 ≡ due)
    → (resume p (on_text c shared p bytes now sent) later).2 ≡ none
    → handed (resume p (on_text c shared p bytes now sent) later).0 ≡ due
handed-text c shared p bytes now sent later due h still =
    let (p', on, whole, _) = resume-none p (on_text c shared p bytes now sent) later still in
    rw (whole, handed-on_text c shared p bytes now sent) (h p' on)

-- As long as a run has not ended, what it has enqueued for the peer is, verbatim and in order, every
-- binary frame that arrived while a connection held the other role's slot and had not dropped its
-- receiver, each for that connection; a frame that arrives otherwise is dropped.
pub handed-run_complete :
    (c : Connection) (p : Pump) (events : List (Shared × Event))
    → (run c p events).2 ≡ none
    → handed (run c p events).0 ≡ deliverable c events
unfolding run step deliverable
handed-run_complete c p [] h = refl
handed-run_complete c p ((shared, binary bytes now) ∷ events) h =
    handed-binary c shared p bytes now (λ p'. run c p' events) (deliverable c events)
      (λ p'. handed-run_complete c p' events) h
handed-run_complete c p ((shared, text_frame bytes now sent) ∷ events) h =
    handed-text c shared p bytes now sent (λ p'. run c p' events) (deliverable c events)
      (λ p'. handed-run_complete c p' events) h
handed-run_complete c p ((shared, pong) ∷ events) h = handed-run_complete c _ events h
handed-run_complete c p ((shared, ping) ∷ events) h = handed-run_complete c p events h
handed-run_complete c p ((shared, ended) ∷ events) h = cc
handed-run_complete c p ((shared, close_frame frame) ∷ events) h = cc
handed-run_complete c p ((shared, outgoing message true) ∷ events) h =
    handed-run_complete c p events h
handed-run_complete c p ((shared, outgoing message false) ∷ events) h = cc
handed-run_complete c p ((shared, ping_due true now) ∷ events) h = handed-run_complete c _ events h
handed-run_complete c p ((shared, ping_due false now) ∷ events) h = cc
handed-run_complete c p ((shared, pong_overdue) ∷ events) h = cc

abbrev pub is_break : Next → Bool
is_break (continues p) = false
is_break (breaks frame) = true

-- The pump stops on a binary frame exactly when the frame is longer than 1 MiB or over the rate.
pub is_break-on_binary :
    (c : Connection) (shared : Shared) (p : Pump) (bytes : Bytes) (now : ℕ)
    → is_break (on_binary c shared p bytes now).1
      ≡ (ltb max_frame_bytes (length bytes) || not (allow_frame p.limiter now).1)
unfolding on_binary
is_break-on_binary c shared p bytes now = elim (Bool-cases (ltb max_frame_bytes (length bytes))) [
  | inl big ↦ rw big refl
  | inr small ↦ rw small (elim (Bool-cases (allow_frame p.limiter now).1) [
    | inr fast ↦ rw fast refl
    | inl within ↦ rw within refl
  ])
]
