-- ===== src/Host/Bridge/Replies.antt =====
-- The replies of held_input.rs over a session: each request gets exactly one that is final.
use herdr_mobile.Base.{
  Bool, Bool-cases, Bytes, List, Option, [], arith, inl, inr, none, refl, some, ℕ, ◌++◌, ◌+◌, ◌∷◌,
  ◌≡◌, ◌≤◌,
}
use herdr_mobile.Host.Input.{Env, SendInput, SendInputAck}
use herdr_mobile.Host.Bridge.{PendingInput, Bridge, cancel_pending_inputs}
use herdr_mobile.Host.Bridge.Deferred.{
  Snapshot, take_input_replies, handle_deferred_input, release_pending_input,
}
use herdr_mobile.Host.Bridge.Held.{
  same_corr, count_if, finals, owed_pending, owed, finals-append, owed-cancel_pending_inputs,
}
use herdr_mobile.Host.Bridge.Settled.{handle-owed, owed-release_pending_input}

owed_one : (c : Option Bytes) (pending : Option PendingInput) → owed_pending c pending ≤ 1
owed_one c none = omega arith
owed_one c (some p) = elim (Bool-cases (same_corr c p.corr)) [
  | inl e ↦ rw e (omega arith)
  | inr e ↦ rw e (omega arith)
]

-- What happens to the held submit of a session: a request, a status that releases it, or the end of
-- the watch.
pub data Event : Type 0 where
  requested : SendInput → Option Bytes → Snapshot → ℕ → Event
  released : Option Bool → Bytes → ℕ → Event
  cancelled drained : Event

unfoldable pub step : Env → Bridge → Event → Bridge × List (SendInputAck × Option Bytes)
step env b (requested request corr snapshot now) =
    handle_deferred_input env b request corr snapshot now
step env b (released active pane_id now) = (release_pending_input env b active pane_id now, [])
step env b cancelled = (cancel_pending_inputs b, [])
step env b drained = take_input_replies b

-- The bridge at the end, and all replies that were given out.
unfoldable pub run : Env → Bridge → List Event → Bridge × List (SendInputAck × Option Bytes)
run env b [] = (b, [])
run env b (event ∷ events) =
    let (b', replies) = step env b event in
    let (b2, more) = run env b' events in (b2, replies ++ more)

-- How many requests came with a correlation.
unfoldable pub requests : Option Bytes → List Event → ℕ
requests c [] = 0
requests c (requested request corr snapshot now ∷ events) =
    count_if (same_corr c corr) + requests c events
requests c (released active pane_id now ∷ events) = requests c events
requests c (cancelled ∷ events) = requests c events
requests c (drained ∷ events) = requests c events

step-owed :
    (c : Option Bytes) (env : Env) (b : Bridge) (event : Event) (events : List Event)
    → (let (b', replies) = step env b event in
        finals c replies + owed c b' + requests c events ≡ owed c b + requests c (event ∷ events))
unfolding step requests finals take_input_replies
step-owed c env b (requested request corr snapshot now) events =
    omega (arith, handle-owed c corr env b request snapshot now)
step-owed c env b (released active pane_id now) events =
    omega (arith, owed-release_pending_input c env b active pane_id now)
step-owed c env b cancelled events = omega (arith, (owed-cancel_pending_inputs c b).0)
step-owed c env b drained events = omega arith

-- Any requests, held submits that are released and cancellations, in any order: for every
-- correlation, the final replies that were given out, and those that the bridge still has ready or
-- owes to a held submit, are as many as the requests, so that each request has exactly one final
-- reply, and one held submit at most waits for its own.
pub finals-run :
    (c : Option Bytes) (env : Env) (b : Bridge) (events : List Event)
    → (let (b', replies) = run env b events in
        (finals c replies + finals c b'.input_replies + owed_pending c b'.pending_input
          ≡ finals c b.input_replies + owed_pending c b.pending_input + requests c events)
        × (owed_pending c b'.pending_input ≤ 1))
unfolding run
finals-run c env b [] =
    let no_more : (finals c [] ≡ 0) × (requests c [] ≡ 0) =
      unfold finals requests in (refl, refl) in
    (omega (arith, no_more.0, no_more.1), owed_one c b.pending_input)
finals-run c env b (event ∷ events) =
    let (b', replies) = step env b event in
    let (b2, more) = run env b' events in
    let (rest, one) = finals-run c env b' events in
    (omega (arith, rest, step-owed c env b event events, finals-append c replies more), one)
