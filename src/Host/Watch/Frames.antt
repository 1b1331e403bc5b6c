-- ===== src/Host/Watch/Frames.antt =====
-- The frames of the watched pane that requests.rs and run_loop.rs send over a session.
use herdr_mobile.Base.{
  ==_iff, Bool-cases, Bytes, List, Option, [], ap, arith, false, inl, inr, none, refl, some, subst,
  sym, true, ℕ, ◌==◌, ◌∙◌, ◌∷◌, ◌≡◌, ◌≢◌,
}
use herdr_mobile.Host.Scheduler.{PaneScheduler, poll_read, fire}
use herdr_mobile.Host.Input.{Env, SendInput}
use herdr_mobile.Host.Bridge.{Bridge, WatchedPane, send_input}
use herdr_mobile.Host.Watch.{
  Reads, Config, Hash, PaneFrame, frame_of, read_pane, watch_pane, unwatch_pane, resynchronize,
}
use herdr_mobile.Host.Watch.Poll.{
  emit_frame, after_fire, poll_with, poll_scheduler, handle_pane_updated,
}
use herdr_mobile.Host.Watch.Shown.{
  Shows, IsShown, latest, sent_by, watch_frame, watch_read-IsShown, unwatch_pane-IsShown,
  resync_option-IsShown, poll_with-IsShown, pane_updated_option-IsShown,
}
use herdr_mobile.Host.Watch.Typing.{send_input-IsShown}

-- What the session of a Device does with its watch.
pub data Event : Type 0 where
  watched : Reads → Bytes → ℕ → Event
  unwatched : Bytes → Event
  resynchronized : Reads → Event
  polled : Reads → ℕ → Event
  updated : Reads → Bytes → ℕ → Option ℕ → ℕ → Event
  input : SendInput → ℕ → Event

module _ (hash : Hash) (config : Config) (env : Env) where
  -- The bridge, and the frame that is sent.
  unfoldable pub step : Bridge → Event → Bridge × Option PaneFrame
  step b (watched reads pane_id now) =
      let (b', result) = watch_pane hash config reads b pane_id now in (b', watch_frame result)
  step b (unwatched pane_id) = (unwatch_pane b pane_id, none)
  step b (resynchronized reads) =
      let (b', result) = resynchronize hash reads b in (b', sent_by result)
  step b (polled reads now) = poll_scheduler hash reads b now
  step b (updated reads pane_id revision rows now) =
      (handle_pane_updated reads b pane_id revision rows now, none)
  step b (input request now) = ((send_input env b request now).0, none)

  -- The bridge, and the frame sent last.
  unfoldable pub run : Bridge → Option PaneFrame → List Event → Bridge × Option PaneFrame
  run b last [] = (b, last)
  run b last (event ∷ events) = let (b', sent) = step b event in run b' (latest sent last) events

  step-IsShown :
      (b : Bridge) (last : Option PaneFrame) (event : Event)
      → IsShown hash b last
      → (let (b', sent) = step b event in IsShown hash b' (latest sent last))
  unfolding step watch_pane resynchronize poll_scheduler handle_pane_updated
  step-IsShown b last (watched reads pane_id now) shown =
      watch_read-IsShown hash config b pane_id now (read_pane reads pane_id) last shown
  step-IsShown b last (unwatched pane_id) shown = unwatch_pane-IsShown hash b pane_id last shown
  step-IsShown b last (resynchronized reads) shown =
      resync_option-IsShown hash reads b b.watched last refl shown
  step-IsShown b last (polled reads now) shown =
      poll_with-IsShown hash reads b b.scheduler now last refl shown
  step-IsShown b last (updated reads pane_id revision rows now) shown =
      pane_updated_option-IsShown hash reads b b.watched pane_id revision rows now last refl shown
  step-IsShown b last (input request now) shown =
      send_input-IsShown hash env b request now last shown

  run_from :
      (b : Bridge) (last : Option PaneFrame) (events : List Event)
      → IsShown hash b last
      → (let (b', last') = run b last events in IsShown hash b' last')
  unfolding run
  run_from b last [] shown = shown
  run_from b last (event ∷ events) shown =
      let (b', sent) = step b event in
      run_from b' (latest sent last) events (step-IsShown b last event shown)

  -- From a bridge without a watch, after any requests, events, polls, resynchronisations and input,
  -- whatever Herdr answers: there is a scheduler exactly while a pane is watched, and then the frame
  -- that was sent last is of this pane and has the hash that the bridge compares polls with.
  pub run-IsShown :
      (b : Bridge) (events : List Event)
      → b.watched ≡ none
      → b.scheduler ≡ none
      → (let (b', last) = run b none events in IsShown hash b' last)
  run-IsShown b events no_watch no_scheduler =
      run_from b none events
        (rw (no_watch, no_scheduler) refl, subst (λ w. Shows hash w none) (sym no_watch) tt)

module _ (hash : Hash) where
  emit_new :
      (b : Bridge) (w : WatchedPane) (text : Option Bytes) (f : PaneFrame)
      → (emit_frame hash b w true text).1 ≡ some f
      → (f.pane_id ≡ w.pane_id)
        × (text ≡ some f.text)
        × (hash f.text f.viewport_rows f.width ≢ w.last_frame_hash)
  unfolding emit_frame
  emit_new b w none f h = absurd (cc h)
  emit_new b w (some text) f h =
      let same = hash text w.viewport_rows w.width == w.last_frame_hash in
      elim (Bool-cases same) [
        | inl e ↦ absurd (silent e h)
        | inr e ↦
            subst
              (λ g.
                (g.pane_id ≡ w.pane_id)
                × (some text ≡ some g.text)
                × (hash g.text g.viewport_rows g.width ≢ w.last_frame_hash))
              (frame e h) (refl, refl, λ equal. cc (e, (==_iff _ _).1 equal))
      ]
    where
      silent :
          (hash text w.viewport_rows w.width == w.last_frame_hash) ≡ true
          → (emit_frame hash b w true (some text)).1 ≡ some f
          → ⊥
      silent e h = ground (arith, e, h)

      frame :
          (hash text w.viewport_rows w.width == w.last_frame_hash) ≡ false
          → (emit_frame hash b w true (some text)).1 ≡ some f
          → frame_of w text ≡ f
      frame e h = ground (arith, e, h)

  polled_new :
      (reads : Reads) (b : Bridge) (watched : Option WatchedPane) (sent f : PaneFrame)
      → Shows hash watched (some sent)
      → (after_fire hash reads b (some poll_read) watched).1 ≡ some f
      → (f.pane_id ≡ sent.pane_id)
        × (reads.visible_text f.pane_id ≡ some f.text)
        × (hash f.text f.viewport_rows f.width ≢ hash sent.text sent.viewport_rows sent.width)
  unfolding after_fire
  polled_new reads b none sent f shown h = absurd (cc h)
  polled_new reads b (some w) sent f (g, is_last, pane, sum) h =
      let (to_pane, text, news) = emit_new b w (reads.visible_text w.pane_id) f h in
      let same : sent ≡ g = cc is_last in
      (
        to_pane ∙ (sym pane ∙ ap (λ p. p.pane_id) (sym same)),
        ap reads.visible_text to_pane ∙ text,
        λ equal. news (equal ∙ (ap (λ p. hash p.text p.viewport_rows p.width) same ∙ sum)),
      )

  -- A poll never sends what the Device has: where the last frame sent is of the watched pane and has
  -- the hash that is kept, a poll that is due sends a frame only if its hash is another, and then of
  -- the watched pane with the text that Herdr shows.
  pub poll_scheduler_new :
      (reads : Reads) (b : Bridge) (s : PaneScheduler) (now : ℕ) (sent f : PaneFrame)
      → b.scheduler ≡ some s
      → (fire s now).1 ≡ some poll_read
      → IsShown hash b (some sent)
      → (poll_scheduler hash reads b now).1 ≡ some f
      → (f.pane_id ≡ sent.pane_id)
        × (reads.visible_text f.pane_id ≡ some f.text)
        × (hash f.text f.viewport_rows f.width ≢ hash sent.text sent.viewport_rows sent.width)
  unfolding poll_scheduler poll_with
  poll_scheduler_new reads b s now sent f e due shown emitted =
      polled_new reads (record b { scheduler = some (fire s now).0 }) b.watched sent f shown.1
        (subst
          (λ o.
            (after_fire hash reads (record b { scheduler = some (fire s now).0 }) o b.watched).1
            ≡ some f)
          due (subst (λ t. (poll_with hash reads b t now).1 ≡ some f) e emitted))
