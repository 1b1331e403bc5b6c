-- ===== src/Host/Watch/Shown.antt =====
-- The hash of the watched pane against the frames of requests.rs and run_loop.rs that were sent.
use herdr_mobile.Base.{
  Bool, Bool-cases, Bytes, List, Option, Option-cases, Result, [], ap, beq, err, false, inl, inr,
  is_some, none, not, ok, refl, some, subst, sym, true, ℕ, ◌&&◌, ◌==◌, ◌∙◌, ◌∷◌, ◌≡◌,
}
use herdr_mobile.Host.Scheduler.{PaneScheduler, FireOutcome, read, poll_read, rate_limited, fire}
use herdr_mobile.Host.Input.{WatchError}
use herdr_mobile.Host.Bridge.{Bridge, WatchedPane}
use herdr_mobile.Host.Watch.{
  RawPane, Reads, Config, Hash, Message, PaneFrame, WatchAck, pane_frame, pane_closed, find_pane,
  new_width, refresh, resync_found, resync_watched, resync_option, watch_read, start_watch, watches,
  unwatch_pane,
}
use herdr_mobile.Host.Watch.Poll.{
  emit_frame, after_fire, poll_with, rows_differ, revise, pane_updated, pane_updated_option,
}

-- The last frame that was sent is of the watched pane, and its hash is the one that is kept.
abbrev pub Shows : Hash → Option WatchedPane → Option PaneFrame → Type 0
Shows hash none last = Unit
Shows hash (some w) last =
    (f : PaneFrame) × (last ≡ some f)
    × (f.pane_id ≡ w.pane_id)
    × (hash f.text f.viewport_rows f.width ≡ w.last_frame_hash)

-- There is a scheduler exactly while a pane is watched.
abbrev pub IsShown : Hash → Bridge → Option PaneFrame → Type 0
IsShown hash b last = (is_some b.watched ≡ is_some b.scheduler) × Shows hash b.watched last

-- The frame sent last, after one that may be sent.
abbrev pub latest : Option PaneFrame → Option PaneFrame → Option PaneFrame
latest none last = last
latest (some f) last = some f

abbrev pub frame_in : List Message → Option PaneFrame
frame_in [] = none
frame_in (pane_frame f ∷ messages) = some f
frame_in (pane_closed ∷ messages) = frame_in messages

abbrev pub sent_by : Result WatchError (List Message) → Option PaneFrame
sent_by (err e) = none
sent_by (ok messages) = frame_in messages

abbrev pub watch_frame : Result WatchError (WatchAck × PaneFrame) → Option PaneFrame
watch_frame (err e) = none
watch_frame (ok (ack, frame)) = some frame

-- What a step leaves: the bridge, and the frame it sends.
abbrev Keeps : Hash → Option PaneFrame → Bridge × Option PaneFrame → Type 0
Keeps hash last (b, sent) = IsShown hash b (latest sent last)

pub watch_read-IsShown :
    (hash : Hash) (config : Config) (b : Bridge) (pane_id : Bytes) (now : ℕ)
    (answer : Result WatchError (RawPane × ℕ × Bytes)) (last : Option PaneFrame)
    → IsShown hash b last
    → (let (b', result) = watch_read hash config b pane_id now answer in
        IsShown hash b' (latest (watch_frame result) last))
unfolding watch_read start_watch
watch_read-IsShown hash config b pane_id now (err e) last shown = shown
watch_read-IsShown hash config b pane_id now (ok (pane, width, text)) last shown =
    (refl, (_, refl, refl, refl))

pub unwatch_pane-IsShown :
    (hash : Hash) (b : Bridge) (pane_id : Bytes) (last : Option PaneFrame)
    → IsShown hash b last
    → IsShown hash (unwatch_pane b pane_id) last
unfolding unwatch_pane
unwatch_pane-IsShown hash b pane_id last shown = elim (Bool-cases (watches b pane_id)) [
  | inl e ↦ rw e (refl, tt)
  | inr e ↦ rw e shown
]

refresh-IsShown :
    (hash : Hash) (reads : Reads) (b : Bridge) (w : WatchedPane) (pane : RawPane)
    (last : Option PaneFrame)
    → b.watched ≡ some w
    → IsShown hash b last
    → (let (b', result) = refresh hash reads b w pane in
        IsShown hash b' (latest (sent_by result) last))
unfolding refresh
refresh-IsShown hash reads b w pane last watched shown =
    elim (Bool-cases (pane.revision == w.last_revision)) [
      | inl same ↦ rw same shown
      | inr moved ↦ elim (Option-cases (new_width reads w pane.scroll.viewport_rows)) [
        | inl e ↦ rw (moved, e) shown
        | inr (width, e) ↦ elim (Option-cases (reads.visible_text w.pane_id)) [
          | inl e' ↦ rw (moved, e, e') shown
          | inr (text, e') ↦
              rw (moved, e, e') (sym (ap is_some watched) ∙ shown.0, (_, refl, refl, refl))
        ]
      ]
    ]

resync_watched-IsShown :
    (hash : Hash) (reads : Reads) (b : Bridge) (w : WatchedPane) (panes : Option (List RawPane))
    (last : Option PaneFrame)
    → b.watched ≡ some w
    → IsShown hash b last
    → (let (b', result) = resync_watched hash reads b w panes in
        IsShown hash b' (latest (sent_by result) last))
unfolding resync_watched resync_found
resync_watched-IsShown hash reads b w none last watched shown = shown
resync_watched-IsShown hash reads b w (some panes) last watched shown =
    elim (Option-cases (find_pane w.pane_id panes)) [
      | inl gone ↦ rw gone (refl, tt)
      | inr (pane, found) ↦ rw found (refresh-IsShown hash reads b w pane last watched shown)
    ]

pub resync_option-IsShown :
    (hash : Hash) (reads : Reads) (b : Bridge) (watched : Option WatchedPane)
    (last : Option PaneFrame)
    → b.watched ≡ watched
    → IsShown hash b last
    → (let (b', result) = resync_option hash reads b watched in
        IsShown hash b' (latest (sent_by result) last))
resync_option-IsShown hash reads b none last e shown = shown
resync_option-IsShown hash reads b (some w) last e shown =
    resync_watched-IsShown hash reads b w reads.panes last e shown

emit_frame-IsShown :
    (hash : Hash) (b : Bridge) (w : WatchedPane) (polls : Bool) (text : Option Bytes)
    (last : Option PaneFrame)
    → b.watched ≡ some w
    → IsShown hash b last
    → Keeps hash last (emit_frame hash b w polls text)
unfolding emit_frame
emit_frame-IsShown hash b w polls none last watched shown = shown
emit_frame-IsShown hash b w polls (some text) last watched shown =
    elim (Bool-cases (polls && (hash text w.viewport_rows w.width == w.last_frame_hash))) [
      | inl same ↦ rw same shown
      | inr news ↦ rw news (sym (ap is_some watched) ∙ shown.0, (_, refl, refl, refl))
    ]

after_fire-IsShown :
    (hash : Hash) (reads : Reads) (b : Bridge) (outcome : Option FireOutcome)
    (watched : Option WatchedPane) (last : Option PaneFrame)
    → b.watched ≡ watched
    → IsShown hash b last
    → Keeps hash last (after_fire hash reads b outcome watched)
unfolding after_fire
after_fire-IsShown hash reads b none watched last e shown = shown
after_fire-IsShown hash reads b (some rate_limited) watched last e shown = shown
after_fire-IsShown hash reads b (some read) none last e shown = shown
after_fire-IsShown hash reads b (some poll_read) none last e shown = shown
after_fire-IsShown hash reads b (some read) (some w) last e shown =
    emit_frame-IsShown hash b w false (reads.visible_text w.pane_id) last e shown
after_fire-IsShown hash reads b (some poll_read) (some w) last e shown =
    emit_frame-IsShown hash b w true (reads.visible_text w.pane_id) last e shown

pub poll_with-IsShown :
    (hash : Hash) (reads : Reads) (b : Bridge) (s : Option PaneScheduler) (now : ℕ)
    (last : Option PaneFrame)
    → b.scheduler ≡ s
    → IsShown hash b last
    → Keeps hash last (poll_with hash reads b s now)
unfolding poll_with
poll_with-IsShown hash reads b none now last e shown = shown
poll_with-IsShown hash reads b (some s) now last e shown =
    let (s', outcome) = fire s now in
    after_fire-IsShown hash reads (record b { scheduler = some s' }) outcome b.watched last refl
      (shown.0 ∙ ap is_some e, shown.1)

same_some : (s : Option PaneScheduler) (now : ℕ) → is_some (revise s now) ≡ is_some s
same_some none now = refl
same_some (some s) now = refl

pane_updated-IsShown :
    (hash : Hash) (reads : Reads) (b : Bridge) (w : WatchedPane) (revision : ℕ) (rows : Option ℕ)
    (now : ℕ) (last : Option PaneFrame)
    → b.watched ≡ some w
    → IsShown hash b last
    → IsShown hash (pane_updated reads b w revision rows now) last
unfolding pane_updated
pane_updated-IsShown hash reads b w revision rows now last e shown =
    elim (Bool-cases ((w.last_revision == revision) && not (rows_differ rows w))) [
      | inl seen ↦ rw seen shown
      | inr news ↦ rw news (
        sym (ap is_some e) ∙ (shown.0 ∙ sym (same_some b.scheduler now)),
        subst (λ watched. Shows hash watched last) e shown.1,
      )
    ]

pub pane_updated_option-IsShown :
    (hash : Hash) (reads : Reads) (b : Bridge) (watched : Option WatchedPane) (pane_id : Bytes)
    (revision : ℕ) (rows : Option ℕ) (now : ℕ) (last : Option PaneFrame)
    → b.watched ≡ watched
    → IsShown hash b last
    → IsShown hash (pane_updated_option reads b watched pane_id revision rows now) last
pane_updated_option-IsShown hash reads b none pane_id revision rows now last e shown = shown
pane_updated_option-IsShown hash reads b (some w) pane_id revision rows now last e shown =
    elim (Bool-cases (beq w.pane_id pane_id)) [
      | inr other ↦ rw other shown
      | inl same ↦ rw same (pane_updated-IsShown hash reads b w revision rows now last e shown)
    ]
