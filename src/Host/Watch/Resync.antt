-- ===== src/Host/Watch/Resync.antt =====
-- `resynchronize` of run_loop.rs, called twice.
use herdr_mobile.Base.{
  ==_iff, Bool-cases, List, Option, Option-cases, Result, [], ap, err, inl, inr, none, ok, refl,
  some, subst, ◌==◌, ◌∙◌, ◌≡◌,
}
use herdr_mobile.Host.Input.{WatchError}
use herdr_mobile.Host.Bridge.{Bridge, WatchedPane}
use herdr_mobile.Host.Watch.{
  RawPane, Reads, Hash, Message, find_pane, new_width, refresh, resync_found, resync_watched,
  resync_option, resynchronize,
}

-- A resynchronisation that succeeded has nothing left to send.
abbrev Settled : Hash → Reads → Bridge × Result WatchError (List Message) → Type 0
Settled hash reads (b, err e) = Unit
Settled hash reads (b, ok messages) = resynchronize hash reads b ≡ (b, ok [])

refresh_seen :
    (hash : Hash) (reads : Reads) (b : Bridge) (w : WatchedPane) (pane : RawPane)
    → pane.revision ≡ w.last_revision
    → refresh hash reads b w pane ≡ (b, ok [])
unfolding refresh
refresh_seen hash reads b w pane e =
    let same = (==_iff pane.revision w.last_revision).1 e in rw same refl

resynchronize_known :
    (hash : Hash) (reads : Reads) (b : Bridge) (w : WatchedPane) (panes : List RawPane)
    (pane : RawPane)
    → b.watched ≡ some w
    → reads.panes ≡ some panes
    → find_pane w.pane_id panes ≡ some pane
    → resynchronize hash reads b ≡ refresh hash reads b w pane
unfolding resynchronize resync_watched resync_found
resynchronize_known hash reads b w panes pane watched read found =
    ap (resync_option hash reads b) watched ∙ rw (read, found) refl

refresh-Settled :
    (hash : Hash) (reads : Reads) (b : Bridge) (w : WatchedPane) (panes : List RawPane)
    (pane : RawPane)
    → b.watched ≡ some w
    → reads.panes ≡ some panes
    → find_pane w.pane_id panes ≡ some pane
    → Settled hash reads (refresh hash reads b w pane)
unfolding refresh
refresh-Settled hash reads b w panes pane watched read found =
    elim (Bool-cases (pane.revision == w.last_revision)) [
      | inl same ↦
          let seen =
            refresh_seen hash reads b w pane ((==_iff pane.revision w.last_revision).0 same) in
          rw seen (resynchronize_known hash reads b w panes pane watched read found ∙ seen)
      | inr moved ↦ elim (Option-cases (new_width reads w pane.scroll.viewport_rows)) [
        | inl e ↦ rw (moved, e, refresh) tt
        | inr (width, e) ↦ elim (Option-cases (reads.visible_text w.pane_id)) [
          | inl e' ↦ rw (moved, e, e', refresh) tt
          | inr (text, e') ↦
              rw (moved, e, e', refresh)
                (resynchronize_known hash reads _ _ panes pane refl read found
                  ∙ refresh_seen hash reads _ _ pane refl)
        ]
      ]
    ]

resync_watched-Settled :
    (hash : Hash) (reads : Reads) (b : Bridge) (w : WatchedPane) (panes : Option (List RawPane))
    → b.watched ≡ some w
    → reads.panes ≡ panes
    → Settled hash reads (resync_watched hash reads b w panes)
unfolding resync_watched resync_found
resync_watched-Settled hash reads b w none watched read = tt
resync_watched-Settled hash reads b w (some panes) watched read =
    elim (Option-cases (find_pane w.pane_id panes)) [
      | inl gone ↦ rw gone (unfold resynchronize in refl)
      | inr (pane, found) ↦ rw found (refresh-Settled hash reads b w panes pane watched read found)
    ]

resync_option-Settled :
    (hash : Hash) (reads : Reads) (b : Bridge) (watched : Option WatchedPane)
    → b.watched ≡ watched
    → Settled hash reads (resync_option hash reads b watched)
resync_option-Settled hash reads b none e =
    unfold resynchronize in ap (resync_option hash reads b) e
resync_option-Settled hash reads b (some w) e =
    resync_watched-Settled hash reads b w reads.panes e refl

-- A resynchronisation that succeeds leaves nothing to send: a second one with the same answers of
-- Herdr changes nothing and sends nothing, whether the pane was gone, unchanged or read again.
pub resynchronize-resynchronize :
    (hash : Hash) (reads : Reads) (b b' : Bridge) (messages : List Message)
    → resynchronize hash reads b ≡ (b', ok messages)
    → resynchronize hash reads b' ≡ (b', ok [])
unfolding resynchronize
resynchronize-resynchronize hash reads b b' messages h =
    subst (Settled hash reads) h (resync_option-Settled hash reads b b.watched refl)
