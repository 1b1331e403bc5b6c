-- ===== src/Hub/Limits/Frames.antt =====
-- `FrameRateLimiter` of routes/limits.rs: a window that starts anew, not one that slides.
use herdr_mobile.Base.{
  List, [], arith, if◌then◌else◌, leb, length, min, suc, ℕ, ◌++◌, ◌+◌, ◌-◌, ◌<◌, ◌∷◌, ◌≡◌, ◌≤◌,
}
use herdr_mobile.Hub.Limits.{window, FrameRateLimiter, new_frame_limiter, allow_frame}

-- The number of frames that are let through, and the limiter after them.
unfoldable pub count_frames : FrameRateLimiter → List ℕ → ℕ × FrameRateLimiter
count_frames l [] = (0, l)
count_frames l (now ∷ times) =
    let (n, l') = count_frames (allow_frame l now).0 times in
    if (allow_frame l now).1 then (suc n, l') else (n, l')

-- Every frame falls into the window that starts at `start`.
abbrev pub InWindow : ℕ → List ℕ → Type 0
InWindow start [] = Unit
InWindow start (now ∷ times) = (now < start + window) × InWindow start times

allow_frame_in :
    (l : FrameRateLimiter) (now : ℕ)
    → now < l.window_start + window
    → allow_frame l now ≡ (record l { count = l.count + 1 }, leb (l.count + 1) l.max_per_window)
unfolding allow_frame
allow_frame_in l now h = ground arith

-- In a window, the frames up to the maximum are let through and every one is counted.
pub count_frames_in :
    (l : FrameRateLimiter) (times : List ℕ)
    → InWindow l.window_start times
    → ((count_frames l times).0 ≡ min (length times) (l.max_per_window - l.count))
      × ((count_frames l times).1 ≡ record l { count = l.count + length times })
unfolding count_frames
count_frames_in l [] h = (omega arith, ground arith)
count_frames_in l (now ∷ times) h =
    let next : FrameRateLimiter = record l { count = l.count + 1 } in
    let (counted, state) = count_frames_in next times h.1 in
    rw (allow_frame_in l now h.0) (ground (arith, counted), ground (arith, state))

count_frames-append :
    (l : FrameRateLimiter) (xs ys : List ℕ)
    → (count_frames l (xs ++ ys)).0
      ≡ (count_frames l xs).0 + (count_frames (count_frames l xs).1 ys).0
unfolding count_frames
count_frames-append l [] ys = omega arith
count_frames-append l (x ∷ xs) ys = ground (arith, count_frames-append (allow_frame l x).0 xs ys)

-- A frame after the window is over starts another.
count_frames_new :
    (l : FrameRateLimiter) (now : ℕ) (times : List ℕ)
    → l.window_start + window ≤ now
    → 1 ≤ l.max_per_window
    → InWindow now times
    → (count_frames l (now ∷ times)).0 ≡ min (suc (length times)) l.max_per_window
unfolding count_frames allow_frame
count_frames_new l now times over some_room h =
    let next : FrameRateLimiter = record l { window_start = now; count = 1 } in
    ground (arith, count_frames_in next times h)

-- The limiter counts in windows that do not slide: of `n` frames just before the end of the
-- first window and `n` more from the moment at which it is over, all 2n are let through, for
-- every maximum n above 0, although any two of them may be a nanosecond apart.
pub count_frames_burst :
    (n start : ℕ) (before after : List ℕ) (now : ℕ)
    → 1 ≤ n
    → InWindow start before
    → length before ≡ n
    → start + window ≤ now
    → InWindow now after
    → suc (length after) ≡ n
    → (count_frames (new_frame_limiter n start) (before ++ now ∷ after)).0 ≡ n + n
unfolding new_frame_limiter
count_frames_burst n start before after now some_room b lb over a la =
    let l = new_frame_limiter n start in
    let (counted, state) = count_frames_in l before b in
    rw (count_frames-append l before (now ∷ after), counted, state)
      (omega (
        arith,
        count_frames_new (record l { count = 0 + length before }) now after over some_room a,
      ))
