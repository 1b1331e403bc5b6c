-- ===== src/Hub/Limits.antt =====
-- The rate limiters: crates/herdr-relay-hub/src/routes/limits.rs. The clock's reading is an
-- argument of each call.
use herdr_mobile.Base.{
  Bool, Bytes, List, Option, [], false, if◌then◌else◌, leb, length, none, secs, some, true, ℕ, ◌++◌,
  ◌+◌, ◌-◌, ◌∷◌,
}
use herdr_mobile.Base.AssocMap.{Map, get, insert}
pub mod Sliding
pub mod Frames

abbrev pub window : ℕ
window = secs 1

-- Source addresses are their octets.
abbrev pub IpAddr : Type 0
IpAddr = Bytes

pub record IpRateLimiter : Type 0 where
  pub max_per_window : ℕ
  pub seen : Map (List ℕ)

unfoldable pub new_ip_limiter : ℕ → IpRateLimiter
new_ip_limiter n = record { max_per_window = n; seen = [] }

-- The entry of an address, `or_default`.
abbrev pub events_or_default : Option (List ℕ) → List ℕ
events_or_default none = []
events_or_default (some ts) = ts

abbrev pub events_of : IpRateLimiter → IpAddr → List ℕ
events_of l ip = events_or_default (get ip l.seen)

-- The `while` loop that pops the front. `duration_since` stops at 0, as `-` does.
unfoldable pub pop_expired : ℕ → List ℕ → List ℕ
pop_expired now [] = []
pop_expired now (t ∷ ts) =
    let rest = pop_expired now ts in if leb window (now - t) then rest else t ∷ ts

unfoldable pub allow : IpRateLimiter → IpAddr → ℕ → IpRateLimiter × Bool
allow l ip now =
    let events = pop_expired now (events_of l ip) in
    if leb l.max_per_window (length events)
    then (record l { seen = insert ip events l.seen }, false)
    else (record l { seen = insert ip (events ++ now ∷ []) l.seen }, true)

pub record FrameRateLimiter : Type 0 where
  pub max_per_window : ℕ
  pub window_start : ℕ
  pub count : ℕ

unfoldable pub new_frame_limiter : ℕ → ℕ → FrameRateLimiter
new_frame_limiter n now = record { max_per_window = n; window_start = now; count = 0 }

-- The window that a frame falls into: a new one when the old one is over.
unfoldable pub roll : FrameRateLimiter → ℕ → FrameRateLimiter
roll l now =
    if leb window (now - l.window_start) then record l { window_start = now; count = 0 } else l

unfoldable pub allow_frame : FrameRateLimiter → ℕ → FrameRateLimiter × Bool
unfolding roll
allow_frame l now =
    let rolled = roll l now in
    let counted = record rolled { count = rolled.count + 1 } in
    (counted, leb counted.count counted.max_per_window)
