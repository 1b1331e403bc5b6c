-- ===== src/Hub/Session/World.antt =====
-- The handle map of session.rs over every interleaving of registrations, ends of connections and
-- disconnects.
use herdr_mobile.Base.{
  Bool, Bool-cases, Option, [], arith, false, inl, inr, length, suc, true, ℕ, ◌==◌, ◌||◌, ◌≡◌, ◌≤◌,
}
use herdr_mobile.Base.AssocMap.{length-remove-le}
use herdr_mobile.Hub.Limits.{IpAddr, IpRateLimiter}
use herdr_mobile.Hub.Session.{
  Handle, Tx, Role, Rooms, CloseFrame, register, owns_slot, disconnect, active_handles,
}
use herdr_mobile.Hub.Session.Registration.{length-register-le}
use herdr_mobile.Hub.Session.Disconnect.{disconnect_stale, disconnect_of_owns_slot}

-- The map and the limiter, the channels made so far, and which of them are closed.
pub record World : Type 0 where
  pub rooms : Rooms
  pub limiter : IpRateLimiter
  pub next : Tx
  pub closed : Tx → Bool

abbrev pub start : IpRateLimiter → World
start limiter = record { rooms = []; limiter = limiter; next = 0; closed = λ t. false }

abbrev pub joins : ℕ → World → Handle → Role → IpAddr → Bool → ℕ → World
joins max_handles w handle role ip pairing now =
    let out = register w.closed w.rooms handle role ip w.limiter max_handles pairing w.next now in
    record w { rooms = out.rooms; limiter = out.limiter; next = suc w.next }

-- A registration makes a new channel, whatever its answer. A receiver may be dropped at any time;
-- a connection disconnects only after it has dropped its own.
pub data Step (max_handles : ℕ) : World → World → Type 0 where
  registers :
      (w : World) (handle : Handle) (role : Role) (ip : IpAddr) (pairing : Bool) (now : ℕ)
      → Step max_handles w (joins max_handles w handle role ip pairing now)
  drops :
      (w : World) (t : Tx) → Step max_handles w (record w { closed = λ u. u == t || w.closed u })
  disconnects :
      (w : World) (handle : Handle) (role : Role) (mine : Tx) (peer_close : Option CloseFrame)
      → w.closed mine ≡ true
      → Step max_handles w (record w { rooms = (disconnect w.rooms handle role mine peer_close).0 })

pub data Reach (max_handles : ℕ) (w : World) : World → Type 0 where
  here : Reach max_handles w w
  next : {u v : World} → Reach max_handles w u → Step max_handles u v → Reach max_handles w v

module _ (max_handles : ℕ) where
  length-disconnect-le :
      (w : World) (handle : Handle) (role : Role) (mine : Tx) (peer_close : Option CloseFrame)
      → length (disconnect w.rooms handle role mine peer_close).0 ≤ length w.rooms
  length-disconnect-le w handle role mine peer_close =
      elim (Bool-cases (owns_slot w.rooms handle role mine)) [
        | inl owner ↦
            rw (disconnect_of_owns_slot w.rooms handle role mine peer_close owner)
              (length-remove-le handle w.rooms)
        | inr stale ↦ rw (disconnect_stale w.rooms handle role mine peer_close stale) (omega arith)
      ]

  -- Every step keeps the map within the cap.
  Step-le :
      {v w : World}
      → Step max_handles v w
      → length v.rooms ≤ max_handles
      → length w.rooms ≤ max_handles
  Step-le (registers w handle role ip pairing now) h =
      length-register-le w.closed w.rooms handle role ip w.limiter max_handles pairing w.next now h
  Step-le (drops w t) h = h
  Step-le (disconnects w handle role mine peer_close shut) h =
      omega (arith, length-disconnect-le w handle role mine peer_close, h)

  Reach-le :
      {v w : World}
      → Reach max_handles v w
      → length v.rooms ≤ max_handles
      → length w.rooms ≤ max_handles
  Reach-le here h = h
  Reach-le (next r s) h = Step-le s (Reach-le r h)

-- From an empty map, through any interleaving of registrations, dropped receivers and disconnects,
-- the map holds at most `max_handles` rooms.
pub active_handles-le :
    (max_handles : ℕ) (limiter : IpRateLimiter) (w : World)
    → Reach max_handles (start limiter) w
    → active_handles w.rooms ≤ max_handles
unfolding active_handles
active_handles-le max_handles limiter w reach = Reach-le max_handles reach (omega arith)
