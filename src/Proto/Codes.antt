-- ===== src/Proto/Codes.antt =====
-- The WebSocket close codes: `CloseCode` of crates/herdr-relay-proto/src/codes.rs.
use Prim.Native.String.{String}
use herdr_mobile.Base.{
  Option, ap, arith, if◌then◌else◌, is_some, none, refl, some, sym, true, ℕ, ◌==◌, ◌↔◌, ◌∙◌, ◌≡◌,
  ◌≤◌,
}

pub data CloseCode : Type 0 where
  normal going_away abnormal internal_error pairing_expired handle_unknown handle_taken : CloseCode
  protocol_error revoked handshake_failed host_in_use frame_too_large rate_limited : CloseCode

unfoldable pub close_code : CloseCode → ℕ
close_code normal = 1000
close_code going_away = 1001
close_code abnormal = 1006
close_code internal_error = 1011
close_code pairing_expired = 4000
close_code handle_unknown = 4001
close_code handle_taken = 4002
close_code protocol_error = 4003
close_code revoked = 4004
close_code handshake_failed = 4005
close_code host_in_use = 4006
close_code frame_too_large = 4007
close_code rate_limited = 4008

unfoldable pub name : CloseCode → Option String
name pairing_expired = some "pairing_expired"
name handle_unknown = some "handle_unknown"
name handle_taken = some "handle_taken"
name protocol_error = some "protocol_error"
name revoked = some "revoked"
name handshake_failed = some "handshake_failed"
name host_in_use = some "host_in_use"
name frame_too_large = some "frame_too_large"
name rate_limited = some "rate_limited"
name _ = none

-- The `match` on a numeral, as tests in its order.
unfoldable pub from_code : ℕ → Option CloseCode
from_code c =
    if c == 1000
    then some normal
    else if c == 1001
    then some going_away
    else if c == 1006
    then some abnormal
    else if c == 1011
    then some internal_error
    else if c == 4000
    then some pairing_expired
    else if c == 4001
    then some handle_unknown
    else if c == 4002
    then some handle_taken
    else if c == 4003
    then some protocol_error
    else if c == 4004
    then some revoked
    else if c == 4005
    then some handshake_failed
    else if c == 4006
    then some host_in_use
    else if c == 4007
    then some frame_too_large
    else if c == 4008
    then some rate_limited
    else none

from_code-close_code : (k : CloseCode) → from_code (close_code k) ≡ some k
unfolding from_code close_code
from_code-close_code normal = refl
from_code-close_code _ = refl

close_code-from_code : (c : ℕ) (k : CloseCode) → from_code c ≡ some k → close_code k ≡ c
unfolding from_code close_code
close_code-from_code c k h = ground arith

-- The numeric codes and the enum correspond one to one.
pub from_code_iff : (c : ℕ) (k : CloseCode) → (from_code c ≡ some k) ↔ (close_code k ≡ c)
from_code_iff c k = (close_code-from_code c k, λ e. ap from_code (sym e) ∙ from_code-close_code k)

-- The relay's own name stands for a code exactly when it is an application code.
pub name_iff : (k : CloseCode) → (is_some (name k) ≡ true) ↔ (4000 ≤ close_code k)
unfolding name close_code
name_iff k = (λ h. ground arith, λ h. ground arith)
