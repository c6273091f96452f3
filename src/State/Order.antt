-- ===== src/State/Order.antt =====
-- crates/fava-state/src/lib.rs, `event_is_newer`: the order by which one of two events wins.
use fava.Base.{true, false, ◌≡◌, ◌⊎◌, arith}
use fava.Nostr.{EventId, Timestamp}
use fava.State.Coordinate.{event_is_newer}

-- Of two events, given by creation time and identity, exactly one of three holds: the first is
-- newer, the second is newer, or they are the same pair and neither is newer.
pub event_is_newer_trichotomy :
    (a b : Timestamp × EventId)
    → ((event_is_newer a b ≡ true) × (event_is_newer b a ≡ false))
      ⊎ ((event_is_newer a b ≡ false) × (event_is_newer b a ≡ true))
      ⊎ ((event_is_newer a b ≡ false) × (event_is_newer b a ≡ false) × (a ≡ b))
unfolding event_is_newer
event_is_newer_trichotomy a b = ground arith

-- An event newer than a second, which is newer than a third, is newer than the third.
pub event_is_newer_trans :
    (a b c : Timestamp × EventId)
    → event_is_newer a b ≡ true
    → event_is_newer b c ≡ true
    → event_is_newer a c ≡ true
unfolding event_is_newer
event_is_newer_trans a b c h k = ground arith
