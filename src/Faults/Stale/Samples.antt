-- ===== src/Faults/Stale/Samples.antt =====
-- What `receive` of faults/stale.py does to the samples.
use ros2_resilience.Prelude.{◌≡◌, true, some, arith}
use ros2_resilience.Faults.Stale.{StaleHold, take}

module _ {T : Type 0} (s : StaleHold T) (m : T) where
  pub receive-enabled : (take s m).0.enabled ≡ s.enabled
  unfolding take
  receive-enabled = ground arith

  pub receive-latest : (take s m).0.latest ≡ some m
  unfolding take
  receive-latest = ground arith

  -- a held sample stays, and is what is sent
  pub receive-held :
      {h : T}
      → s.enabled ≡ true
      → s.held ≡ some h
      → ((take s m).0.held ≡ some h) × ((take s m).1 ≡ h)
  unfolding take
  receive-held on held = ground arith
