-- ===== src/Signals/Tests.antt =====
-- A change of state at a concrete input.
use chitcp.Delivery.{Time}

abbrev now : Time
now = record { sec = 1; nsec = 0 }
