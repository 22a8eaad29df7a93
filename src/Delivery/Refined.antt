-- ===== src/Delivery/Refined.antt =====
-- The moves of the delivery read as steps of its contract.
use rollpig_cloud.Base.{Option, none, some}
use rollpig_cloud.Store.{RoastReservation}
use rollpig_cloud.Delivery.Phases.{Route, phase_of}

-- A reservation before and after: there is none both times, or it went on as the contract allows.
pub data Refines : Option RoastReservation → Option RoastReservation → Type 0 where
  missing : Refines none none
  going_on :
      (r r' : RoastReservation) → Route (phase_of r) (phase_of r') → Refines (some r) (some r')
