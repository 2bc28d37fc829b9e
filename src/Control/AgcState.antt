-- ===== src/Control/AgcState.antt =====
-- `AgcState` of src/control.rs: an atomic flag, whose two operations report whether it changed.
use rtltcp.Prelude.{Bool, true, not}

pub record AgcState : Type 0 where
  pub enabled : Bool

pub new : AgcState
new = record { enabled = true }

unfoldable pub enable : AgcState → AgcState × Bool
enable s = (record { enabled = true }, not s.enabled)

unfoldable pub disable : AgcState → AgcState × Bool
disable s = (record { enabled = Bool.false }, s.enabled)
