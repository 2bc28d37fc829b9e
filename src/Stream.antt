-- ===== src/Stream.antt =====
-- `write_client_loop` of src/stream.rs. The broadcast channel of the crate tokio is a parameter:
-- each round is given what the flag and the channel answer.
pub mod Delivery
use rtltcp.Prelude.{ℕ, Bool, true, false, List, [], ◌∷◌, if◌then◌else◌}
use rtltcp.Prelude.Loop.{Flow, again, break}
use rtltcp.Io.{ErrorKind, Outcome, done, failed}
use rtltcp.Io.Write.{Socket, socket_write_all}

abbrev pub default_broadcast_capacity : ℕ
default_broadcast_capacity = 64

pub data TryRecv : Type 0 where
  got : List ℕ → TryRecv
  empty closed : TryRecv
  lagged : ℕ → TryRecv

pub record Poll : Type 0 where
  pub should_exit : Bool
  pub received : TryRecv

after_write : Outcome Socket ErrorKind (Unit {0}) → Flow Socket
after_write (done u k) = again k
after_write (failed e k) = break k

-- After a lag or with nothing to send the loop goes on.
unfoldable pub on_received : TryRecv → Socket → Flow Socket
unfolding after_write
on_received (got buf) k = after_write (socket_write_all buf k)
on_received empty k = again k
on_received closed k = break k
on_received (lagged n) k = again k

unfoldable pub write_round : Poll → Socket → Flow Socket
unfolding on_received
write_round p k = if p.should_exit then break k else on_received p.received k

-- The loop over what the rounds find: `break` once it has ended, `again` if it still runs when the
-- list is used up.
unfoldable pub write_client_loop : List Poll → Socket → Flow Socket
write_client_loop [] k = again k
write_client_loop (p ∷ ps) k = elim (write_round p k) [
  | again k' ↦ write_client_loop ps k'
  | break k' ↦ break k'
]
