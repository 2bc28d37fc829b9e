-- ===== src/Acceptor.antt =====
-- `spawn_slave_acceptor` of src/main.rs: the thread that takes read-only clients. What `accept`
-- would give is an argument of each round. (A stream's clone is the stream, and one that cannot be
-- cloned makes the thread panic, which is left out.)
pub mod Slots
use Prim.Native.String.{String}
use rtltcp.Prelude.{ℕ, suc, ◌+◌, Bool, List, [], ◌∷◌, ◌++◌, leb, if◌then◌else◌}
use rtltcp.Prelude.Loop.{Flow, again, break}
use rtltcp.Io.{ErrorKind, Result, ok, err, Outcome, done, failed}
use rtltcp.Io.Write.{Socket, socket_write_all}
use rtltcp.Error.{RtlTcpError}
use rtltcp.Control.Whitelist.{Addresses, check_whitelist}

pub data Accept : Type 0 where
  connection : Socket → String → Accept
  refused : ErrorKind → Accept

pub record Round : Type 0 where
  pub should_exit : Bool
  pub accept : Accept

-- The clients have a writer thread each; `all_streams` is kept for the shutdown.
pub record Acceptor : Type 0 where
  pub count : ℕ
  pub all_streams : List Socket
  pub clients : List (String × Socket)

-- The magic packet goes out before the client is subscribed; that it may fail is ignored.
abbrev pub sent_magic : Outcome Socket ErrorKind (Unit {0}) → Socket
sent_magic (done u k) = k
sent_magic (failed e k) = k

module _ (net : Addresses) (magic : List ℕ) (whitelist : List String) (max_slaves : ℕ) where
  admit : Socket → String → Result RtlTcpError (Unit {0}) → Acceptor → Acceptor
  admit stream ip (err e) a = a
  admit stream ip (ok u) a =
      let stream' : Socket = sent_magic (socket_write_all magic stream) in
      record {
        count = a.count + 1;
        all_streams = a.all_streams ++ (stream' ∷ []);
        clients = a.clients ++ ((ip, stream') ∷ []);
      }

  on_accept : Accept → Acceptor → Acceptor
  unfolding admit
  on_accept (connection stream ip) a = admit stream ip (check_whitelist net ip whitelist) a
  on_accept (refused e) a = a

  -- With all slots taken `accept` is not called.
  unfoldable pub accept_round : Round → Acceptor → Flow Acceptor
  unfolding on_accept
  accept_round r a =
      if r.should_exit
      then break a
      else if leb max_slaves a.count
      then again a
      else again (on_accept r.accept a)

  unfoldable pub accept_loop : List Round → Acceptor → Flow Acceptor
  accept_loop [] a = again a
  accept_loop (r ∷ rs) a = elim (accept_round r a) [
    | again a' ↦ accept_loop rs a'
    | break a' ↦ break a'
  ]

  unfoldable pub start : Acceptor
  start = record { count = 0; all_streams = []; clients = [] }
