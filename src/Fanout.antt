-- ===== src/Fanout.antt =====
-- The threads of src/main.rs around the broadcast channel, interleaved in any order: the one that
-- sends the samples, the ones that accept clients, and a writer for each client. The channel of the
-- crate tokio is as documented: a receiver gets what is sent after it subscribed, in order, and one
-- that lags loses the oldest buffers. Each socket has faults of its own.
pub mod Sub
pub mod Order
pub mod Greeting
use rtltcp.Prelude.{
  ℕ, ◌≡◌, Bool, true, false, not, ◌&&◌, ◌||◌, List, [], ◌∷◌, ◌++◌, map, if◌then◌else◌,
}
use rtltcp.Prelude.Loop.{Flow, again, break, state}
use rtltcp.Io.{ErrorKind, Outcome, done, failed}
use rtltcp.Io.Write.{Socket, Faults, socket_write_all}
use rtltcp.Stream.{Poll, TryRecv, got, empty, write_round}

-- A client that is `greets_first` is sent the magic packet before it is subscribed: the slaves of
-- `spawn_slave_acceptor`, and the masters of `run_proxy_multi`. The master of `run_serve_multi` is
-- subscribed first, and its writer, if there is no key, runs from then on. `given` is what was
-- broadcast since the client subscribed, `taken` what its writer took to write it, and `cut_short`
-- says that the writing of the magic packet failed: they are kept for the statements.
pub record Client : Type 0 where
  pub greets_first : Bool
  pub greeted : Bool
  pub cut_short : Bool
  pub subscribed : Bool
  pub ended : Bool
  pub socket : Socket
  pub queue : List (List ℕ)
  pub given : List (List ℕ)
  pub taken : List (List ℕ)

pub record Fanout : Type 0 where
  pub should_exit : Bool
  pub cancelled : Bool
  pub clients : List Client

abbrev pub connected : Bool → Faults → Client
connected greets_first faults = record {
  greets_first = greets_first;
  greeted = false;
  cut_short = false;
  subscribed = false;
  ended = false;
  socket = record { sent = []; faults = faults };
  queue = [];
  given = [];
  taken = [];
}

abbrev pub may_greet : Client → Bool
may_greet c = not c.greeted && (c.greets_first || c.subscribed)

abbrev pub may_subscribe : Client → Bool
may_subscribe c = not c.subscribed && (c.greeted || not c.greets_first)

-- The magic packet, written by the thread that accepts. A slave is subscribed also when that fails;
-- with a master the program would end. (That a `BufWriter` tries the rest of a failed write again when
-- it is dropped is left out.)
abbrev pub greeted_by : Client → Outcome Socket ErrorKind (Unit {0}) → Client
greeted_by c (done u k) = record c { greeted = true; cut_short = false; socket = k }
greeted_by c (failed e k) = record c { greeted = true; cut_short = true; socket = k }

abbrev pub greet : List ℕ → Client → Client
greet magic c = greeted_by c (socket_write_all magic c.socket)

abbrev pub give : List ℕ → Client → Client
give buf c =
    if c.subscribed
    then record c { queue = c.queue ++ (buf ∷ []); given = c.given ++ (buf ∷ []) }
    else c

-- What `try_recv` gives, and what it leaves.
abbrev pub next : List (List ℕ) → TryRecv
next [] = empty
next (buf ∷ queue) = got buf

abbrev pub rest : List (List ℕ) → List (List ℕ)
rest [] = []
rest (buf ∷ queue) = queue

abbrev pub head : List (List ℕ) → List (List ℕ)
head [] = []
head (buf ∷ queue) = buf ∷ []

abbrev pub is_break : Flow Socket → Bool
is_break (again k) = false
is_break (break k) = true

-- A round of the writer's loop; with the flag up it ends before it receives.
unfoldable pub write : Bool → Client → Client
write should_exit c =
    let round =
      write_round (record { should_exit = should_exit; received = next c.queue }) c.socket in
    record c {
      ended = is_break round;
      socket = state round;
      queue = if should_exit then c.queue else rest c.queue;
      taken = if should_exit then c.taken else c.taken ++ head c.queue;
    }

-- One client of the list changes.
pub record At (s : Fanout) (c : Client) : Type 0 where
  pub before : List Client
  pub after : List Client
  pub split : s.clients ≡ before ++ (c ∷ after)

abbrev pub put : {s : Fanout} {c : Client} → At s c → Client → Fanout
put {s} a c' = record s { clients = a.before ++ (c' ∷ a.after) }

pub data Step (magic : List ℕ) (s : Fanout) : Fanout → Type 0 where
  -- `accept`
  connect :
      (greets_first : Bool) (faults : Faults)
      → s.should_exit ≡ false
      → Step magic s (record s { clients = s.clients ++ (connected greets_first faults ∷ []) })
  -- `write_all(&magic)` and `flush`
  greeting : (c : Client) (a : At s c) → may_greet c ≡ true → Step magic s (put a (greet magic c))
  -- `tx.subscribe()`
  subscribe :
      (c : Client) (a : At s c)
      → may_subscribe c ≡ true
      → Step magic s (put a (record c { subscribed = true }))
  -- `btx.send(bytes)` of the read callback, or `utx.send` of the proxy
  broadcast :
      (buf : List ℕ)
      → s.cancelled ≡ false
      → Step magic s (record s { clients = map (give buf) s.clients })
  -- the channel overwrites the oldest buffer that a receiver has not read
  overrun : (c : Client) (a : At s c) → Step magic s (put a (record c { queue = rest c.queue }))
  -- a round of `write_client_loop`
  writing :
      (c : Client) (a : At s c)
      → c.subscribed ≡ true
      → c.ended ≡ false
      → Step magic s (put a (write s.should_exit c))
  -- the flag, by the signal handler or the cancel thread
  stop : Step magic s (record s { should_exit = true })
  -- the cancel thread ends the reading of the device
  cancel : Step magic s (record s { cancelled = true })

abbrev pub start : Fanout
start = record { should_exit = false; cancelled = false; clients = [] }

pub data Reach (magic : List ℕ) : Fanout → Type 0 where
  begin : Reach magic start
  later : {s t : Fanout} → Reach magic s → Step magic s t → Reach magic t
