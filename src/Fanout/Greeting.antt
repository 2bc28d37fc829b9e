-- ===== src/Fanout/Greeting.antt =====
-- Where the magic packet stands in what the clients of src/main.rs receive.
use rtltcp.Prelude.{ℕ, ◌≡◌, refl, true, false, List, [], ◌∷◌, ◌++◌}
use rtltcp.Io.Write.{socket_write_all}
use rtltcp.Stream.{write_round}
use rtltcp.Fanout.{
  Client, Fanout, connected, greet, give, write, At, connect, greeting, subscribe, broadcast,
  writing, Reach, begin, later,
}
use rtltcp.Fanout.Sub.{Sub}

-- With one client only.
abbrev pub alone : Client → Fanout
alone c = record { should_exit = false; cancelled = false; clients = c ∷ [] }

abbrev pub only : (c : Client) → At (alone c) c
only c = record { before = []; after = []; split = refl }

-- The master of the multi-client mode without a key is subscribed, and its writer runs, before it
-- is sent the magic packet: whatever the packet and the samples are, there is a reachable state in
-- which a greeted client has been sent a buffer of samples and then the packet.
pub master_race :
    (magic buf : List ℕ)
    → (s : Fanout) × (c : Client) × Reach magic s
      × At s c
      × (c.greeted ≡ true)
      × (c.socket.sent ≡ buf ++ magic)
unfolding write write_round socket_write_all
master_race magic buf =
    let c1 : Client = connected false [] in
    let c2 : Client = record c1 { subscribed = true } in
    let c3 : Client = give buf c2 in
    let c4 : Client = write false c3 in
    let r1 : Reach magic (alone c1) = later begin (connect false [] refl) in
    let r2 : Reach magic (alone c2) = later r1 (subscribe c1 (only c1) refl) in
    let r3 : Reach magic (alone c3) = later r2 (broadcast buf refl) in
    let r4 : Reach magic (alone c4) = later r3 (writing c3 (only c3) refl refl) in
    (
      alone (greet magic c4),
      greet magic c4,
      later r4 (greeting c4 (only c4) refl),
      only (greet magic c4),
      refl,
      refl,
    )
