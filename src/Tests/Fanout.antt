-- ===== src/Tests/Fanout.antt =====
-- Runs of the threads around the broadcast channel.
use rtltcp.Prelude.{ℕ, ◌≡◌, true, List, [], ◌∷◌, ◌++◌, none, some}
use rtltcp.Fanout.{Client, Fanout, connected, greet, give, At, Reach}
use rtltcp.Io.{broken_pipe}
use rtltcp.Fanout.Sub.{Sub}
use rtltcp.Fanout.Greeting.{master_race}

abbrev magic : List ℕ
magic = b'R' ∷ b'T' ∷ b'L' ∷ b'0' ∷ []

-- A slave that is greeted, loses the first buffer and is sent a part of the second.
abbrev slave0 : Client
slave0 = connected true (none ∷ some (1, broken_pipe) ∷ [])

abbrev slave1 : Client
slave1 = greet magic slave0

abbrev slave2 : Client
slave2 = record slave1 { subscribed = true }

abbrev slave3 : Client
slave3 = give (9 ∷ 10 ∷ []) (give (7 ∷ 8 ∷ []) slave2)

abbrev slave4 : Client
slave4 = record slave3 { queue = (9 ∷ 10 ∷ []) ∷ [] }

master_race_example :
    (s : Fanout) × (c : Client) × Reach magic s
    × At s c
    × (c.greeted ≡ true)
    × (c.socket.sent ≡ (7 ∷ 8 ∷ []) ++ magic)
master_race_example = master_race magic (7 ∷ 8 ∷ [])
