-- ===== src/Stream/Delivery.antt =====
-- What a client receives from `write_client_loop` of src/stream.rs.
use rtltcp.Prelude.{
  ℕ, ◌≡◌, Bool, true, false, List, [], ◌∷◌, ◌++◌, append-nil, append_assoc, if◌then◌else◌,
}
use rtltcp.Prelude.Loop.{again, break}
use rtltcp.Io.Write.{Socket, socket_write_all}
use rtltcp.Stream.{TryRecv, got, empty, closed, lagged, Poll, write_round, write_client_loop}

-- The buffers that come before the flag is up or the channel is closed, joined.
unfoldable pub delivered : List Poll → List ℕ
delivered [] = []
delivered (p ∷ ps) =
    let rest = delivered ps in
    if p.should_exit
    then []
    else (elim p.received [ got buf ↦ buf ++ rest | empty ↦ rest | closed ↦ [] | lagged n ↦ rest ])

-- The round finds the flag up or the channel closed.
abbrev pub stops : Poll → Bool
stops p = if p.should_exit then true else (elim p.received [ closed ↦ true | _ ↦ false ])

abbrev pub has_stop : List Poll → Bool
has_stop [] = false
has_stop (p ∷ ps) = if stops p then true else has_stop ps

-- To a client that takes every write, the loop sends exactly the buffers that the channel gave
-- before the first round that finds the flag up or the channel closed, whole and in their order,
-- whatever lags and idle rounds there are; and it has ended exactly if there is such a round.
pub write_client_loop-delivered :
    (ps : List Poll) (sent : List ℕ)
    → write_client_loop ps (record { sent = sent; faults = [] }) ≡ (
        let k : Socket = record { sent = sent ++ delivered ps; faults = [] } in
        if has_stop ps then break k else again k)
unfolding write_client_loop write_round delivered socket_write_all
write_client_loop-delivered [] sent = rw append-nil
write_client_loop-delivered (p ∷ ps) sent =
    go p.should_exit p.received (λ t. write_client_loop-delivered ps t)
  where
    go :
        (x : Bool) (r : TryRecv)
        → ((t : List ℕ)
            → write_client_loop ps (record { sent = t; faults = [] }) ≡ (
                let k : Socket = record { sent = t ++ delivered ps; faults = [] } in
                if has_stop ps then break k else again k))
        → write_client_loop
            (record { should_exit = x; received = r } ∷ ps)
            (record { sent = sent; faults = [] })
          ≡ (let qs : List Poll = record { should_exit = x; received = r } ∷ ps in
              let k : Socket = record { sent = sent ++ delivered qs; faults = [] } in
              if has_stop qs then break k else again k)
    go true r ih = rw append-nil
    go false (got buf) ih = rw (← append_assoc sent buf (delivered ps)) (ih (sent ++ buf))
    go false empty ih = ih sent
    go false closed ih = rw append-nil
    go false (lagged n) ih = ih sent
