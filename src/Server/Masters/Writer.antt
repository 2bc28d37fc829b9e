-- ===== src/Server/Masters/Writer.antt =====
-- The thread of `run_serve_multi` of src/main.rs that sends the samples to a master, up to its call
-- of `write_client_loop`: with a key it waits for the nonces and wraps the stream.
use Prim.Native.String.{String}
use rtltcp.Prelude.{
  ℕ, suc, ◌<◌, ◌≡◌, refl, false, true, not, List, [], ◌∷◌, ◌++◌, Option, none, some, length, arith,
  ◌==◌, ap, ◌∙◌, if◌then◌else◌,
}
use rtltcp.Io.{ok, done}
use rtltcp.Io.Duplex.{Duplex, send_all_whole, set_read_timeout}
use rtltcp.Io.Read.{Reader}
use rtltcp.Control.Whitelist.{Addresses, check_whitelist}
use rtltcp.Encryption.{StreamCipher}
use rtltcp.Server.{Controller}
use rtltcp.Server.Thread.{Thread}
use rtltcp.Server.Thread.Master.{Session, master_loop}
use rtltcp.Server.Masters.{
  connection, Visit, Masters, set_timeouts, control_thread, after_join, after_magic, after_timeouts,
  on_checked, on_accept, master_round,
}

pub data Writer : Type 0 where
  plain waiting : Writer
  encrypting : List ℕ → List ℕ → Writer

-- The writer after some looks at the shared nonces.
unfoldable pub spawn_writer : Option (List ℕ) → List (Option (List ℕ × List ℕ)) → Writer
spawn_writer none looks = plain
spawn_writer (some key) [] = waiting
spawn_writer (some key) (none ∷ looks) = spawn_writer (some key) looks
spawn_writer (some key) (some (my_nonce, peer_nonce) ∷ looks) = encrypting key my_nonce

abbrev healthy_link : Reader → List ℕ → Duplex
healthy_link r sent = record { incoming = r; outgoing = record { sent = sent; faults = [] } }

pub set_timeouts-positive :
    (read_timeout write_timeout : ℕ) (d : Duplex)
    → 0 < read_timeout
    → 0 < write_timeout
    → set_timeouts read_timeout write_timeout d ≡ done tt d
unfolding set_timeouts set_read_timeout
set_timeouts-positive read_timeout write_timeout d hr hw =
    let r_set : (read_timeout == 0) ≡ false = ground arith in
    let w_set : (write_timeout == 0) ≡ false = ground arith in
    rw (set_timeouts, set_read_timeout, r_set, w_set)

after_join-stays :
    (device : Controller) (cipher : StreamCipher) (net : Addresses) (magic : List ℕ)
    (key : Option (List ℕ)) (whitelist : List String) (read_timeout write_timeout : ℕ) (v : Visit)
    (s : Masters device.Handle) (t : Thread device.Handle (Session cipher.State))
    → v.exit_after ≡ false
    → after_join device cipher net magic key whitelist read_timeout write_timeout v s (some t)
      ≡ some (
          done true (record s { board = t.board; encryption_nonces = t.session.encryption_nonces }))
unfolding after_join
after_join-stays device cipher net magic key whitelist read_timeout write_timeout v s t h =
    ap
      (λ b. some (
        done (not b)
          (record s { board = t.board; encryption_nonces = t.session.encryption_nonces })))
      h

master_round-accepted :
    (device : Controller) (cipher : StreamCipher) (net : Addresses) (magic : List ℕ)
    (key : Option (List ℕ)) (whitelist : List String) (read_timeout write_timeout : ℕ) (v : Visit)
    (s : Masters device.Handle) (d : Duplex) (ip : String)
    → v.should_exit ≡ false
    → v.accept ≡ connection d ip
    → check_whitelist net ip whitelist ≡ ok tt
    → master_round device cipher net magic key whitelist read_timeout write_timeout v s
      ≡ on_checked device cipher net magic key whitelist read_timeout write_timeout v d ip s (ok tt)
unfolding master_round on_accept
master_round-accepted device cipher net magic key whitelist read_timeout write_timeout v s d ip
      running accepted passed =
    ap
      (λ b.
        if b
        then some (done false s)
        else on_accept device cipher net magic key whitelist read_timeout write_timeout v s
            v.accept)
      running
    ∙ ap (λ a. on_accept device cipher net magic key whitelist read_timeout write_timeout v s a)
        accepted
    ∙ ap
        (λ r.
          on_checked device cipher net magic key whitelist read_timeout write_timeout v d ip s r)
        passed

-- A master that passes the whitelist and takes the magic packet, positive time-outs, no exit flag,
-- and a control thread that leaves nonces behind: then the next master's control thread starts
-- without a cipher, but the writer of that master, if it looks before a new exchange, encrypts with
-- the key and the own nonce that the last master's control thread left.
pub nonces_reused :
    (device : Controller) (cipher : StreamCipher) (net : Addresses) (magic key : List ℕ)
    (whitelist : List String) (read_timeout write_timeout : ℕ) (v v' : Visit)
    (s : Masters device.Handle) (r : Reader) (sent : List ℕ) (ip : String) (d' : Duplex)
    (t : Thread device.Handle (Session cipher.State)) (mine peer : List ℕ)
    (looks : List (Option (List ℕ × List ℕ)))
    → 0 < read_timeout
    → 0 < write_timeout
    → v.should_exit ≡ false
    → v.exit_after ≡ false
    → v.accept ≡ connection (healthy_link r sent) ip
    → check_whitelist net ip whitelist ≡ ok tt
    → master_loop device cipher (some key) (suc (length r)) v.ticks (
        control_thread device cipher net magic
          (some key)
          whitelist
          read_timeout
          write_timeout
          v
          (healthy_link r (sent ++ magic))
          s)
      ≡ some t
    → t.session.encryption_nonces ≡ some (mine, peer)
    → (s' : Masters device.Handle) × (master_round device cipher net magic
          (some key)
          whitelist
          read_timeout
          write_timeout
          v
          s
        ≡ some (done true s'))
      × ((control_thread device cipher net magic
            (some key)
            whitelist
            read_timeout
            write_timeout
            v'
            d'
            s').session.read_cipher
          ≡ none)
      × (spawn_writer (some key) (s'.encryption_nonces ∷ looks) ≡ encrypting key mine)
unfolding on_checked after_timeouts after_magic control_thread spawn_writer
nonces_reused device cipher net magic key whitelist read_timeout write_timeout v v' s r sent ip d' t
      mine peer looks hr hw running stays accepted passed run left =
    let all : List (String × Duplex) = s.all_streams ++ ((ip, healthy_link r sent) ∷ []) in
    (
      record {
        board = t.board;
        encryption_nonces = t.session.encryption_nonces;
        all_streams = all;
      },
      master_round-accepted device cipher net magic (some key) whitelist read_timeout write_timeout
            v s (healthy_link r sent) ip running accepted passed
          ∙ rw
              (
                set_timeouts-positive read_timeout write_timeout (healthy_link r sent) hr hw,
                after_timeouts,
                send_all_whole magic r sent,
                after_magic,
                run,
              )
              (after_join-stays device cipher net magic (some key) whitelist read_timeout
                write_timeout v (record s { all_streams = all }) t stays),
      refl,
      rw left refl,
    )
