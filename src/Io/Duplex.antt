-- ===== src/Io/Duplex.antt =====
-- A connected stream: what will arrive on it, and the socket that it writes to.
use rtltcp.Prelude.{ℕ, suc, ◌≤◌, ◌≡◌, refl, List, [], ◌∷◌, ◌++◌, length, arith, ◌==◌, if◌then◌else◌}
use rtltcp.Io.{ErrorKind, unexpected_eof, invalid_input, Outcome, done, failed, Action, ◌>>=◌}
use rtltcp.Io.Read.{Reader, Recv, read_exact, rest, length-read_exact, read_exact_consumes}
use rtltcp.Io.Write.{Socket, socket_write_all}

pub record Duplex : Type 0 where
  pub incoming : Reader
  pub outgoing : Socket

on_incoming {ℓ} : {A : Type ℓ} → Socket → Outcome Reader ErrorKind A → Outcome Duplex ErrorKind A
on_incoming k (done a s) = done a (record { incoming = s; outgoing = k })
on_incoming k (failed e s) = failed e (record { incoming = s; outgoing = k })

on_outgoing {ℓ} : {A : Type ℓ} → Reader → Outcome Socket ErrorKind A → Outcome Duplex ErrorKind A
on_outgoing s (done a k) = done a (record { incoming = s; outgoing = k })
on_outgoing s (failed e k) = failed e (record { incoming = s; outgoing = k })

unfoldable pub recv_exact : ℕ → Action Duplex ErrorKind (List ℕ)
unfolding on_incoming
recv_exact n d = on_incoming d.outgoing (read_exact n d.incoming)

unfoldable pub send_all : List ℕ → Action Duplex ErrorKind (Unit {0})
unfolding on_outgoing
send_all bs d = on_outgoing d.incoming (socket_write_all bs d.outgoing)

-- A time-out of zero is refused. What a time-out does shows in what later reads find.
unfoldable pub set_read_timeout : ℕ → Action Duplex ErrorKind (Unit {0})
set_read_timeout timeout d = if timeout == 0 then failed invalid_input d else done tt d

abbrev pub final {ℓ} : {A : Type ℓ} → Outcome Duplex ErrorKind A → Duplex
final (done a d) = d
final (failed e d) = d

pub recv_exact_done :
    (n : ℕ) (d : Duplex) (bs : List ℕ) (s : Reader)
    → read_exact n d.incoming ≡ done bs s
    → recv_exact n d ≡ done bs (record d { incoming = s })
unfolding recv_exact
recv_exact_done n d bs s e = rw (e, on_incoming)

pub recv_exact_failed :
    (n : ℕ) (d : Duplex) (k : ErrorKind) (s : Reader)
    → read_exact n d.incoming ≡ failed k s
    → recv_exact n d ≡ failed k (record d { incoming = s })
unfolding recv_exact
recv_exact_failed n d k s e = rw (e, on_incoming)

pub recv_exact_eof :
    (n : ℕ) (d : Duplex)
    → d.incoming ≡ []
    → recv_exact (suc n) d ≡ failed unexpected_eof (record d { incoming = [] })
recv_exact_eof n d e =
    recv_exact_failed (suc n) d unexpected_eof [] (rw e (unfold read_exact in refl))

kept_outgoing :
    (k : Socket) (o : Outcome Reader ErrorKind (List ℕ)) → (final (on_incoming k o)).outgoing ≡ k
unfolding on_incoming
kept_outgoing k (done bs s) = refl
kept_outgoing k (failed e s) = refl

pub recv_exact_outgoing : (n : ℕ) (d : Duplex) → (final (recv_exact n d)).outgoing ≡ d.outgoing
unfolding recv_exact
recv_exact_outgoing n d = kept_outgoing d.outgoing (read_exact n d.incoming)

left_over :
    (k : Socket) (o : Outcome Reader ErrorKind (List ℕ)) (n : ℕ)
    → length (rest o) ≤ n
    → length (final (on_incoming k o)).incoming ≤ n
unfolding on_incoming
left_over k (done bs s) n h = h
left_over k (failed e s) n h = h

pub length-recv_exact :
    (n : ℕ) (d : Duplex) → length (final (recv_exact n d)).incoming ≤ length d.incoming
unfolding recv_exact
length-recv_exact n d =
    left_over d.outgoing (read_exact n d.incoming) _ (length-read_exact n d.incoming)

-- A read that is not at the end of the stream uses some of it up.
pub recv_exact_consumes :
    (n : ℕ) (d : Duplex) (v : Recv) (vs : Reader)
    → d.incoming ≡ v ∷ vs
    → length (final (recv_exact (suc n) d)).incoming ≤ length vs
unfolding recv_exact
recv_exact_consumes n d v vs e =
    rw e (left_over d.outgoing (read_exact (suc n) (v ∷ vs)) _ (read_exact_consumes n v vs))

pub send_all_incoming : (bs : List ℕ) (d : Duplex) → (final (send_all bs d)).incoming ≡ d.incoming
unfolding send_all
send_all_incoming bs d = ground arith

-- A chain of actions reads on, and never gives back.
pub >>=-reads :
    {A B : Type 0} (m : Action Duplex ErrorKind A) (f : A → Action Duplex ErrorKind B) (d : Duplex)
    (n : ℕ)
    → length (final (m d)).incoming ≤ n
    → ((a : A) (d' : Duplex) → length d'.incoming ≤ n → length (final (f a d')).incoming ≤ n)
    → length (final ((m >>= f) d)).incoming ≤ n
>>=-reads {A} m f d n h k = go (m d) h
  where
    go :
        (o : Outcome Duplex ErrorKind A)
        → length (final o).incoming ≤ n
        → length (final (((λ _. o) >>= f) d)).incoming ≤ n
    go (done a d') h = k a d' h
    go (failed e d') h = h

pub send_all_whole :
    (bs : List ℕ) (r : Reader) (sent : List ℕ)
    → send_all bs (record { incoming = r; outgoing = record { sent = sent; faults = [] } })
      ≡ done tt (record { incoming = r; outgoing = record { sent = sent ++ bs; faults = [] } })
unfolding send_all socket_write_all
send_all_whole bs r sent = refl
