-- ===== src/Fanout/Order.antt =====
-- The invariant of the clients of src/main.rs, in whatever order the threads run.
use rtltcp.Prelude.{
  ℕ, ◌≡◌, refl, sym, ap, ◌∙◌, Bool, true, false, Bool-cases, ◌⊎◌, inl, inr, zero, suc, take, List,
  [], ◌∷◌, ◌++◌, map, append-nil, append_assoc, concat, All, arith, if◌then◌else◌,
}
use rtltcp.Io.Write.{Socket, Faults, socket_write_all-cases}
use rtltcp.Prelude.Loop.{again, break, state}
use rtltcp.Stream.{got, write_round}
use rtltcp.Fanout.{
  Client, Fanout, connected, may_greet, may_subscribe, greet, give, next, rest, head, is_break,
  write, At, put, Step, connect, greeting, subscribe, broadcast, overrun, writing, stop, cancel,
  Reach, begin, later,
}
use rtltcp.Fanout.Sub.{Sub, Sub-snoc, Sub-drop}

concat-snoc : (xs : List (List ℕ)) (b : List ℕ) → concat (xs ++ (b ∷ [])) ≡ concat xs ++ b
concat-snoc [] b = append-nil b
concat-snoc (x ∷ xs) b = ap (λ bs. x ++ bs) (concat-snoc xs b) ∙ sym (append_assoc x (concat xs) b)

-- The first list is the beginning of the second.
abbrev pub Part : List ℕ → List ℕ → Type 0
Part xs ys = (more : List ℕ) × (ys ≡ xs ++ more)

take-Part : (n : ℕ) (bs : List ℕ) → Part (take n bs) bs
take-Part zero bs = (bs, refl)
take-Part (suc n) [] = ([], refl)
take-Part (suc n) (b ∷ bs) = let (more, e) = take-Part n bs in (more, ap (λ cs. b ∷ cs) e)

Part-whole : (xs : List ℕ) → Part xs xs
Part-whole xs = ([], sym (append-nil xs))

Part-append : (xs ys zs : List ℕ) → Part ys zs → Part (xs ++ ys) (xs ++ zs)
Part-append xs ys zs (more, e) = (more, ap (λ bs. xs ++ bs) e ∙ sym (append_assoc xs ys more))

Part-later : (xs ys zs : List ℕ) → Part xs ys → Part xs (ys ++ zs)
Part-later xs ys zs (more, e) = (more ++ zs, ap (λ bs. bs ++ zs) e ∙ append_assoc xs more zs)

Part-nil : (xs : List ℕ) → Part xs [] → xs ≡ []
Part-nil [] h = refl
Part-nil (x ∷ xs) (more, e) = cc

-- What a client was sent: of the magic packet, and then of the buffers that its writer took.
pub record Sent (magic sent : List ℕ) (greeted cut_short ended : Bool) (taken : List (List ℕ))
    : Type 0 where
  pub greeting : List ℕ
  pub samples : List ℕ
  pub all : sent ≡ greeting ++ samples
  pub of_magic : Part greeting magic
  pub before : greeted ≡ false → greeting ≡ []
  pub whole : greeted ≡ true → cut_short ≡ false → greeting ≡ magic
  pub of_taken : Part samples (concat taken)
  pub running : ended ≡ false → samples ≡ concat taken

abbrev pub SentTo : List ℕ → Client → Type 0
SentTo magic c = Sent magic c.socket.sent c.greeted c.cut_short c.ended c.taken

-- What holds of each client.
pub record IsServed (magic : List ℕ) (c : Client) : Type 0 where
  pub ordered : c.greets_first ≡ true → c.subscribed ≡ true → c.greeted ≡ true
  pub idle : c.subscribed ≡ false → (c.queue ≡ []) × (c.taken ≡ [])
  pub sent : c.greets_first ≡ true → SentTo magic c
  pub part : Sub (c.taken ++ c.queue) c.given

connected-IsServed :
    (magic : List ℕ) (b : Bool) (faults : Faults) → IsServed magic (connected b faults)
connected-IsServed magic b faults = record {
  ordered = λ f h. cc;
  idle = λ h. (refl, refl);
  sent = λ f. record {
    greeting = [];
    samples = [];
    all = refl;
    of_magic = (magic, refl);
    before = λ h. refl;
    whole = λ h. cc;
    of_taken = ([], refl);
    running = λ h. refl;
  };
  part = tt;
}

-- A client that has not been greeted has been sent nothing.
nothing_sent :
    (magic : List ℕ) (c : Client)
    → c.greeted ≡ false
    → c.taken ≡ []
    → SentTo magic c
    → c.socket.sent ≡ []
nothing_sent magic c fresh none v =
    v.all ∙ ap (λ g. g ++ v.samples) (v.before fresh) ∙ Part-nil v.samples (rw none at v.of_taken)

greeted_by-IsServed :
    (magic bs : List ℕ) (c : Client) (short : Bool) (fs : Faults)
    → may_greet c ≡ true
    → Part bs magic
    → (short ≡ false → bs ≡ magic)
    → IsServed magic c
    → IsServed magic (record c {
      greeted = true;
      cut_short = short;
      socket = record { sent = c.socket.sent ++ bs; faults = fs };
    })
greeted_by-IsServed magic bs c short fs may first full v = record {
  ordered = λ f h. refl;
  idle = v.idle;
  sent = λ f.
      let fresh : c.greeted ≡ false = ground arith in
      let alone : c.subscribed ≡ false = elim (Bool-cases c.subscribed) [
        | inl on ↦ cc (v.ordered f on)
        | inr off ↦ off
      ] in
      let none : c.taken ≡ [] = (v.idle alone).1 in
      let unsent : c.socket.sent ≡ [] = nothing_sent magic c fresh none (v.sent f) in
      record {
        greeting = bs;
        samples = [];
        all = ap (λ k. k ++ bs) unsent ∙ sym (append-nil bs);
        of_magic = first;
        before = λ h. cc;
        whole = λ h s. full s;
        of_taken = (concat c.taken, refl);
        running = λ h. sym (ap concat none);
      };
  part = v.part;
}

greet-IsServed :
    (magic : List ℕ) (c : Client)
    → may_greet c ≡ true
    → IsServed magic c
    → IsServed magic (greet magic c)
greet-IsServed magic c may v = elim (socket_write_all-cases magic c.socket) [
  | inl (fs, e) ↦
      rw e (greeted_by-IsServed magic magic c false fs may (Part-whole magic) (λ s. refl) v)
  | inr (n, k, fs, e) ↦
      rw e (greeted_by-IsServed magic (take n magic) c true fs may (take-Part n magic) (λ s. cc) v)
]

subscribe-IsServed :
    (magic : List ℕ) (c : Client)
    → may_subscribe c ≡ true
    → IsServed magic c
    → IsServed magic (record c { subscribed = true })
subscribe-IsServed magic c may v = record {
  ordered = λ f h. ground arith;
  idle = λ h. cc;
  sent = v.sent;
  part = v.part;
}

give-IsServed :
    (magic : List ℕ) (buf : List ℕ) (c : Client) → IsServed magic c → IsServed magic (give buf c)
give-IsServed magic buf c v = go c.subscribed refl
  where
    go :
        (on : Bool)
        → c.subscribed ≡ on
        → IsServed magic (
            if on
            then record c { queue = c.queue ++ (buf ∷ []); given = c.given ++ (buf ∷ []) }
            else c)
    go true on = record {
      ordered = v.ordered;
      idle = λ off. cc;
      sent = v.sent;
      part =
          rw (← append_assoc c.taken c.queue (buf ∷ []))
            (Sub-snoc buf (c.taken ++ c.queue) c.given v.part);
    }
    go false off = v

overrun-IsServed :
    (magic : List ℕ) (c : Client)
    → IsServed magic c
    → IsServed magic (record c { queue = rest c.queue })
overrun-IsServed magic c v = record {
  ordered = v.ordered;
  idle = λ off. let (q, t) = v.idle off in (ap rest q, t);
  sent = v.sent;
  part = go c.queue v.part;
}
  where
    go : (q : List (List ℕ)) → Sub (c.taken ++ q) c.given → Sub (c.taken ++ rest q) c.given
    go [] d = d
    go (b ∷ q) d = Sub-drop c.taken b q c.given d

-- A round that finds a buffer writes it, or a first part of it and ends the writer.
write_round-got :
    (buf : List ℕ) (k : Socket)
    → ((fs : Faults) × (write_round (record { should_exit = false; received = got buf }) k
          ≡ again (record { sent = k.sent ++ buf; faults = fs })))
      ⊎ ((n : ℕ) × (fs : Faults) × (write_round
              (record { should_exit = false; received = got buf })
              k
            ≡ break (record { sent = k.sent ++ take n buf; faults = fs })))
unfolding write_round
write_round-got buf k = elim (socket_write_all-cases buf k) [
  | inl (fs, e) ↦ inl (fs, rw e refl)
  | inr (n, x, fs, e) ↦ inr (n, fs, rw e refl)
]

-- The samples and what the writer has taken, with one more buffer of which a part was written.
wrote :
    (magic : List ℕ) (c : Client) (b part : List ℕ) (over : Bool)
    → c.ended ≡ false
    → Part part b
    → (over ≡ false → part ≡ b)
    → SentTo magic c
    → Sent magic (c.socket.sent ++ part) c.greeted c.cut_short over (c.taken ++ (b ∷ []))
wrote magic c b part over going first full v = record {
  greeting = v.greeting;
  samples = v.samples ++ part;
  all = ap (λ k. k ++ part) v.all ∙ append_assoc v.greeting v.samples part;
  of_magic = v.of_magic;
  before = v.before;
  whole = v.whole;
  of_taken =
      rw (v.running going, concat-snoc c.taken b) (Part-append (concat c.taken) part b first);
  running = λ h. rw (v.running going, full h) (sym (concat-snoc c.taken b));
}

write-IsServed :
    (magic : List ℕ) (should_exit : Bool) (c : Client)
    → c.subscribed ≡ true
    → c.ended ≡ false
    → IsServed magic c
    → IsServed magic (write should_exit c)
unfolding write write_round
write-IsServed magic true c on going v = record {
  ordered = v.ordered;
  idle = v.idle;
  sent = λ f. stopped (v.sent f);
  part = v.part;
}
  where
    stopped : SentTo magic c → Sent magic c.socket.sent c.greeted c.cut_short true c.taken
    stopped w = record {
      greeting = w.greeting;
      samples = w.samples;
      all = w.all;
      of_magic = w.of_magic;
      before = w.before;
      whole = w.whole;
      of_taken = w.of_taken;
      running = λ h. cc;
    }
write-IsServed magic false c on going v = go c.queue v.part
  where
    go :
        (q : List (List ℕ))
        → Sub (c.taken ++ q) c.given
        → IsServed magic (
            let round = write_round (record { should_exit = false; received = next q }) c.socket in
            record c {
              ended = is_break round;
              socket = state round;
              queue = rest q;
              taken = c.taken ++ head q;
            })
    go [] d = record {
      ordered = v.ordered;
      idle = λ off. cc;
      sent = λ f. rw (append-nil c.taken) (rw going at (v.sent f));
      part = rw (append-nil (c.taken)) d;
    }
    go (b ∷ q) d = elim (write_round-got b c.socket) [
      | inl (fs, e) ↦ rw e (record {
        ordered = v.ordered;
        idle = λ off. cc;
        sent = λ f. wrote magic c b b false going (Part-whole b) (λ h. refl) (v.sent f);
        part = rw (append_assoc c.taken (b ∷ []) q) d;
      })
      | inr (n, fs, e) ↦ rw e (record {
        ordered = v.ordered;
        idle = λ off. cc;
        sent = λ f. wrote magic c b (take n b) true going (take-Part n b) (λ h. cc) (v.sent f);
        part = rw (append_assoc c.taken (b ∷ []) q) d;
      })
    ]

module _ (P : Client → Type 0) where
  All-put :
      (before : List Client) (c c' : Client) (after : List Client)
      → (P c → P c')
      → All P (before ++ (c ∷ after))
      → All P (before ++ (c' ∷ after))
  All-put [] c c' after f h = (f h.0, h.1)
  All-put (b ∷ before) c c' after f h = (h.0, All-put before c c' after f h.1)

  All-map :
      (f : Client → Client)
      → ((c : Client) → P c → P (f c))
      → (cs : List Client) → All P cs
      → All P (map f cs)
  All-map f k [] h = tt
  All-map f k (c ∷ cs) h = (k c h.0, All-map f k cs h.1)

  All-snoc : (cs : List Client) (c : Client) → P c → All P cs → All P (cs ++ (c ∷ []))
  All-snoc [] c p h = (p, tt)
  All-snoc (b ∷ cs) c p h = (h.0, All-snoc cs c p h.1)

  -- A change of one client.
  put-All :
      (s : Fanout) (c c' : Client) (a : At s c)
      → (P c → P c')
      → All P s.clients
      → All P (put a c').clients
  put-All s c c' a f h = All-put a.before c c' a.after f (rw a.split at h)

Step-IsServed :
    (magic : List ℕ) {s t : Fanout}
    → Step magic s t
    → All (IsServed magic) s.clients
    → All (IsServed magic) t.clients
Step-IsServed magic {s} (connect b faults running) h =
    All-snoc (IsServed magic) s.clients (connected b faults) (connected-IsServed magic b faults) h
Step-IsServed magic {s} (greeting c a may) h =
    put-All (IsServed magic) s c (greet magic c) a (greet-IsServed magic c may) h
Step-IsServed magic {s} (subscribe c a may) h =
    put-All (IsServed magic) s c (record c { subscribed = true }) a (subscribe-IsServed magic c may)
      h
Step-IsServed magic {s} (broadcast buf reading) h =
    All-map (IsServed magic) (give buf) (give-IsServed magic buf) s.clients h
Step-IsServed magic {s} (overrun c a) h =
    put-All (IsServed magic) s c (record c { queue = rest c.queue }) a (overrun-IsServed magic c) h
Step-IsServed magic {s} (writing c a on going) h =
    put-All (IsServed magic) s c (write s.should_exit c) a
      (write-IsServed magic s.should_exit c on going) h
Step-IsServed magic stop h = h
Step-IsServed magic cancel h = h

pub Reach-IsServed : (magic : List ℕ) {s : Fanout} → Reach magic s → All (IsServed magic) s.clients
Reach-IsServed magic begin = tt
Reach-IsServed magic (later r st) = Step-IsServed magic st (Reach-IsServed magic r)
