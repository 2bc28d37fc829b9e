-- ===== src/Serve/Whole.antt =====
-- The client of `run_serve_single` of src/main.rs and the steps that write to it.
use mathlib.Core.Path.{subst}
use rtltcp.Prelude.{
  if_keeps, if◌then◌else◌, ℕ, ◌+◌, ◌%◌, ◌≡◌, refl, sym, ap, ◌∙◌, inl, inr, true, false, List, [],
  some, ◌∷◌, ◌++◌, length, arith,
}
use rtltcp.Prelude.Loop.{Flow, again, break, state}
use rtltcp.Io.{broken_pipe, ◌>>◌}
use rtltcp.Io.Write.{Socket}
use rtltcp.Io.BufWriter.{empty, buffered_write_all, flush, write_flush}
use rtltcp.Bytes.{u64_mod}
use rtltcp.Server.{Controller}
use rtltcp.Server.Thread.{Thread, control_round}
use rtltcp.Server.Thread.Single.{plain, single_command, chain_detect_ack}
use rtltcp.Serve.{
  control_of, wire, CancelThread, waiting, stopping, finished, round, Running, writer, accepts,
  try_send, after_samples, on_samples, after_round, found, on_cancel, step,
}
use rtltcp.Serve.Replies.{healthy, Replied, control_round_replies}

-- The buffers, whole and in their order, and acknowledgements between them.
pub data Sent : List (List ℕ) → List ℕ → Type 0 where
  nothing : Sent [] []
  buffer :
      {bufs : List (List ℕ)} {out : List ℕ} (b : List ℕ)
      → Sent bufs out
      → Sent (bufs ++ (b ∷ [])) (out ++ b)
  reply :
      {bufs : List (List ℕ)} {out : List ℕ} → Sent bufs out → Sent bufs (out ++ chain_detect_ack)

module _ (device : Controller) where
  -- `bufs` were sent, and `n` bytes were counted.
  pub record Whole (bufs : List (List ℕ)) (n : ℕ) (s : Running device) : Type 0 where
    pub out : List ℕ
    pub outgoing : s.control.stream.outgoing ≡ healthy out
    pub sent : Sent bufs out
    pub buffered_empty : s.buffered ≡ []
    pub connected : s.shut_down ≡ false
    pub counted : s.total_bytes_sent ≡ n % u64_mod

  pub same_wire :
      (bufs : List (List ℕ)) (n : ℕ) (s t : Running device)
      → Whole bufs n s
      → t.control.stream.outgoing ≡ s.control.stream.outgoing
      → t.buffered ≡ s.buffered
      → t.total_bytes_sent ≡ s.total_bytes_sent
      → t.shut_down ≡ s.shut_down
      → Whole bufs n t
  same_wire bufs n s t w o b c d = record {
    out = w.out;
    outgoing = o ∙ w.outgoing;
    sent = w.sent;
    buffered_empty = b ∙ w.buffered_empty;
    connected = d ∙ w.connected;
    counted = c ∙ w.counted;
  }

  pub try_send-Whole :
      (bufs : List (List ℕ)) (n : ℕ) (s : Running device)
      → Whole bufs n s
      → Whole bufs n (try_send device s)
  try_send-Whole bufs n s w =
      if_keeps (Whole bufs n) (accepts device s) (record s { pending = true }) s
        (λ a. same_wire bufs n s _ w refl refl refl refl) (λ a. w)

  pub wire-Whole :
      (bufs : List (List ℕ)) (n : ℕ) (s : Running device) (w : Whole bufs n s)
      → wire device s ≡ healthy w.out
  wire-Whole bufs n s w =
      ap
        (λ b.
          if b
          then record { sent = s.control.stream.outgoing.sent; faults = some (0, broken_pipe) ∷ [] }
          else s.control.stream.outgoing)
        w.connected
      ∙ w.outgoing

  pub after_round-Whole :
      (bufs : List (List ℕ)) (n now : ℕ) (s : Running device)
      → Whole bufs n s
      → Whole bufs n (step device (round now) s)
  unfolding step after_round
  after_round-Whole bufs n now s w =
      if_keeps (Whole bufs n) s.control_ended s _ (λ h. w)
        (λ h.
          go
            (control_round plain (single_command device) (found device s now) 0
              (control_of device s))
            (control_round_replies device w.out (found device s now) 0 (control_of device s)
              (wire-Whole bufs n s w)))
    where
      replied : (k : Socket) → Replied w.out k → (out : List ℕ) × (k ≡ healthy out) × Sent bufs out
      replied k (inl e) = (w.out, e, w.sent)
      replied k (inr e) = (w.out ++ chain_detect_ack, e, reply w.sent)

      go :
          (f : Flow (Thread device.Handle (Unit {0})))
          → Replied w.out (state f).stream.outgoing
          → Whole bufs n (after_round device s f)
      go (again t) h =
          let (out, e, sent) = replied t.stream.outgoing h in
          record {
            out = out;
            outgoing = e;
            sent = sent;
            buffered_empty = w.buffered_empty;
            connected = w.connected;
            counted = w.counted;
          }
      go (break t) h =
          let (out, e, sent) = replied t.stream.outgoing h in
          record {
            out = out;
            outgoing = e;
            sent = sent;
            buffered_empty = w.buffered_empty;
            connected = w.connected;
            counted = w.counted;
          }

  add_counted : (a b : ℕ) → (a % u64_mod + b) % u64_mod ≡ (a + b) % u64_mod
  add_counted a b = omega arith

  pub writer-Whole :
      (bufs : List (List ℕ)) (n : ℕ) (s : Running device) (w : Whole bufs n s)
      → writer device s ≡ empty s.capacity w.out
  writer-Whole bufs n s w = λ i. record {
    capacity = s.capacity;
    buf = w.buffered_empty i;
    inner = wire-Whole bufs n s w i;
  }

  pub on_samples-Whole :
      (bufs : List (List ℕ)) (n : ℕ) (b : List ℕ) (s : Running device)
      → Whole bufs n s
      → Whole (bufs ++ (b ∷ [])) (n + length b) (on_samples device b s)
  unfolding on_samples after_samples
  on_samples-Whole bufs n b s w =
      let counted : Running device = record s {
        total_bytes_sent = (s.total_bytes_sent + length b) % u64_mod;
      } in
      let e =
        ap (buffered_write_all b >> flush) (writer-Whole bufs n s w)
        ∙ write_flush b w.out s.capacity in
      subst (λ o. Whole (bufs ++ (b ∷ [])) (n + length b) (after_samples device counted o)) (sym e)
        (record {
          out = w.out ++ b;
          outgoing = refl;
          sent = buffer b w.sent;
          buffered_empty = refl;
          connected = w.connected;
          counted = ap (λ m. (m + length b) % u64_mod) w.counted ∙ add_counted n (length b);
        })

  pub cancel-Whole :
      (bufs : List (List ℕ)) (n : ℕ) (c : CancelThread) (s : Running device)
      → Whole bufs n s
      → Whole bufs n (on_cancel device c s)
  unfolding on_cancel
  cancel-Whole bufs n waiting s w =
      if_keeps (Whole bufs n) s.pending (record s { pending = false; cancel = stopping }) s
        (λ p. same_wire bufs n s _ w refl refl refl refl) (λ p. w)
  cancel-Whole bufs n stopping s w = same_wire bufs n s _ w refl refl refl refl
  cancel-Whole bufs n finished s w = w
