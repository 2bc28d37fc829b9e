-- ===== src/Io/BufWriter.antt =====
-- `BufWriter` of std over a socket, with a capacity that is not zero.
use rtltcp.Prelude.{
  ℕ, ◌-◌, ◌≡◌, refl, List, [], ◌∷◌, ◌++◌, length, drop, ltb, leb, if◌then◌else◌, append-nil, ap,
  ◌∙◌, Bool-cases, inl, inr,
}
use rtltcp.Io.{ErrorKind, Outcome, done, failed, Action, ◌>>◌, >>-done}
use rtltcp.Io.Write.{Socket, socket_write_all}

pub record BufWriter : Type 0 where
  pub capacity : ℕ
  pub buf : List ℕ
  pub inner : Socket

-- What was not written before an error is kept.
flushed : BufWriter → Outcome Socket ErrorKind (Unit {0}) → Outcome BufWriter ErrorKind (Unit {0})
flushed w (done u k) = done tt (record w { buf = []; inner = k })
flushed w (failed e k) =
    failed e (record w { buf = drop (length k.sent - length w.inner.sent) w.buf; inner = k })

flush_bytes : List ℕ → Action BufWriter ErrorKind (Unit {0})
unfolding flushed
flush_bytes [] w = done tt w
flush_bytes (b ∷ bs) w = flushed w (socket_write_all (b ∷ bs) w.inner)

-- The flush of the socket itself does nothing.
unfoldable pub flush : Action BufWriter ErrorKind (Unit {0})
unfolding flush_bytes
flush w = flush_bytes w.buf w

passed : BufWriter → Outcome Socket ErrorKind (Unit {0}) → Outcome BufWriter ErrorKind (Unit {0})
passed w (done u k) = done tt (record w { inner = k })
passed w (failed e k) = failed e (record w { inner = k })

-- What is as long as the buffer goes past it.
put_through : List ℕ → Action BufWriter ErrorKind (Unit {0})
unfolding passed
put_through bs w =
    if leb w.capacity (length bs)
    then passed w (socket_write_all bs w.inner)
    else done tt (record w { buf = w.buf ++ bs })

abbrev spare : BufWriter → ℕ
spare w = w.capacity - length w.buf

unfoldable pub buffered_write_all : List ℕ → Action BufWriter ErrorKind (Unit {0})
unfolding flush put_through
buffered_write_all bs w =
    if ltb (length bs) (spare w)
    then done tt (record w { buf = w.buf ++ bs })
    else if ltb (spare w) (length bs)
    then (flush >> put_through bs) w
    else put_through bs w

abbrev pub empty : ℕ → List ℕ → BufWriter
empty n sent = record { capacity = n; buf = []; inner = record { sent = sent; faults = [] } }

flush_whole :
    (bs sent : List ℕ) (n : ℕ)
    → flush (record { capacity = n; buf = bs; inner = record { sent = sent; faults = [] } })
      ≡ done tt (empty n (sent ++ bs))
unfolding flush flush_bytes flushed socket_write_all
flush_whole [] sent n = rw (append-nil sent)
flush_whole (b ∷ bs) sent n = refl

put_flush :
    (bs sent : List ℕ) (n : ℕ)
    → (put_through bs >> flush) (empty n sent) ≡ done tt (empty n (sent ++ bs))
unfolding put_through passed socket_write_all
put_flush bs sent n = elim (Bool-cases (leb n (length bs))) [
  | inl t ↦
      >>-done (put_through bs) flush {s = empty n sent} {s' = empty n (sent ++ bs)} (rw t refl)
      ∙ flush_whole [] (sent ++ bs) n
      ∙ ap (λ out. done tt (empty n out)) (append-nil (sent ++ bs))
  | inr t ↦
      >>-done (put_through bs) flush {s = empty n sent} {s' = record (empty n sent) { buf = bs }}
        (rw t refl)
      ∙ flush_whole bs sent n
]

-- Bytes that are written and flushed, with nothing in the buffer before, to a socket that takes all.
pub write_flush :
    (bs sent : List ℕ) (n : ℕ)
    → (buffered_write_all bs >> flush) (empty n sent) ≡ done tt (empty n (sent ++ bs))
unfolding buffered_write_all flush flush_bytes
write_flush bs sent n = elim (Bool-cases (ltb (length bs) (n - 0))) [
  | inl t ↦
      >>-done (buffered_write_all bs) flush {s = empty n sent}
        {s' = record (empty n sent) { buf = bs }} (rw t refl)
      ∙ flush_whole bs sent n
  | inr t ↦ elim (Bool-cases (ltb (n - 0) (length bs))) [
    | inl u ↦ whole (rw (t, u) refl)
    | inr u ↦ whole (rw (t, u) refl)
  ]
]
  where
    whole :
        buffered_write_all bs (empty n sent) ≡ put_through bs (empty n sent)
        → (buffered_write_all bs >> flush) (empty n sent) ≡ done tt (empty n (sent ++ bs))
    whole e =
        ap
          (λ o. elim o as (λ o. Outcome BufWriter ErrorKind (Unit {0})) [
            | done a s' ↦ flush s'
            | failed k s' ↦ failed k s'
          ])
          e
        ∙ put_flush bs sent n
