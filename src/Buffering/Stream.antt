-- ===== src/Buffering/Stream.antt =====
-- BufferingSocket.h: what comes into the socket and what it delivers.
use mathlib.Core.Path.{subst}
use coproto.Prelude.{
  ℕ, ◌+◌, ◌≤◌, ◌<◌, ◌≡◌, refl, sym, ap, ◌∙◌, ◌⊎◌, inl, inr, true, false, Option, none, some, List,
  [], ◌++◌, arith, leb, length, take, flatten, length-drop, take-append-drop, Bool-cases, leb→le,
}
use coproto.Prelude.Word.{u64_mod}
use coproto.ErrorCode.{fails, no_error}
use coproto.Buffering.{Waiting, Sock, Done, process_inbound, recv, close}
use coproto.Buffering.Bytes.{items, IsBuffer, length-items, checked-IsBuffer, pop_lem, push_lem}

-- A receive that waits wants more than there is.
abbrev pub Short : Option Waiting → ℕ → Type 0
Short none n = Unit {0}
Short (some w) n = n < w.count

pub record SockOk (s : Sock) : Type 0 where
  pub buffered : IsBuffer s.inbound_buffer
  pub short : Short s.inbound (length (items s.inbound_buffer))

-- The bytes that a call hands to a receive.
abbrev pub received : Option Done → List ℕ
received none = []
received (some d) = d.bytes

Short-le : (w : Option Waiting) (m n : ℕ) → m ≤ n → Short w n → Short w m
Short-le none m n h v = tt
Short-le (some w) m n h v = omega arith

not_leb : (a b : ℕ) → b < a → leb a b ≡ false
not_leb a b h = ground arith

-- What a call does to the receive that waits: it is left alone, or completed and taken off.
abbrev pub Meets : Option Waiting → Option Done → Sock → Type 0
Meets w done s =
    ((done ≡ none) × (s.inbound ≡ w))
    ⊎ ((x : Waiting) × (d : Done) × (w ≡ some x) × (done ≡ some d) × (s.inbound ≡ none))

-- The buffer after a push, for what waits.
pub process_cases :
    (w : Option Waiting) (bytes : List ℕ) (s : Sock)
    → s.inbound ≡ w
    → SockOk s
    → length (flatten (s.inbound_buffer.chunks)) + length bytes < u64_mod
    → (done : Option Done) × (s' : Sock) × (process_inbound bytes s ≡ some (done, s'))
      × (received done ++ items s'.inbound_buffer ≡ items s.inbound_buffer ++ bytes)
      × SockOk s'
      × Meets w done s'
      × (length (flatten s'.inbound_buffer.chunks)
          ≤ length (flatten s.inbound_buffer.chunks) + length bytes)
unfolding process_inbound
process_cases none bytes s e v room =
    let p = push_lem bytes s.inbound_buffer v.buffered room in
    let s' : Sock = record s { inbound_buffer = p.0 } in
    (
      none,
      s',
      rw (p.1, e) (ap (λ w. some (none, record s { inbound = w; inbound_buffer = p.0 })) e),
      p.2,
      record { buffered = p.3; short = subst (λ w. Short w (length (items p.0))) (sym e) tt },
      inl (refl, e),
      omega (arith, p.4),
    )
process_cases (some w) bytes s e v room =
    let p = push_lem bytes s.inbound_buffer v.buffered room in
    let s' : Sock = record s { inbound_buffer = p.0 } in
    elim (Bool-cases (leb w.count (p.0.size))) [
      | inl enough ↦
          let q = pop_lem w.count p.0 p.3 (leb→le _ _ enough) in
          (
            some (record { handle = w.handle; err = no_error; bytes = take w.count (items p.0) }),
            record s { inbound = none; inbound_buffer = q.0 },
            rw (p.1, e, enough, q.1) refl,
            ap (◌++◌ (take w.count (items p.0))) q.2 ∙ take-append-drop w.count (items p.0) ∙ p.2,
            record { buffered = q.3; short = tt },
            inr (w, _, refl, refl, refl),
            omega (arith, p.4, q.4),
          )
      | inr few ↦ (
        none,
        s',
        rw (p.1, e, few) (ap (λ w. some (none, record s { inbound = w; inbound_buffer = p.0 })) e),
        p.2,
        record {
          buffered = p.3;
          short =
              subst (λ w. Short w (length (items p.0))) (sym e)
                (ground (arith, length-items p.0 p.3, few));
        },
        inl (refl, e),
        omega (arith, p.4),
      )
    ]

-- Bytes that come in are delivered to the receive that waits, once they are enough, or kept: what
-- is delivered and what is left make up what there was and what came in, in order.
pub process_inbound-stream :
    (bytes : List ℕ) (s : Sock)
    → SockOk s
    → length (flatten (s.inbound_buffer.chunks)) + length bytes < u64_mod
    → (done : Option Done) × (s' : Sock) × (process_inbound bytes s ≡ some (done, s'))
      × (received done ++ items s'.inbound_buffer ≡ items s.inbound_buffer ++ bytes)
      × SockOk s'
process_inbound-stream bytes s v room =
    let c = process_cases s.inbound bytes s refl v room in (c.0, c.1, c.2, c.3, c.4)

-- A receive that completes leaves what waits alone, and one that waits is what waits.
abbrev pub Receives : ℕ → ℕ → Sock → Option Done → Sock → Type 0
Receives h n s done s' =
    ((d : Done) × (done ≡ some d) × (s'.inbound ≡ s.inbound))
    ⊎ ((done ≡ none) × (s'.inbound ≡ some (record { handle = h; count = n })))

pub recv_cases :
    (h n : ℕ) (s : Sock)
    → SockOk s
    → (done : Option Done) × (s' : Sock) × (recv h n s ≡ some (done, s'))
      × (received done ++ items s'.inbound_buffer ≡ items s.inbound_buffer)
      × SockOk s'
      × Receives h n s done s'
      × (length (flatten s'.inbound_buffer.chunks) ≤ length (flatten s.inbound_buffer.chunks))
unfolding recv
recv_cases h n s v =
    let b = s.inbound_buffer in
    let ok = checked-IsBuffer b v.buffered in
    elim (Bool-cases (leb n b.size)) [
      | inl enough ↦
          let q = pop_lem n b v.buffered (leb→le _ _ enough) in
          (
            some (record { handle = h; err = no_error; bytes = take n (items b) }),
            record s { inbound_buffer = q.0 },
            rw (ok, enough, q.1) refl,
            ap (◌++◌ (take n (items b))) q.2 ∙ take-append-drop n (items b),
            record {
              buffered = q.3;
              short =
                  Short-le s.inbound _ _ (omega (arith, ap length q.2, length-drop n (items b)))
                    v.short;
            },
            inl (_, refl, refl),
            q.4,
          )
      | inr few ↦ (
        none,
        record s { inbound = some (record { handle = h; count = n }) },
        rw (ok, few) refl,
        refl,
        record { buffered = v.buffered; short = ground (arith, length-items b v.buffered, few) },
        inr (refl, refl),
        omega arith,
      )
    ]

-- A receive takes the oldest bytes if there are enough of them, and waits otherwise.
pub recv-stream :
    (h n : ℕ) (s : Sock)
    → SockOk s
    → (done : Option Done) × (s' : Sock) × (recv h n s ≡ some (done, s'))
      × (received done ++ items s'.inbound_buffer ≡ items s.inbound_buffer)
      × SockOk s'
recv-stream h n s v = let c = recv_cases h n s v in (c.0, c.1, c.2, c.3, c.4)

-- After `close` a receive that asks for more than is buffered still waits: the socket's error is
-- not looked at.
pub recv-close :
    (h n : ℕ) (s : Sock)
    → SockOk s
    → s.inbound_buffer.size < n
    → (s' : Sock) × (recv h n (close s).1 ≡ some (none, s'))
      × (s'.inbound ≡ some (record { handle = h; count = n }))
      × (fails s'.ec ≡ true)
unfolding recv close
recv-close h n s v less =
    let t : Sock = record (close s).1 { inbound = some (record { handle = h; count = n }) } in
    (
      t,
      ground (
        arith,
        checked-IsBuffer s.inbound_buffer v.buffered,
        not_leb n (s.inbound_buffer.size) less,
      ),
      refl,
      ground arith,
    )
