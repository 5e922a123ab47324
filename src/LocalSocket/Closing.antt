-- ===== src/LocalSocket/Closing.antt =====
-- LocalAsyncSock.h, `close`: what it completes, and what the two sockets do afterwards.
use coproto.Prelude.{
  ℕ, ◌≡◌, ◌≢◌, refl, true, Option, none, some, List, [], ◌∷◌, ◌++◌, arith, length, ne→==,
}
use coproto.ErrorCode.{ErrorCode, fails}
use coproto.LocalSocket.{
  OpPair, no_ops, Done, Side, other, SharedState, ec, inbound, send, recv, close, fail_pair,
}

-- The handles of the operations that wait in a pair, the receive first.
abbrev pub waiting : OpPair → List ℕ
waiting p =
    elim p.receiving [ none ↦ [] | some a ↦ a.handle ∷ [] ]
    ++ elim p.sending [ none ↦ [] | some a ↦ a.handle ∷ [] ]

abbrev pub handles : List Done → List ℕ
handles [] = []
handles (d ∷ ds) = d.handle ∷ handles ds

-- `close` completes every operation that waits, on both sockets and each once, and leaves none; both
-- sockets then have an error.
pub close_lem :
    (i : Side) (s : SharedState)
    → (handles (close i s).0 ≡ waiting (inbound i s) ++ waiting (inbound (other i) s))
      × (inbound i (close i s).1 ≡ no_ops)
      × (inbound (other i) (close i s).1 ≡ no_ops)
      × (fails (ec i (close i s).1) ≡ true)
      × (fails (ec (other i) (close i s).1) ≡ true)
unfolding close fail_pair
close_lem Side.left s = (ground arith, ground arith, ground arith, ground arith, ground arith)
close_lem Side.right s = (ground arith, ground arith, ground arith, ground arith, ground arith)

-- An operation on a socket that has an error.
on_failed :
    (j : Side) (t : SharedState) (h n : ℕ) (bytes : List ℕ) (injected : Option ErrorCode)
    → n ≢ 0
    → length bytes ≢ 0
    → fails (ec j t) ≡ true
    → (send j h bytes injected t ≡ some (record { handle = h; err = ec j t; bytes = [] } ∷ [], t))
      × (recv j h n injected t ≡ some (record { handle = h; err = ec j t; bytes = [] } ∷ [], t))
unfolding send recv
on_failed j t h n bytes none p q f =
    (rw (ne→== (length bytes) 0 q, f) refl, rw (ne→== n 0 p, f) refl)
on_failed j t h n bytes (some e) p q f =
    (rw (ne→== (length bytes) 0 q, f, f) refl, rw (ne→== n 0 p, f, f) refl)

close-fails : (i j : Side) (s : SharedState) → fails (ec j (close i s).1) ≡ true
close-fails Side.left Side.left s = (close_lem Side.left s).3
close-fails Side.left Side.right s = (close_lem Side.left s).4
close-fails Side.right Side.left s = (close_lem Side.right s).4
close-fails Side.right Side.right s = (close_lem Side.right s).3

-- After `close`, a send of some bytes or a receive that asks for some completes at once on either
-- socket with that socket's error and changes nothing, whatever the error injector gives.
pub after_close :
    (i j : Side) (s : SharedState) (h n : ℕ) (bytes : List ℕ) (injected : Option ErrorCode)
    → n ≢ 0
    → length bytes ≢ 0
    → (send j h bytes injected (close i s).1
        ≡ some (record { handle = h; err = ec j (close i s).1; bytes = [] } ∷ [], (close i s).1))
      × (recv j h n injected (close i s).1
          ≡ some (record { handle = h; err = ec j (close i s).1; bytes = [] } ∷ [], (close i s).1))
after_close i j s h n bytes injected p q =
    on_failed j (close i s).1 h n bytes injected p q (close-fails i j s)
