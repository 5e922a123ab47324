-- ===== src/Buffering/Awaiter/Phases.antt =====
-- BufferingSocket.h, `SendRecvAwaiter`: the phases of a receive, and how a call of the socket moves it on.
use coproto.Prelude.{
  ℕ, ◌+◌, ◌≤◌, ◌≡◌, refl, sym, ap, ◌∙◌, ◌⊎◌, inl, inr, Bool, true, false, Option, none, some, List,
  [], ◌∷◌, ◌++◌, arith, length, flatten, append_assoc, append-nil,
}
use coproto.Buffering.{Waiting, Sock, Done}
use coproto.Buffering.Bytes.{items}
use coproto.Buffering.Stream.{SockOk, received, Meets}
use coproto.Buffering.Awaiter.{recvs, completed, Race, Event, note, step}

-- The bytes that have been handed over.
abbrev pub all_received : List Done → List ℕ
all_received [] = []
all_received (d ∷ ds) = d.bytes ++ all_received ds

abbrev pub waiting : ℕ → ℕ → Waiting
waiting h n = record { handle = h; count = n }

-- Not started; or waiting on the socket; or over, with the error that the awaiter shows.
abbrev pub Phase : ℕ → ℕ → Race → Type 0
Phase h n r =
    ((r.started ≡ false) × (r.awaiter.handle ≡ none) × (r.sock.inbound ≡ none) × (r.resumed ≡ []))
    ⊎ (((r.started ≡ true)
          × (r.awaiter.err ≡ none)
          × (r.awaiter.handle ≡ some h)
          × (r.sock.inbound ≡ some (waiting h n))
          × (r.resumed ≡ []))
        ⊎ ((r.started ≡ true)
            × (r.sock.inbound ≡ none)
            × (d : Done) × (r.resumed ≡ d ∷ [])
            × (r.awaiter.err ≡ some d.err)))

pub record Inv (h n : ℕ) (r : Race) : Type 0 where
  pub kind : r.awaiter.kind ≡ recvs n
  pub sock : SockOk r.sock
  pub phase : Phase h n r

abbrev pub held : Race → List ℕ
held r = all_received r.resumed ++ items r.sock.inbound_buffer

abbrev pub room_of : Race → ℕ
room_of r = length (flatten r.sock.inbound_buffer.chunks)

-- A step that returns, and where it gets.
abbrev pub Steps : ℕ → ℕ → Event → Race → List ℕ → Bool → Type 0
Steps h n e r bytes started =
    (r' : Race) × (step h e r ≡ some r')
    × Inv h n r'
    × (held r' ≡ held r ++ bytes)
    × (room_of r' ≤ room_of r + length bytes)
    × (r'.started ≡ started)

-- A socket with the same bytes, where nothing waits.
pub cleared : (s : Sock) → SockOk s → SockOk (record s { inbound = none })
cleared s v = record { buffered = v.buffered; short = tt }

pub held-nil : (r : Race) → held r ≡ held r ++ []
held-nil r = sym (append-nil (held r))

pub held_unresumed : (r : Race) → r.resumed ≡ [] → items r.sock.inbound_buffer ≡ held r ++ []
held_unresumed r z = ap (λ ds. all_received ds ++ items r.sock.inbound_buffer) (sym z) ∙ held-nil r

pub all_received-note :
    (done : Option Done) (ds : List Done)
    → all_received (note done ds) ≡ all_received ds ++ received done
all_received-note none ds = sym (append-nil (all_received ds))
all_received-note (some d) [] = append-nil d.bytes
all_received-note (some d) (x ∷ ds) =
    ap (◌++◌ x.bytes) (all_received-note (some d) ds)
    ∙ sym (append_assoc x.bytes (all_received ds) d.bytes)

-- A call of the socket has met the receive that waits.
abbrev pub called : Race → Option Done → Sock → Race
called r done s = record r {
  awaiter = completed done r.awaiter;
  sock = s;
  resumed = note done r.resumed;
}

pub called-kind : (r : Race) (done : Option Done) → (completed done r.awaiter).kind ≡ r.awaiter.kind
called-kind r none = refl
called-kind r (some d) = refl

pub called-Phase :
    (h n : ℕ) (r : Race) (done : Option Done) (s : Sock)
    → Phase h n r
    → Meets r.sock.inbound done s
    → Phase h n (called r done s)
called-Phase h n r none s p (inr (x, d, w, e, q)) = absurd (cc)
called-Phase h n r (some d) s p (inl (e, q)) = absurd (cc)
called-Phase h n r none s (inl (q, w, x, y)) (inl (e, i)) = inl (q, w, i ∙ x, y)
called-Phase h n r none s (inr (inl (q, w, x, y, z))) (inl (e, i)) = inr (inl (q, w, x, i ∙ y, z))
called-Phase h n r none s (inr (inr (q, x, y, z, w))) (inl (e, i)) = inr (inr (q, i ∙ x, y, z, w))
called-Phase h n r (some d) s (inl (q, w, x, y)) (inr (a, b, f, e, i)) =
    absurd (ground (arith, x, f))
called-Phase h n r (some d) s (inr (inl (q, w, x, y, z))) (inr (a, b, f, e, i)) =
    inr (inr (q, i, d, ap (note (some d)) z, refl))
called-Phase h n r (some d) s (inr (inr (q, x, y, z, w))) (inr (a, b, f, e, i)) =
    absurd (ground (arith, x, f))

pub after_call :
    (h n : ℕ) (e : Event) (r : Race) (bytes : List ℕ) (done : Option Done) (s : Sock)
    → Inv h n r
    → step h e r ≡ some (called r done s)
    → Meets r.sock.inbound done s
    → SockOk s
    → received done ++ items s.inbound_buffer ≡ items r.sock.inbound_buffer ++ bytes
    → length (flatten s.inbound_buffer.chunks) ≤ room_of r + length bytes
    → Steps h n e r bytes r.started
after_call h n e r bytes done s v q m ok stream fits = (
  called r done s,
  q,
  record {
    kind = called-kind r done ∙ v.kind;
    sock = ok;
    phase = called-Phase h n r done s v.phase m;
  },
  ap (λ x. x ++ items s.inbound_buffer) (all_received-note done r.resumed)
      ∙ append_assoc (all_received r.resumed) (received done) _
      ∙ ap (◌++◌ (all_received r.resumed)) stream
      ∙ sym (append_assoc (all_received r.resumed) (items r.sock.inbound_buffer) bytes),
  fits,
  refl,
)
