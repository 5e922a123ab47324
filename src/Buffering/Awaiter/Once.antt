-- ===== src/Buffering/Awaiter/Once.antt =====
-- BufferingSocket.h, `SendRecvAwaiter`: a receive and its stop callback, in any order with what the
-- socket does.
use mathlib.Core.Path.{subst}
use coproto.Prelude.{
  ℕ, ◌+◌, ◌≤◌, ◌<◌, ◌≡◌, refl, sym, ap, ◌∙◌, inl, inr, ◌↔◌, Bool, true, false, none, some, List, [],
  ◌∷◌, ◌++◌, arith, length, is_some, flatten, append_assoc, length-append,
}
use coproto.Prelude.Word.{u64_mod}
use coproto.ErrorCode.{fails}
use coproto.Buffering.{Sock}
use coproto.Buffering.Bytes.{items}
use coproto.Buffering.Stream.{SockOk}
use coproto.Buffering.Awaiter.{
  recvs, new_send_recv, Race, Event, starts, stops, closes, arrives, errs, run, arrivals,
}
use coproto.Buffering.Awaiter.Phases.{all_received, Phase, Inv, held, room_of, Steps, held-nil}
use coproto.Buffering.Awaiter.Steps.{step_stops, step_arrives, step_closes, step_errs, step_starts}

-- The operation is started at most once, and `setError` is given an error.
abbrev pub Proper : Bool → List Event → Type 0
Proper b [] = Unit {0}
Proper b (starts ∷ es) = (b ≡ false) × Proper true es
Proper b (errs e ∷ es) = (fails e ≡ true) × Proper b es
Proper b (stops ∷ es) = Proper b es
Proper b (closes ∷ es) = Proper b es
Proper b (arrives bytes ∷ es) = Proper b es

abbrev Runs : ℕ → ℕ → List Event → Race → Type 0
Runs h n es r =
    (r' : Race) × (run h es r ≡ some r') × Inv h n r' × (held r' ≡ held r ++ arrivals es)

and_then :
    (h n : ℕ) (e : Event) (es : List Event) (r : Race) (bytes : List ℕ) (started : Bool)
    → arrivals (e ∷ es) ≡ bytes ++ arrivals es
    → Steps h n e r bytes started
    → ((r' : Race)
        → Inv h n r'
        → r'.started ≡ started
        → room_of r' ≤ room_of r + length bytes
        → Runs h n es r')
    → Runs h n (e ∷ es) r
unfolding run
and_then h n e es r bytes started a (r', q, v, held_r', fits, st) next =
    let (r'', q', v', held_r'') = next r' v st fits in
    (
      r'',
      rw q q',
      v',
      held_r''
          ∙ ap (λ x. x ++ arrivals es) held_r'
          ∙ append_assoc (held r) bytes (arrivals es)
          ∙ ap (◌++◌ (held r)) (sym a),
    )

run_lem :
    (es : List Event) (h n : ℕ) (r : Race)
    → Inv h n r
    → Proper r.started es
    → room_of r + length (arrivals es) < u64_mod
    → Runs h n es r
unfolding run
run_lem [] h n r v p room = (r, refl, v, held-nil r)
run_lem (starts ∷ es) h n r v (u, p) room =
    and_then h n starts es r [] true refl (step_starts h n r v u)
      λ r' w st fits. run_lem es h n r' w (subst (λ b. Proper b es) (sym st) p) (omega arith)
run_lem (stops ∷ es) h n r v p room =
    and_then h n stops es r [] r.started refl (step_stops h n r v)
      λ r' w st fits. run_lem es h n r' w (subst (λ b. Proper b es) (sym st) p) (omega arith)
run_lem (closes ∷ es) h n r v p room =
    and_then h n closes es r [] r.started refl (step_closes h n r v)
      λ r' w st fits. run_lem es h n r' w (subst (λ b. Proper b es) (sym st) p) (omega arith)
run_lem (errs e ∷ es) h n r v (f, p) room =
    and_then h n (errs e) es r [] r.started refl (step_errs h n e r v f)
      λ r' w st fits. run_lem es h n r' w (subst (λ b. Proper b es) (sym st) p) (omega arith)
run_lem (arrives bytes ∷ es) h n r v p room =
    and_then h n (arrives bytes) es r bytes r.started refl
      (step_arrives h n bytes r v (omega (arith, length-append bytes (arrivals es))))
      λ r' w st fits.
        run_lem es h n r' w (subst (λ b. Proper b es) (sym st) p)
          (omega (arith, length-append bytes (arrivals es)))

abbrev pub new_race : ℕ → Sock → Race
new_race n s = record { awaiter = new_send_recv (recvs n); sock = s; started = false; resumed = [] }

resumed_once :
    (h n : ℕ) (r : Race)
    → Phase h n r
    → (length r.resumed ≤ 1)
      × ((length r.resumed ≡ 1) ↔ ((r.started ≡ true) × (is_some r.awaiter.err ≡ true)))
resumed_once h n r (inl (u, _, _, y)) =
    let z : length r.resumed ≡ 0 = ap length y in
    (omega arith, ((λ p. absurd (omega arith)), λ (p, _). absurd (ground (arith, u, p))))
resumed_once h n r (inr (inl (u, e, _, _, y))) =
    let z : length r.resumed ≡ 0 = ap length y in
    (omega arith, ((λ p. absurd (omega arith)), λ (_, p). absurd (ground (arith, e, p))))
resumed_once h n r (inr (inr (u, _, d, y, e))) =
    let z : length r.resumed ≡ 1 = ap length y in (omega arith, ((λ p. (u, ap is_some e)), λ p. z))

-- A receive on a socket where nothing waits, its stop callback, bytes that come in, `setError` and
-- `close`, in any order: no assertion fails; the receive is resumed at most once, and has been exactly
-- when it was started and its error is set; and what it was handed and what is left make up the
-- bytes that there were and those that came in, so a stop loses none.
pub receive_once :
    (es : List Event) (h n : ℕ) (s : Sock)
    → SockOk s
    → s.inbound ≡ none
    → Proper false es
    → length (flatten s.inbound_buffer.chunks) + length (arrivals es) < u64_mod
    → (r : Race) × (run h es (new_race n s) ≡ some r)
      × (all_received r.resumed ++ items r.sock.inbound_buffer
          ≡ items s.inbound_buffer ++ arrivals es)
      × (length r.resumed ≤ 1)
      × ((length r.resumed ≡ 1) ↔ ((r.started ≡ true) × (is_some r.awaiter.err ≡ true)))
receive_once es h n s v i p room =
    let (r, q, w, b) =
      run_lem es h n (new_race n s)
        (record { kind = refl; sock = v; phase = inl (refl, refl, i, refl) }) p room in
    let (le, once) = resumed_once h n r w.phase in (r, q, b, le, once)
