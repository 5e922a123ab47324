-- ===== src/Sched/Stream/Frames.antt =====
-- SocketScheduler.h, the format of messages: frames one after another.
use coproto.Prelude.{
  ℕ, ◌≡◌, refl, sym, ap, ap₂, ◌∙◌, inl, inr, true, false, some, List, [], ◌∷◌, ◌++◌, arith,
  append_assoc, get_elem?, set, set_same, Option-cases, if◌then◌else◌,
}
use coproto.Wire.{meta_bytes}
use coproto.Sched.State.{SendOp, SocketFork}
use coproto.Sched.Stream.{
  Message, message_of, messages, data_frame, meta_frame, initiate, frames, forks_after,
}

pub frames-cons :
    (fs : List SocketFork) (m : Message) (ms : List Message) (f : SocketFork)
    → get_elem? fs m.fork ≡ some f
    → (frames fs (m ∷ ms)
        ≡ meta_frame f ++ (data_frame f m.bytes ++ frames (initiate fs m.fork f) ms))
      × (forks_after fs (m ∷ ms) ≡ forks_after (initiate fs m.fork f) ms)
frames-cons fs m ms f e = (rw (e, frames) refl, rw (e, forks_after) refl)

-- A fork that has been named is not named again.
initiate_same :
    (fs : List SocketFork) (i : ℕ) (f : SocketFork)
    → get_elem? fs i ≡ some f
    → f.initiated ≡ true
    → initiate fs i f ≡ fs
initiate_same fs i f e n = ap (set fs i) (λ j. record f { initiated = sym n j }) ∙ set_same fs i e

pub frames-named :
    (fs : List SocketFork) (m : Message) (ms : List Message) (f : SocketFork)
    → get_elem? fs m.fork ≡ some f
    → f.initiated ≡ true
    → (frames fs (m ∷ ms) ≡ data_frame f m.bytes ++ frames fs ms)
      × (forks_after fs (m ∷ ms) ≡ forks_after fs ms)
frames-named fs m ms f e n =
    let w = frames-cons fs m ms f e in
    let s = initiate_same fs m.fork f e n in
    (
      w.0
          ∙ ap
              (λ b.
                (if b then [] else meta_bytes f.local_id f.session_id)
                ++ (data_frame f m.bytes ++ frames (initiate fs m.fork f) ms))
              n
          ∙ ap (λ gs. data_frame f m.bytes ++ frames gs ms) s,
      w.1 ∙ ap (λ gs. forks_after gs ms) s,
    )

pub frames-new :
    (fs : List SocketFork) (m : Message) (ms : List Message) (f : SocketFork)
    → get_elem? fs m.fork ≡ some f
    → f.initiated ≡ false
    → frames fs (m ∷ ms)
      ≡ meta_bytes f.local_id f.session_id
        ++ (data_frame f m.bytes ++ frames (initiate fs m.fork f) ms)
frames-new fs m ms f e n =
    (frames-cons fs m ms f e).0
    ∙ ap
        (λ b.
          (if b then [] else meta_bytes f.local_id f.session_id)
          ++ (data_frame f m.bytes ++ frames (initiate fs m.fork f) ms))
        n

pub frames-append :
    (fs : List SocketFork) (ms ns : List Message)
    → frames fs (ms ++ ns) ≡ frames fs ms ++ frames (forks_after fs ms) ns
frames-append fs [] ns = refl
frames-append fs (m ∷ ms) ns = elim (Option-cases (get_elem? fs m.fork)) [
  | inl e ↦ ground (arith, e, frames-append fs ms ns)
  | inr (f, e) ↦
      let w = frames-cons fs m ms f e in
      let g = initiate fs m.fork f in
      let mf = meta_frame f in
      let df = data_frame f m.bytes in
      (frames-cons fs m (ms ++ ns) f e).0
      ∙ ap (λ x. mf ++ (df ++ x)) (frames-append g ms ns)
      ∙ ap (◌++◌ mf) (sym (append_assoc df (frames g ms) _))
      ∙ sym (append_assoc mf (df ++ frames g ms) _)
      ∙ ap₂ (λ x y. x ++ frames y ns) (sym w.0) (sym w.1)
]

pub forks_after-append :
    (fs : List SocketFork) (ms ns : List Message)
    → forks_after fs (ms ++ ns) ≡ forks_after (forks_after fs ms) ns
forks_after-append fs [] ns = refl
forks_after-append fs (m ∷ ms) ns = elim (Option-cases (get_elem? fs m.fork)) [
  | inl e ↦ rw (e, forks_after) (forks_after-append fs ms ns)
  | inr (f, e) ↦ rw (e, forks_after) (forks_after-append (initiate fs m.fork f) ms ns)
]

pub messages-append :
    (ops : List SendOp) (op : SendOp)
    → messages (ops ++ (op ∷ [])) ≡ messages ops ++ (message_of op ∷ [])
messages-append [] op = refl
messages-append (o ∷ ops) op = ap (◌∷◌ (message_of o)) (messages-append ops op)
