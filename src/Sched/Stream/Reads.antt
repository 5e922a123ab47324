-- ===== src/Sched/Stream/Reads.antt =====
-- SocketScheduler.h, the format of messages: a reader of all the frames of a list of messages.
use mathlib.Core.Path.{subst}
use coproto.Prelude.{
  ℕ, zero, suc, ◌≡◌, ◌≢◌, ◌<◌, ◌≤◌, ◌+◌, refl, sym, ap, ◌∙◌, inl, inr, true, none, some, List, [],
  ◌∷◌, arith, ◌==◌, get_elem?, get_elem?-set_self, get_elem?-set_ne, get_elem?-set_cases,
  Option-cases, Bool-cases, ◌>>=◌, length, eq→==, ==→eq, ==→ne, ne→==,
}
use coproto.Prelude.Word.{u32_mod, u64_mod}
use coproto.SessionId.{SessionId}
use coproto.Sched.State.{SocketFork, no_id}
use coproto.Sched.Stream.{Message, initiate, frames, session_of, decode}
use coproto.Sched.Stream.Frames.{frames-new, frames-named}
use coproto.Sched.Stream.Decode.{plain, decode-meta_bytes, decode-data_frame}

-- What a reader should return: each message with the session id of its fork, in order.
abbrev pub readings : List SocketFork → List Message → List (SessionId × List ℕ)
readings fs [] = []
readings fs (m ∷ ms) = elim (get_elem? fs m.fork) [
  | none ↦ readings fs ms
  | some f ↦ (plain f.session_id, m.bytes) ∷ readings fs ms
]

-- The length of each message fits in a header and is not zero, and its fork has a slot.
abbrev pub Fit : List SocketFork → List Message → Type 0
Fit fs [] = Unit {0}
Fit fs (m ∷ ms) =
    (0 < length m.bytes)
    × (length m.bytes < u32_mod)
    × ((f : SocketFork) → get_elem? fs m.fork ≡ some f → f.local_id ≢ no_id)
    × Fit fs ms

-- The slots that are assigned are different, the words fit, and a reader knows those that have been named.
pub record Named (fs : List SocketFork) (known : List (ℕ × SessionId)) : Type 0 where
  pub distinct :
      (i j : ℕ) (f g : SocketFork)
      → get_elem? fs i ≡ some f
      → get_elem? fs j ≡ some g
      → f.local_id ≢ no_id
      → f.local_id ≡ g.local_id
      → i ≡ j
  pub words :
      (i : ℕ) (f : SocketFork)
      → get_elem? fs i ≡ some f
      → (f.local_id < u32_mod) × (f.session_id.v0 < u64_mod) × (f.session_id.v1 < u64_mod)
  pub names :
      (i : ℕ) (f : SocketFork)
      → get_elem? fs i ≡ some f
      → f.initiated ≡ true
      → session_of f.local_id known ≡ some (plain f.session_id)

-- A fork of the list after one is named: the same slot and session id as before.
initiate-get :
    (fs : List SocketFork) (i j : ℕ) (f g : SocketFork)
    → get_elem? fs i ≡ some f
    → get_elem? (initiate fs i f) j ≡ some g
    → (h : SocketFork) × (get_elem? fs j ≡ some h)
      × (h.local_id ≡ g.local_id)
      × (h.session_id ≡ g.session_id)
initiate-get fs i j f g e k = elim (get_elem?-set_cases fs i j (record f { initiated = true }) k) [
  | inl (p, q) ↦
      (f, ap (get_elem? fs) (sym p) ∙ e, ap (λ g. g.local_id) q, ap (λ g. g.session_id) q)
  | inr (p, q) ↦ (g, q, refl, refl)
]

session_of-head :
    (slot : ℕ) (id : SessionId) (m : List (ℕ × SessionId))
    → session_of slot ((slot, id) ∷ m) ≡ some id
session_of-head slot id m = rw (eq→== slot slot refl) refl

session_of-tail :
    (slot k : ℕ) (id : SessionId) (m : List (ℕ × SessionId))
    → k ≢ slot
    → session_of slot ((k, id) ∷ m) ≡ session_of slot m
session_of-tail slot k id m h = rw (ne→== k slot h) refl

initiate-Named :
    (fs : List SocketFork) (known : List (ℕ × SessionId)) (i : ℕ) (f : SocketFork)
    → Named fs known
    → get_elem? fs i ≡ some f
    → f.local_id ≢ no_id
    → Named (initiate fs i f) ((f.local_id, plain f.session_id) ∷ known)
initiate-Named fs known i f v e w = record {
  distinct = λ j k g h a b l q.
      let (g', a', p, p') = initiate-get fs i j f g e a in
      let (h', b', r, r') = initiate-get fs i k f h e b in
      v.distinct j k g' h' a' b' (λ z. l (sym p ∙ z)) (p ∙ q ∙ sym r);
  words = λ j g a.
      let (g', a', p, q) = initiate-get fs i j f g e a in
      let (x, y, z) = v.words j g' a' in
      (
        subst (λ n. n < u32_mod) p x,
        subst (λ (id : SessionId). id.v0 < u64_mod) q y,
        subst (λ (id : SessionId). id.v1 < u64_mod) q z,
      );
  names = λ j g a n. elim (get_elem?-set_cases fs i j (record f { initiated = true }) a) [
    | inl (p, q) ↦
        subst
          (λ (g : SocketFork).
            session_of g.local_id ((f.local_id, plain f.session_id) ∷ known)
            ≡ some (plain g.session_id))
          q (session_of-head f.local_id (plain f.session_id) known)
    | inr (p, q) ↦
        session_of-tail g.local_id f.local_id (plain f.session_id) known
          (λ r. p (v.distinct i j f g e q w r))
        ∙ v.names j g q n
  ];
}

readings-cons :
    (fs : List SocketFork) (m : Message) (ms : List Message) (f : SocketFork)
    → get_elem? fs m.fork ≡ some f
    → readings fs (m ∷ ms) ≡ (plain f.session_id, m.bytes) ∷ readings fs ms
readings-cons fs m ms f e = rw (e, readings) refl

readings-skip :
    (fs : List SocketFork) (m : Message) (ms : List Message)
    → get_elem? fs m.fork ≡ none
    → readings fs (m ∷ ms) ≡ readings fs ms
readings-skip fs m ms e = rw (e, readings) refl

initiate-Fit :
    (fs : List SocketFork) (i : ℕ) (f : SocketFork) (ms : List Message)
    → get_elem? fs i ≡ some f
    → Fit fs ms
    → Fit (initiate fs i f) ms
initiate-Fit fs i f [] e w = tt
initiate-Fit fs i f (m ∷ ms) e (a, b, c, d) = (
  a,
  b,
  (λ g k z. let (h, q, r, _) = initiate-get fs i m.fork f g e k in c h q (r ∙ z)),
  initiate-Fit fs i f ms e d,
)

-- Naming a fork changes nothing in what is to be read.
readings-initiate :
    (fs : List SocketFork) (i : ℕ) (f : SocketFork) (ms : List Message)
    → get_elem? fs i ≡ some f
    → readings (initiate fs i f) ms ≡ readings fs ms
readings-initiate fs i f [] e = refl
readings-initiate fs i f (m ∷ ms) e = elim (Bool-cases (i == m.fork)) [
  | inl p ↦
      let q : i ≡ m.fork = ==→eq i m.fork p in
      let g : SocketFork = record f { initiated = true } in
      let at : get_elem? (initiate fs i f) m.fork ≡ some g =
        subst (λ j. get_elem? (initiate fs i f) j ≡ some g) q (get_elem?-set_self fs i g e) in
      readings-cons (initiate fs i f) m ms g at
      ∙ ap (λ r. (plain f.session_id, m.bytes) ∷ r) (readings-initiate fs i f ms e)
      ∙ sym (readings-cons fs m ms f (ap (get_elem? fs) (sym q) ∙ e))
  | inr p ↦
      let same = get_elem?-set_ne fs i m.fork (record f { initiated = true }) (==→ne i m.fork p) in
      elim (Option-cases (get_elem? fs m.fork)) [
        | inl q ↦
            readings-skip (initiate fs i f) m ms (same ∙ q)
            ∙ readings-initiate fs i f ms e
            ∙ sym (readings-skip fs m ms q)
        | inr (g, q) ↦
            readings-cons (initiate fs i f) m ms g (same ∙ q)
            ∙ ap (λ r. (plain g.session_id, m.bytes) ∷ r) (readings-initiate fs i f ms e)
            ∙ sym (readings-cons fs m ms g q)
      ]
]

pub decode-frames :
    (ms : List Message) (fs : List SocketFork) (known : List (ℕ × SessionId)) (n : ℕ)
    → Named fs known
    → Fit fs ms
    → length ms + length ms ≤ n
    → decode n known (frames fs ms) ≡ some (readings fs ms)
unfolding decode
decode-frames [] fs known n v w p = refl
decode-frames (m ∷ ms) fs known zero v w p = absurd (omega arith)
decode-frames (m ∷ ms) fs known (suc zero) v w p = absurd (omega arith)
decode-frames (m ∷ ms) fs known (suc (suc n)) v (w, x, o, y) p =
    elim (Option-cases (get_elem? fs m.fork)) [
      | inl e ↦
          ap (decode (suc (suc n)) known)
            (let h : frames fs (m ∷ ms) ≡ frames fs ms = rw (e, frames) refl in h)
          ∙ decode-frames ms fs known (suc (suc n)) v y (omega arith)
          ∙ ap some (sym (readings-skip fs m ms e))
      | inr (f, e) ↦
          let (a, b, c) = v.words m.fork f e in
          elim (Bool-cases f.initiated) [
            | inl q ↦
                ap (decode (suc (suc n)) known) (frames-named fs m ms f e q).0
                ∙ decode-data_frame (suc n) known f m.bytes (frames fs ms) (plain f.session_id) a w
                    x (v.names m.fork f e q)
                ∙ ap (λ r. r >>= λ ms. some ((plain f.session_id, m.bytes) ∷ ms))
                    (decode-frames ms fs known (suc n) v y (omega arith))
                ∙ ap some (sym (readings-cons fs m ms f e))
            | inr q ↦
                let g = initiate fs m.fork f in
                let k = (f.local_id, plain f.session_id) ∷ known in
                ap (decode (suc (suc n)) known) (frames-new fs m ms f e q)
                ∙ decode-meta_bytes (suc n) known f.local_id f.session_id _ a b c
                ∙ decode-data_frame n k f m.bytes (frames g ms) (plain f.session_id) a w x
                    (session_of-head f.local_id (plain f.session_id) known)
                ∙ ap (λ r. r >>= λ ms. some ((plain f.session_id, m.bytes) ∷ ms))
                    (decode-frames ms g k n (initiate-Named fs known m.fork f v e (o f e))
                      (initiate-Fit fs m.fork f ms e y) (omega arith))
                ∙ ap (λ r. some ((plain f.session_id, m.bytes) ∷ r))
                    (readings-initiate fs m.fork f ms e)
                ∙ ap some (sym (readings-cons fs m ms f e))
          ]
    ]
