-- ===== src/Sched/Stream/Decode.antt =====
-- SocketScheduler.h, the format of messages: one header and what stands behind it, as a reader takes it.
use coproto.Prelude.{
  ℕ, suc, ◌≡◌, ◌<◌, refl, ap, ap₂, ◌∙◌, false, some, List, [], ◌∷◌, ◌++◌, arith, ◌==◌, ltb,
  append_assoc, length-append, ◌>>=◌, length, take, drop, take-append, drop-append,
}
use coproto.Prelude.Word.{u32_mod, u64_mod}
use coproto.SessionId.{SessionId}
use coproto.Wire.{
  Header, header_bytes, read_header, read_header-header_bytes, length-header_bytes, get_session_id,
  set_session_id, get-set_session_id, length-set_session_id, meta_bytes, header_size, take_at,
  drop_at,
}
use coproto.Sched.State.{SocketFork}
use coproto.Sched.Stream.{data_frame, session_of, decode_body, decode}

-- A session id as the wire carries it.
abbrev pub plain : SessionId → SessionId
plain id = record id { child_idx = 0 }

decode-cons :
    (n : ℕ) (known : List (ℕ × SessionId)) (bs : List ℕ)
    → 0 < length bs
    → decode (suc n) known bs
      ≡ decode_body (decode n) known (read_header (take header_size bs)) (drop header_size bs)
unfolding decode
decode-cons n known [] p = absurd (omega arith)
decode-cons n known (b ∷ bs) p = refl

decode-header :
    (n : ℕ) (known : List (ℕ × SessionId)) (h : Header) (body : List ℕ)
    → h.size < u32_mod
    → h.fork_id < u32_mod
    → decode (suc n) known (header_bytes h ++ body) ≡ decode_body (decode n) known h body
decode-header n known h body p q =
    let l = length-header_bytes h in
    decode-cons n known (header_bytes h ++ body)
      (omega (arith, l, length-append (header_bytes h) body))
    ∙ ap₂ (decode_body (decode n) known)
        (ap read_header (take_at 8 (header_bytes h) body l) ∙ read_header-header_bytes h p q)
        (drop_at 8 (header_bytes h) body l)

pub decode-meta_bytes :
    (n : ℕ) (known : List (ℕ × SessionId)) (slot : ℕ) (id : SessionId) (bs : List ℕ)
    → slot < u32_mod
    → id.v0 < u64_mod
    → id.v1 < u64_mod
    → decode (suc n) known (meta_bytes slot id ++ bs) ≡ decode n ((slot, plain id) ∷ known) bs
unfolding meta_bytes
decode-meta_bytes n known slot id bs p q r =
    let h : Header = record { size = 0; fork_id = slot } in
    let block = set_session_id id in
    let l = length-set_session_id id in
    ap (decode (suc n) known) (append_assoc (header_bytes h) block bs)
    ∙ decode-header n known h (block ++ bs) (omega arith) p
    ∙ ap₂ (λ i rest. decode n ((slot, i) ∷ known) rest)
        (ap get_session_id (take_at 16 block bs l) ∙ get-set_session_id id q r)
        (drop_at 16 block bs l)

pub decode-data_frame :
    (n : ℕ) (known : List (ℕ × SessionId)) (f : SocketFork) (bytes bs : List ℕ) (id : SessionId)
    → f.local_id < u32_mod
    → 0 < length bytes
    → length bytes < u32_mod
    → session_of f.local_id known ≡ some id
    → decode (suc n) known (data_frame f bytes ++ bs)
      ≡ (decode n known bs >>= λ ms. some ((id, bytes) ∷ ms))
decode-data_frame n known f bytes bs id p q r e =
    let h : Header = record { size = length bytes; fork_id = f.local_id } in
    let z : (length bytes == 0) ≡ false = ground arith in
    let w : ltb (length (bytes ++ bs)) (length bytes) ≡ false =
      ground (arith, length-append bytes bs) in
    ap (decode (suc n) known) (append_assoc (header_bytes h) bytes bs)
    ∙ decode-header n known h (bytes ++ bs) r p
    ∙ framed z w
    ∙ ap₂ (λ x y. decode n known x >>= λ ms. some ((id, y) ∷ ms)) (drop-append bytes bs)
        (take-append bytes bs)
  where
    framed :
        (length bytes == 0) ≡ false
        → ltb (length (bytes ++ bs)) (length bytes) ≡ false
        → decode_body
            (decode n)
            known
            (record { size = length bytes; fork_id = f.local_id })
            (bytes ++ bs)
          ≡ (decode n known (drop (length bytes) (bytes ++ bs)) >>= λ ms.
              some ((id, take (length bytes) (bytes ++ bs)) ∷ ms))
    framed z w = rw (z, w, e) refl
