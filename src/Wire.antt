-- ===== src/Wire.antt =====
-- coproto/Socket/SocketScheduler.h, `Header` and `ControlBlock`: the bytes of the headers and of the
-- meta message. The structs go out as they lie in memory, least significant byte first.
use coproto.Prelude.{
  ℕ, ◌+◌, ◌^◌, ◌<◌, ◌≡◌, sym, ap, ◌∙◌, List, [], ◌++◌, arith, length, take, drop, take-append,
  drop-append, length-append, append-nil,
}
use coproto.Prelude.Word.{u32_mod, u64_mod, le_bytes, from_le, length-le_bytes, from_le-le_bytes}
use coproto.SessionId.{SessionId}

pub record Header : Type 0 where
  pub size : ℕ
  pub fork_id : ℕ

abbrev pub header_size : ℕ
header_size = 8

abbrev pub control_size : ℕ
control_size = 16

unfoldable pub header_bytes : Header → List ℕ
header_bytes h = le_bytes 4 h.size ++ le_bytes 4 h.fork_id

unfoldable pub read_header : List ℕ → Header
read_header bs = record { size = from_le (take 4 bs); fork_id = from_le (take 4 (drop 4 bs)) }

-- `setSessionID` and `getSessionID`; the child index does not travel.
unfoldable pub set_session_id : SessionId → List ℕ
set_session_id id = le_bytes 8 id.v0 ++ le_bytes 8 id.v1

unfoldable pub get_session_id : List ℕ → SessionId
get_session_id bs = record {
  v0 = from_le (take 8 bs);
  v1 = from_le (take 8 (drop 8 bs));
  child_idx = 0;
}

-- `SendControlBlock`: a header of size zero, then the control block.
unfoldable pub meta_bytes : ℕ → SessionId → List ℕ
unfolding header_bytes set_session_id
meta_bytes local_id id = header_bytes (record { size = 0; fork_id = local_id }) ++ set_session_id id

pub take_at {ℓ} : {A : Type ℓ} (n : ℕ) (xs ys : List A) → length xs ≡ n → take n (xs ++ ys) ≡ xs
take_at n xs ys e = ap (λ k. take k (xs ++ ys)) (sym e) ∙ take-append xs ys

pub drop_at {ℓ} : {A : Type ℓ} (n : ℕ) (xs ys : List A) → length xs ≡ n → drop n (xs ++ ys) ≡ ys
drop_at n xs ys e = ap (λ k. drop k (xs ++ ys)) (sym e) ∙ drop-append xs ys

take_whole {ℓ} : {A : Type ℓ} (n : ℕ) (xs : List A) → length xs ≡ n → take n xs ≡ xs
take_whole n xs e = ap (take n) (sym (append-nil xs)) ∙ take_at n xs [] e

two_words :
    (n a b : ℕ)
    → a < 256 ^ n
    → b < 256 ^ n
    → (from_le (take n (le_bytes n a ++ le_bytes n b)) ≡ a)
      × (from_le (take n (drop n (le_bytes n a ++ le_bytes n b))) ≡ b)
two_words n a b p q = (
  ap from_le (take_at n (le_bytes n a) (le_bytes n b) (length-le_bytes n a))
      ∙ from_le-le_bytes n a p,
  ap (λ xs. from_le (take n xs)) (drop_at n (le_bytes n a) (le_bytes n b) (length-le_bytes n a))
      ∙ ap from_le (take_whole n (le_bytes n b) (length-le_bytes n b))
      ∙ from_le-le_bytes n b q,
)

-- A header is read back as it was written.
pub read_header-header_bytes :
    (h : Header) → h.size < u32_mod → h.fork_id < u32_mod → read_header (header_bytes h) ≡ h
unfolding read_header header_bytes
read_header-header_bytes h p q =
    let w = two_words 4 h.size h.fork_id p q in λ i. record { size = w.0 i; fork_id = w.1 i }

-- A session id is read back as it was written, without its child index.
pub get-set_session_id :
    (id : SessionId)
    → id.v0 < u64_mod
    → id.v1 < u64_mod
    → get_session_id (set_session_id id) ≡ record id { child_idx = 0 }
unfolding get_session_id set_session_id
get-set_session_id id p q =
    let w = two_words 8 id.v0 id.v1 p q in λ i. record { v0 = w.0 i; v1 = w.1 i; child_idx = 0 }

pub length-header_bytes : (h : Header) → length (header_bytes h) ≡ header_size
unfolding header_bytes
length-header_bytes h = omega (
  arith,
  length-append (le_bytes 4 h.size) (le_bytes 4 h.fork_id),
  length-le_bytes 4 h.size,
  length-le_bytes 4 h.fork_id,
)

pub length-set_session_id : (id : SessionId) → length (set_session_id id) ≡ control_size
unfolding set_session_id
length-set_session_id id = omega (
  arith,
  length-append (le_bytes 8 id.v0) (le_bytes 8 id.v1),
  length-le_bytes 8 id.v0,
  length-le_bytes 8 id.v1,
)

pub length-meta_bytes :
    (local_id : ℕ) (id : SessionId) → length (meta_bytes local_id id) ≡ header_size + control_size
unfolding meta_bytes
length-meta_bytes local_id id =
    let h = header_bytes (record { size = 0; fork_id = local_id }) in
    omega (
      arith,
      length-append h (set_session_id id),
      length-header_bytes (record { size = 0; fork_id = local_id }),
      length-set_session_id id,
    )

-- The meta message is one header long and one control block: the receiver reads back size zero,
-- the local id and the session id.
pub meta_bytes_lem :
    (local_id : ℕ) (id : SessionId)
    → local_id < u32_mod
    → id.v0 < u64_mod
    → id.v1 < u64_mod
    → (length (meta_bytes local_id id) ≡ header_size + control_size)
      × (read_header (take header_size (meta_bytes local_id id))
          ≡ record { size = 0; fork_id = local_id })
      × (get_session_id (drop header_size (meta_bytes local_id id)) ≡ record id { child_idx = 0 })
unfolding meta_bytes
meta_bytes_lem local_id id p q r = (
  length-meta_bytes local_id id,
  ap read_header (take_at 8 h s (length-header_bytes hd))
      ∙ read_header-header_bytes hd (omega arith) p,
  ap get_session_id (drop_at 8 h s (length-header_bytes hd)) ∙ get-set_session_id id q r,
)
  where
    hd : Header
    hd = record { size = 0; fork_id = local_id }

    h : List ℕ
    h = header_bytes hd

    s : List ℕ
    s = set_session_id id
