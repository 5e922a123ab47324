-- ===== src/Executor/CbQueue.antt =====
-- coproto/Socket/Executor.h, `CBQueue`: a ring of callbacks over an array of eight, and over a
-- vector once it has grown. A default constructed element is `none`.
pub mod Fifo
pub mod Growth
use Prim.Native.Nat.{bit_and}
use coproto.Prelude.{
  ℕ, zero, suc, ◌+◌, ◌-◌, ◌*◌, ◌%◌, ◌^◌, max, Bool, true, false, Option, none, some, List, [], ◌∷◌,
  ◌==◌, if◌then◌else◌, length, get_or, set, replicate,
}
use coproto.Prelude.Word.{u64_mod}
use coproto.Queue.Window.{inc64}

pub record CbQueue {ℓ} (A : Type ℓ) : Type ℓ where
  pub head : ℕ
  pub tail : ℕ
  pub array_backing : List (Option A)
  pub vec_backing : List (Option A)
  pub on_array : Bool

abbrev pub log_two_size : ℕ
log_two_size = 6

module _ {ℓ} {A : Type ℓ} where
  pub empty_ring : CbQueue A
  empty_ring = record {
    head = 0;
    tail = 0;
    array_backing = replicate 8 none;
    vec_backing = [];
    on_array = true;
  }

  -- `mVec`, the active buffer.
  abbrev pub vec : CbQueue A → List (Option A)
  vec q = if q.on_array then q.array_backing else q.vec_backing

  abbrev pub write_vec : CbQueue A → ℕ → Option A → CbQueue A
  write_vec q i v =
      if q.on_array
      then record q { array_backing = set q.array_backing i v }
      else record q { vec_backing = set q.vec_backing i v }

  unfoldable pub size : CbQueue A → ℕ
  size q = (q.head + u64_mod - q.tail) % u64_mod

  -- `for (i = begin, j = 0; i != end; i = (i + 1) & mask, ++j) v[j] = mVec[i]`. The fuel is the size
  -- of the ring, which bounds the rounds.
  pub copy_loop : ℕ → ℕ → List (Option A) → ℕ → ℕ → ℕ → List (Option A) → List (Option A)
  copy_loop zero mask old i end j v = v
  copy_loop (suc f) mask old i end j v =
      let rest =
        copy_loop f mask old (bit_and (i + 1) mask) end (j + 1) (set v j (get_or old i none)) in
      if i == end then v else rest

  -- The branch of `push_back` for a full ring.
  pub grow : CbQueue A → CbQueue A
  grow q =
      let old = vec q in
      let mask = length old - 1 in
      let v = replicate (max (length old * 2) (2 ^ log_two_size)) none in
      record q {
        vec_backing =
            copy_loop (length old) mask old (bit_and q.tail mask) (bit_and q.head mask) 0 v;
        on_array = false;
        head = (q.head + u64_mod - q.tail) % u64_mod;
        tail = 0;
      }

  -- The mask is that of the buffer before it grows.
  pub push_back : CbQueue A → A → CbQueue A
  push_back q h =
      let mask = length (vec q) - 1 in
      let r = if q.head == (q.tail + length (vec q)) % u64_mod then grow q else q in
      record (write_vec r (bit_and r.head mask) (some h)) { head = inc64 r.head }

  -- `none` is the exception on an empty ring.
  pub pop_front : CbQueue A → Option (Option A × CbQueue A)
  unfolding size
  pop_front q =
      if size q == 0
      then none
      else some (
        get_or (vec q) (bit_and q.tail (length (vec q) - 1)) none,
        record q { tail = inc64 q.tail },
      )

  -- Move assignment: what the target becomes, and what the source is left as.
  pub move_assign : CbQueue A → CbQueue A → CbQueue A × CbQueue A
  move_assign self o = (
    if o.on_array
        then record self {
          head = o.head;
          tail = o.tail;
          array_backing = o.array_backing;
          on_array = true;
        }
        else record self {
          head = o.head;
          tail = o.tail;
          vec_backing = o.vec_backing;
          on_array = false;
        },
    record o { head = 0; tail = 0; on_array = true },
  )

  -- `std::swap`, by three moves over a temporary.
  pub swap : CbQueue A → CbQueue A → CbQueue A × CbQueue A
  swap a b =
      let (tmp, a') = move_assign empty_ring a in
      let (a'', b') = move_assign a' b in let (b'', _) = move_assign b' tmp in (a'', b'')
