-- ===== src/SessionId.antt =====
-- coproto/Proto/SessionID.h: session ids, how a child's is derived, and their equality.
pub mod Print
use Prim.Native.Nat.{bit_and, bit_xor}
use coproto.Prelude.{ℕ, zero, suc, ◌+◌, ◌-◌, ◌*◌, ◌%◌, Bool, ◌&&◌, ◌==◌, if◌then◌else◌}
use coproto.Prelude.Word.{u64_mod}

pub record SessionId : Type 0 where
  pub v0 : ℕ
  pub v1 : ℕ
  pub child_idx : ℕ

unfoldable pub root : SessionId
root = record { v0 = 45234; v1 = 325434; child_idx = 0 }

-- `operator==` compares the two words and not the child index.
abbrev pub same : SessionId → SessionId → Bool
same a b = (a.v0 == b.v0) && (a.v1 == b.v1)

-- `bHash`, on u64.
unfoldable pub b_hash : ℕ → ℕ
b_hash v =
    let cube = v * ((v + u64_mod - 1) % u64_mod) * ((v + u64_mod - 2) % u64_mod) % u64_mod in
    (cube + u64_mod - 23 * v % u64_mod) % u64_mod

-- One round: the left word is replaced, and the words change places for the next round.
unfoldable pub round : ℕ → ℕ → ℕ → ℕ
unfolding b_hash
round idx l r = bit_xor (bit_xor (b_hash ((r + idx + 32243534) % u64_mod)) l) 9478532833

-- The `i`-th word is the left one of round `i` for even `i`.
unfoldable pub rounds : ℕ → ℕ → ℕ → ℕ → ℕ → ℕ × ℕ
unfolding round
rounds zero i idx x0 x1 = (x0, x1)
rounds (suc n) i idx x0 x1 =
    rounds n (i + 1) idx (if bit_and i 1 == 0 then round idx x0 x1 else x0)
      (if bit_and i 1 == 0 then x1 else round idx x1 x0)

-- The child, and the parent with its counter moved on.
unfoldable pub derive : SessionId → SessionId × SessionId
unfolding rounds
derive s =
    let (x0, x1) = rounds 5 0 s.child_idx s.v0 s.v1 in
    (
      record { v0 = bit_xor x0 s.v0; v1 = bit_xor x1 s.v1; child_idx = 0 },
      record s { child_idx = (s.child_idx + 1) % u64_mod },
    )
