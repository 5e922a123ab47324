-- ===== src/Prelude/Word.antt =====
-- Machine words: little-endian bytes, masks of low bits, and index arithmetic that wraps at 2^64.
use Prim.Native.Nat.{ℕ, zero, suc, ◌+◌, ◌-◌, ◌*◌, ◌/◌, ◌%◌, ◌^◌, ◌≤◌, ◌<◌, ◌∣◌, min}
use Prim.Native.Nat.{bit_and, digits, bit_and-bitwise}
use mathlib.Core.Path.{◌≡◌, refl, ap, subst, ◌∙◌}
use mathlib.Core.List.{List, [], ◌∷◌}
use native.Mathlib.Nat.{
  pow-suc, pow-zero, add-mul-mod_self_left, mod-eq_of_lt, mod-lt, div-add-mod, mod-mod_of_dvd,
  dvd_refl, dvd-mul_right_of_dvd,
}
use native.Mathlib.Omega.{arith}
use coproto.Prelude.Lists.{length}

abbrev pub u32_mod : ℕ
u32_mod = 2 ^ 32

abbrev pub u64_mod : ℕ
u64_mod = 2 ^ 64

-- The bytes of an unsigned integer in memory, least significant first.
unfoldable pub le_bytes : ℕ → ℕ → List ℕ
le_bytes zero v = []
le_bytes (suc n) v = v % 256 ∷ le_bytes n (v / 256)

unfoldable pub from_le : List ℕ → ℕ
from_le [] = 0
from_le (b ∷ bs) = b + 256 * from_le bs

pub length-le_bytes : (n v : ℕ) → length (le_bytes n v) ≡ n
unfolding le_bytes
length-le_bytes zero v = refl
length-le_bytes (suc n) v = ap suc (length-le_bytes n (v / 256))

pub from_le-le_bytes : (n v : ℕ) → v < 256 ^ n → from_le (le_bytes n v) ≡ v
unfolding le_bytes from_le
from_le-le_bytes zero v h = omega (arith, pow-zero 256)
from_le-le_bytes (suc n) v h =
    omega (arith, from_le-le_bytes n (v / 256) (omega (arith, pow-suc 256 n)))

pub pow-pos : (k : ℕ) → 0 < 2 ^ k
pow-pos zero = omega arith
pow-pos (suc k) = omega (arith, pow-suc 2 k, pow-pos k)

-- The mask of the low k bits takes the remainder by 2^k.
and_fuel :
    (n m a b : ℕ) → a ≤ n → a ≤ m → digits (λ b. zero) min n a b ≡ digits (λ b. zero) min m a b
and_fuel zero zero a b p q = refl
and_fuel zero (suc m) zero b p q = refl
and_fuel (suc n) zero zero b p q = refl
and_fuel (suc n) (suc m) zero b p q = refl
and_fuel (suc n) (suc m) (suc a) b p q =
    omega (arith, and_fuel n m (suc a / 2) (b / 2) (omega arith) (omega arith))
and_fuel _ _ (suc a) b p q = absurd (omega arith)

zero-bit_and : (b : ℕ) → bit_and 0 b ≡ 0
zero-bit_and b = bit_and-bitwise 0 b

and_halves : (a b : ℕ) → bit_and a b ≡ bit_and (a / 2) (b / 2) * 2 + min (a % 2) (b % 2)
and_halves zero b = omega (arith, zero-bit_and b, zero-bit_and (b / 2))
and_halves (suc a) b = omega (
  arith,
  bit_and-bitwise (suc a) b,
  bit_and-bitwise (suc a / 2) (b / 2),
  and_fuel a (suc a / 2) (suc a / 2) (b / 2) (omega arith) (omega arith),
)

and_zero : (n a : ℕ) → a ≤ n → bit_and a 0 ≡ 0
and_zero n zero h = refl
and_zero zero (suc a) h = absurd (omega arith)
and_zero (suc n) (suc a) h =
    omega (arith, and_halves (suc a) 0, and_zero n (suc a / 2) (omega arith))

-- Doubling the modulus keeps one more low bit.
pub mod-double : (p x : ℕ) → 0 < p → x % (p * 2) ≡ (x / 2) % p * 2 + x % 2
mod-double p x h =
    ap (λ y. y % (p * 2)) split
    ∙ add-mul-mod_self_left ((x / 2) % p * 2 + x % 2) (p * 2) (x / 2 / p)
    ∙ mod-eq_of_lt (omega (arith, mod-lt (x / 2) h))
  where
    split : x ≡ (x / 2) % p * 2 + x % 2 + p * 2 * (x / 2 / p)
    split = omega (arith, div-add-mod (x / 2) p)

pub bit_and-mask : (k x m : ℕ) → m + 1 ≡ 2 ^ k → bit_and x m ≡ x % 2 ^ k
bit_and-mask zero x m h =
    let e : m ≡ 0 = omega (arith, pow-zero 2) in
    rw e (omega (arith, and_zero x x (omega arith), pow-zero 2))
bit_and-mask (suc k) x m h = omega (
  arith,
  pow-suc 2 k,
  and_halves x m,
  bit_and-mask k (x / 2) (m / 2) (omega (arith, pow-suc 2 k)),
  mod-double (2 ^ k) x (pow-pos k),
  ap (λ p. x % p) (pow-suc 2 k),
)

-- A power of two up to 2^64 divides 2^64, so an index that wraps keeps its low bits.
pow-dvd : (n k : ℕ) → 2 ^ k ∣ 2 ^ (n + k)
pow-dvd zero k = let e : 0 + k ≡ k = omega arith in rw e (dvd_refl (2 ^ k))
pow-dvd (suc n) k =
    let e : suc n + k ≡ suc (n + k) = omega arith in
    rw (e, pow-suc) (dvd-mul_right_of_dvd (2 ^ k) (pow-dvd n k) 2)

pub wrap-mod : (k x : ℕ) → k ≤ 64 → x % u64_mod % 2 ^ k ≡ x % 2 ^ k
wrap-mod k x h =
    let e : 64 - k + k ≡ 64 = omega arith in
    mod-mod_of_dvd (2 ^ k) x (subst (λ t. 2 ^ k ∣ 2 ^ t) e (pow-dvd (64 - k) k))
