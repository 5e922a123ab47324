-- ===== src/Clp/Range.antt =====
-- CLP.h, `getManyOr` for an unsigned type of w bits: how a value is read, and the loop that a range
-- stands for.
use native.Mathlib.Nat.{mod-eq_of_lt, add-mod_right}
use coproto.Prelude.{
  ℕ, zero, suc, ◌+◌, ◌-◌, ◌%◌, ◌^◌, ◌≤◌, ◌<◌, ◌≡◌, ap, ◌∙◌, inl, inr, true, false, Option, none,
  some, List, [], ◌∷◌, arith, if◌then◌else◌, ◌>>=◌, ltb, Bool-cases, ltb→lt,
}
use coproto.Prelude.Word.{pow-pos}

-- `while (x < end) { ret.push_back(x); x += step; }`; the fuel bounds the rounds.
unfoldable pub range_loop : ℕ → ℕ → ℕ → ℕ → ℕ → Option (List ℕ)
range_loop zero w end step x = none
range_loop (suc n) w end step x =
    let rest = range_loop n w end step ((x + step) % 2 ^ w) in
    if ltb x end then (rest >>= λ xs. some (x ∷ xs)) else some []

-- The step, one or all ones; it is added once before the loop.
unfoldable pub push_range : ℕ → ℕ → ℕ → Option (List ℕ)
unfolding range_loop
push_range w x end =
    let step = if ltb x end then 1 else 2 ^ w - 1 in
    range_loop (2 ^ w + 1) w end step ((x + step) % 2 ^ w)

-- The numbers that a range should and does stand for.
abbrev pub upto : ℕ → ℕ → List ℕ
upto zero x = []
upto (suc n) x = x ∷ upto n (x + 1)

abbrev pub downfrom : ℕ → List ℕ
downfrom zero = []
downfrom (suc x) = x ∷ downfrom x

abbrev pub pushed : ℕ → ℕ → List ℕ
pushed x end =
    if ltb x end then upto (end - x - 1) (x + 1) else if ltb end x then [] else downfrom x

up-loop :
    (n w end x d : ℕ) → end < 2 ^ w → x + d ≡ end → d < n → range_loop n w end 1 x ≡ some (upto d x)
unfolding range_loop
up-loop zero w end x d b e lt = absurd (omega (arith, lt))
up-loop (suc n) w end x zero b e lt = ground (arith, e)
up-loop (suc n) w end x (suc d) b e lt =
    let m : (x + 1) % 2 ^ w ≡ x + 1 = mod-eq_of_lt (omega (arith, b, e)) in
    ground (arith, m, e, up-loop n w end (x + 1) d b (omega (arith, e)) (omega (arith, lt)))

stopped : (n w end x : ℕ) → end ≤ x → 0 < n → range_loop n w end (2 ^ w - 1) x ≡ some []
unfolding range_loop
stopped zero w end x le lt = absurd (omega (arith, lt))
stopped (suc n) w end x le lt = ground (arith, le)

step_down : (w x : ℕ) → suc x < 2 ^ w → (suc x + (2 ^ w - 1)) % 2 ^ w ≡ x
step_down w x lt =
    ap (λ y. y % 2 ^ w) (omega (arith, pow-pos w))
    ∙ add-mod_right x (2 ^ w)
    ∙ mod-eq_of_lt (omega (arith, lt))

down-loop :
    (n w end x : ℕ)
    → end < 2 ^ w
    → x < end
    → x + 1 < n
    → range_loop n w end (2 ^ w - 1) x ≡ some (downfrom (x + 1))
unfolding range_loop
down-loop zero w end x b e lt = absurd (omega (arith, lt))
down-loop (suc n) w end zero b e lt =
    let m : (2 ^ w - 1) % 2 ^ w ≡ 2 ^ w - 1 = mod-eq_of_lt (omega (arith, pow-pos w)) in
    ground (arith, m, e, stopped n w end (2 ^ w - 1) (omega (arith, b)) (omega (arith, lt)))
down-loop (suc n) w end (suc x) b e lt = ground (
  arith,
  step_down w x (omega (arith, b, e)),
  e,
  down-loop n w end x b (omega (arith, e)) (omega (arith, lt)),
)

-- A range `x..end` of w-bit numbers ends, without a run-away loop: it stands for x + 1 up to end - 1
-- behind x if it ascends and for nothing more than x if it descends; where both ends are equal, it stands
-- for everything from x - 1 down to zero.
pub range_lem : (w x end : ℕ) → x < 2 ^ w → end < 2 ^ w → push_range w x end ≡ some (pushed x end)
unfolding push_range
range_lem w x end lx le = elim (Bool-cases (ltb x end)) [
  | inl lt ↦
      let m : (x + 1) % 2 ^ w ≡ x + 1 = mod-eq_of_lt (omega (arith, le, ltb→lt x end lt)) in
      ground (
        arith,
        m,
        lt,
        up-loop (2 ^ w + 1) w end (x + 1) (end - x - 1) le (omega (arith, ltb→lt x end lt))
            (omega (arith, le)),
      )
  | inr ge ↦ elim (Bool-cases (ltb end x)) [
    | inl gt ↦ descending x lx gt ge
    | inr eq ↦ equal x lx eq ge
  ]
]
  where
    descending :
        (x : ℕ)
        → x < 2 ^ w
        → ltb end x ≡ true
        → ltb x end ≡ false
        → push_range w x end ≡ some (pushed x end)
    descending zero lx gt ge = absurd (omega (arith, ltb→lt end 0 gt))
    descending (suc x) lx gt ge = ground (
      arith,
      gt,
      ge,
      step_down w x lx,
      stopped (2 ^ w + 1) w end x (omega (arith, ltb→lt end (suc x) gt)) (omega arith),
    )

    equal :
        (x : ℕ)
        → x < 2 ^ w
        → ltb end x ≡ false
        → ltb x end ≡ false
        → push_range w x end ≡ some (pushed x end)
    equal zero lx eq ge = ground (
      arith,
      eq,
      ge,
      mod-eq_of_lt {n = 2 ^ w - 1} {m = 2 ^ w} (omega (arith, lx)),
      stopped (2 ^ w + 1) w end (2 ^ w - 1) (omega (arith, le)) (omega arith),
    )
    equal (suc x) lx eq ge = ground (
      arith,
      eq,
      ge,
      step_down w x lx,
      down-loop (2 ^ w + 1) w end x le (ground (arith, eq, ge)) (omega (arith, lx)),
    )
