-- ===== src/Clp/Split.antt =====
-- CLP.cpp, `split`, and the keys that `setDefault` sets.
use coproto.Prelude.{
  ℕ, zero, suc, ◌+◌, ◌<◌, ◌≡◌, refl, sym, ap, ◌∙◌, inl, inr, Option, none, some, List, [], ◌∷◌,
  ◌++◌, arith, length, Option-cases, length-append, ◌==◌, ==→eq, Bool-cases,
}
use coproto.Clp.{Text, strip, cut, split_loop, split}

strip-append :
    (d s t r : Text) → strip d s ≡ some r → (s ≡ d ++ r) × (strip d (s ++ t) ≡ some (r ++ t))
strip-append [] s t r e = (ground (arith, e), ground (arith, e))
strip-append (a ∷ d) [] t r e = cc
strip-append (a ∷ d) (b ∷ s) t r e = elim (Bool-cases (a == b)) [
  | inr n ↦ absurd (ground (arith, e, n))
  | inl y ↦
      let w = strip-append d s t r (ground (arith, e, y)) in
      (ground (arith, w.0, ==→eq a b y), ground (arith, w.1, y))
]

-- The first delimiter: what is in front of it has none.
cut_lem :
    (x : ℕ) (d s p r : Text)
    → cut (x ∷ d) s ≡ some (p, r)
    → (s ≡ p ++ ((x ∷ d) ++ r)) × (cut (x ∷ d) p ≡ none)
cut_lem x d [] p r e = cc
cut_lem x d (b ∷ s) p r e = elim (Option-cases (strip (x ∷ d) (b ∷ s))) [
  | inr (u, h) ↦
      let w : (p ≡ []) × (r ≡ u) = ground (arith, e, h) in
      (ground (arith, w, (strip-append (x ∷ d) (b ∷ s) [] u h).0), ground (arith, w))
  | inl h ↦ elim (Option-cases (cut (x ∷ d) s)) [
    | inl n ↦ absurd (ground (arith, e, h, n))
    | inr ((p', r'), n) ↦
        let w = cut_lem x d s p' r' n in
        let z : (p ≡ b ∷ p') × (r ≡ r') = ground (arith, e, h, n) in
        (
          ground (arith, z, w.0),
          elim (Option-cases (strip (x ∷ d) (b ∷ p'))) [
            | inl k ↦ ground (arith, z, w.1, k)
            | inr (u, k) ↦
                let v = (strip-append (x ∷ d) (b ∷ p') ((x ∷ d) ++ r') u k).1 in
                absurd (ground (arith, sym h ∙ ap (λ s. strip (x ∷ d) (b ∷ s)) w.0 ∙ v))
          ],
        )
  ]
]

-- The parts with the delimiter between them.
abbrev pub join : Text → List Text → Text
join d [] = []
join d (p ∷ []) = p
join d (p ∷ q ∷ ps) = p ++ (d ++ join d (q ∷ ps))

-- The delimiter is in none of the parts.
abbrev pub AllWithout : Text → List Text → Type 0
AllWithout d [] = Unit {0}
AllWithout d (p ∷ ps) = (cut d p ≡ none) × AllWithout d ps

abbrev pub Parts : Text → Text → Option (List Text) → Type 0
Parts d s o =
    (p : Text) × (ps : List Text) × (o ≡ some (p ∷ ps))
    × (join d (p ∷ ps) ≡ s)
    × AllWithout d (p ∷ ps)

split_loop-Parts : (n x : ℕ) (d s : Text) → length s < n → Parts (x ∷ d) s (split_loop n (x ∷ d) s)
unfolding split_loop
split_loop-Parts zero x d s lt = absurd (omega (arith, lt))
split_loop-Parts (suc n) x d s lt = elim (Option-cases (cut (x ∷ d) s)) [
  | inl e ↦ (s, [], ground (arith, e), refl, (e, tt))
  | inr ((p, r), e) ↦
      let w = cut_lem x d s p r e in
      let len : length s ≡ length p + suc (length d + length r) =
        ap length w.0
        ∙ length-append p ((x ∷ d) ++ r)
        ∙ ap (λ n. length p + suc n) (length-append d r) in
      let (q, qs, f, j, a) = split_loop-Parts n x d r (omega (arith, len, lt)) in
      (p, q ∷ qs, ground (arith, e, f), ap (λ t. p ++ ((x ∷ d) ++ t)) j ∙ sym w.0, (w.1, a))
]

-- For a delimiter that is not empty `split` ends; the parts with the delimiter between them are the
-- text again, none of them holds the delimiter, and there is at least one.
pub split-join : (x : ℕ) (d s : Text) → Parts (x ∷ d) s (split s (x ∷ d))
unfolding split
split-join x d s = split_loop-Parts (suc (length s)) x d s (omega arith)
