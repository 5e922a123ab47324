-- ===== src/Clp/Parse.antt =====
-- CLP.cpp, `parse`: which arguments it takes and what it makes of them.
use mathlib.Core.Path.{subst}
use coproto.Prelude.{
  ℕ, zero, suc, ◌≤◌, ◌≡◌, ◌≢◌, refl, sym, ap, ◌∙◌, ◌⊎◌, inl, inr, Bool, true, false, Option, none,
  some, List, [], ◌∷◌, ◌++◌, arith, length, ◌==◌, Bool-cases, length-append,
}
use coproto.Clp.{
  Text, Values, Clp, dash, eq_text, find, emplace, is_value, take_values, append_full, returns,
  throws, parse_loop, parse, empty_clp,
}
use coproto.Clp.Keys.{eq_text-eq, eq_text_refl, or_else, find-emplace_same, find-emplace_other}

abbrev pub starts_dash : Text → Bool
starts_dash [] = false
starts_dash (a ∷ t) = a == dash

-- The first argument begins with a dash, or there is none.
abbrev pub Leads : List Text → Type 0
Leads [] = Unit {0}
Leads (t ∷ ts) = starts_dash t ≡ true

value_cases : (t : Text) → (is_value t ≡ true) ⊎ ((is_value t ≡ false) × (starts_dash t ≡ true))
value_cases [] = inl refl
value_cases (a ∷ []) = ground arith
value_cases (a ∷ b ∷ t) = ground arith

take_values-Leads :
    (ts : List Text) → Leads (take_values ts).1 × (length (take_values ts).1 ≤ length ts)
take_values-Leads [] = (tt, omega arith)
take_values-Leads (t ∷ ts) = elim (value_cases t) [
  | inl v ↦
      let w = take_values-Leads ts in
      let e : take_values (t ∷ ts) ≡ (t ∷ (take_values ts).0, (take_values ts).1) =
        ground (arith, v) in
      (subst (λ p. Leads p.1) (sym e) w.0, ground (arith, v, w.1))
  | inr (n, d) ↦
      let e : take_values (t ∷ ts) ≡ ([], t ∷ ts) = ground (arith, n) in
      (subst (λ p. Leads p.1) (sym e) d, ground (arith, n))
]

parse_loop-returns :
    (n : ℕ) (ts : List Text) (c : Clp)
    → length ts ≤ n
    → Leads ts
    → (d : Clp) × (parse_loop n ts c ≡ some (returns d))
unfolding parse_loop
parse_loop-returns n [] c le l = (c, refl)
parse_loop-returns zero (t ∷ ts) c le l = absurd (omega (arith, le))
parse_loop-returns (suc n) ([] ∷ ts) c le l = absurd (ground (arith, l))
parse_loop-returns (suc n) ((a ∷ k) ∷ ts) c le l =
    let w = take_values-Leads ts in
    let c' = append_full c (a ∷ k) in
    let r =
      parse_loop-returns n (take_values ts).1
        (record c' { key_values = emplace k (take_values ts).0 c'.key_values })
        (omega (arith, w.1, le)) w.0 in
    (r.0, ground (arith, l, r.1))

-- Every command line is parsed to its end or refused: `parse` returns exactly if the argument behind
-- the program's name begins with a dash or there is none; else it throws, and no key has changed.
pub parse-ends :
    (p : Text) (ts : List Text) (c : Clp)
    → (Leads ts × ((d : Clp) × (parse (p ∷ ts) c ≡ some (returns d))))
      ⊎ ((¬ Leads ts)
          × ((d : Clp) × (parse (p ∷ ts) c ≡ some (throws d)) × (d.key_values ≡ c.key_values)))
unfolding parse
parse-ends p [] c = inl (tt, (record c { program_name = p }, refl))
parse-ends p ([] ∷ ts) c =
    inr (λ e. ground (arith, e), (append_full (record c { program_name = p }) [], refl, refl))
parse-ends p ((a ∷ k) ∷ ts) c = elim (Bool-cases (a == dash)) [
  | inl e ↦ inl (e, parse_loop-returns (length ((a ∷ k) ∷ ts)) ((a ∷ k) ∷ ts) _ (omega arith) e)
  | inr e ↦ inr (
    λ l. ground (arith, e, l),
    (append_full (record c { program_name = p }) (a ∷ k), ground (arith, e), refl),
  )
]

-- A command line as it is meant: keys, each with its values.
abbrev pub print : Values → List Text
print [] = []
print ((k, vs) ∷ r) = (dash ∷ k) ∷ (vs ++ print r)

abbrev pub AllValues : List Text → Type 0
AllValues [] = Unit {0}
AllValues (v ∷ vs) = (is_value v ≡ true) × AllValues vs

-- No key begins with a digit, and no value is taken for a key.
abbrev pub Printable : Values → Type 0
Printable [] = Unit {0}
Printable ((k, vs) ∷ r) = (is_value (dash ∷ k) ≡ false) × AllValues vs × Printable r

take_values-print :
    (vs : List Text) (r : Values)
    → AllValues vs
    → Printable r
    → take_values (vs ++ print r) ≡ (vs, print r)
take_values-print [] [] v w = refl
take_values-print [] ((k, ws) ∷ r) v w = ground (arith, w.0)
take_values-print (t ∷ vs) r v w = ground (arith, v.0, take_values-print vs r v.1 w)

or_else-none : (o : Option (List Text)) → o ≡ or_else o none
or_else-none none = refl
or_else-none (some vs) = refl

find_behind :
    (k j : Text) (vs : List Text) (m r : Values)
    → or_else (find j (emplace k vs m)) (find j r) ≡ or_else (find j m) (find j ((k, vs) ∷ r))
find_behind k j vs m r = elim (Bool-cases (eq_text k j)) [
  | inl h ↦
      ground
        (arith, h, ap (λ i. find j (emplace i vs m)) (eq_text-eq k j h), find-emplace_same j vs m)
  | inr h ↦
      let ne : k ≢ j = λ e. absurd (ground (arith, h, ap (eq_text k) (sym e), eq_text_refl k)) in
      ground (arith, h, find-emplace_other j k vs m ne)
]

parse_loop-print :
    (n : ℕ) (m : Values) (c : Clp)
    → Printable m
    → length (print m) ≤ n
    → (d : Clp) × (parse_loop n (print m) c ≡ some (returns d))
      × (d.program_name ≡ c.program_name)
      × ((k : Text) → find k d.key_values ≡ or_else (find k c.key_values) (find k m))
unfolding parse_loop
parse_loop-print n [] c w le = (c, refl, refl, λ k. or_else-none (find k c.key_values))
parse_loop-print zero ((k, vs) ∷ r) c w le = absurd (omega (arith, le))
parse_loop-print (suc n) ((k, vs) ∷ r) c w le =
    let c' = append_full c (dash ∷ k) in
    let b : Clp = record c' { key_values = emplace k vs c'.key_values } in
    let t = take_values-print vs r w.1 w.2 in
    let (d, e, p, f) = parse_loop-print n r b w.2 (omega (arith, le, length-append vs (print r))) in
    (
      d,
      ap
            (λ (w : List Text × List Text).
              parse_loop n w.1 (record c' { key_values = emplace k w.0 c.key_values }))
            t
          ∙ e,
      p,
      λ j. f j ∙ find_behind k j vs c.key_values r,
    )

-- A command line of keys and values is parsed back: each key has the values of its first occurrence, a
-- key that does not occur is not set, and the program's name is the first argument. Keys must not begin
-- with a digit, and values not with a dash, except for a dash with a digit behind it.
pub parse-print :
    (p : Text) (m : Values)
    → Printable m
    → (d : Clp) × (parse (p ∷ print m) empty_clp ≡ some (returns d))
      × (d.program_name ≡ p)
      × ((k : Text) → find k d.key_values ≡ find k m)
unfolding parse
parse-print p m w =
    parse_loop-print (length (print m)) m (record empty_clp { program_name = p }) w (omega arith)
