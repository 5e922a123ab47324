-- ===== src/Clp/Keys.antt =====
-- CLP.cpp: the map of keys, and `setDefault`.
use mathlib.Core.Path.{subst}
use coproto.Prelude.{
  ◌≡◌, ◌≢◌, refl, sym, ap, ap₂, ◌∙◌, inl, inr, true, Option, none, some, List, [], ◌∷◌, ◌++◌, arith,
  ◌==◌, ==→eq, eq→==, Bool-cases,
}
use coproto.Clp.{
  Text, Values, Clp, eq_text, find, emplace, append_value, has_value, set_default, space,
}
use coproto.Clp.Split.{join, AllWithout, split-join}

pub eq_text-eq : (s t : Text) → eq_text s t ≡ true → s ≡ t
eq_text-eq [] [] e = refl
eq_text-eq [] (b ∷ t) e = cc
eq_text-eq (a ∷ s) [] e = cc
eq_text-eq (a ∷ s) (b ∷ t) e = elim (Bool-cases (a == b)) [
  | inl h ↦ ap₂ (λ x y. x ∷ y) (==→eq a b h) (eq_text-eq s t (ground (arith, e, h)))
  | inr h ↦ absurd (ground (arith, e, h))
]

pub eq_text_refl : (s : Text) → eq_text s s ≡ true
eq_text_refl [] = refl
eq_text_refl (a ∷ s) = ground (arith, eq→== a a refl, eq_text_refl s)

-- The value that a key gets unless it has one.
abbrev pub or_else : Option (List Text) → Option (List Text) → Option (List Text)
or_else none o = o
or_else (some vs) o = some vs

pub find-emplace_same :
    (k : Text) (vs : List Text) (m : Values)
    → find k (emplace k vs m) ≡ or_else (find k m) (some vs)
find-emplace_same k vs [] = ground (arith, eq_text_refl k)
find-emplace_same k vs ((j, ws) ∷ r) = elim (Bool-cases (eq_text j k)) [
  | inl h ↦ ground (arith, h)
  | inr h ↦ ground (arith, h, find-emplace_same k vs r)
]

pub find-emplace_other :
    (k j : Text) (vs : List Text) (m : Values) → j ≢ k → find k (emplace j vs m) ≡ find k m
find-emplace_other k j vs [] ne = elim (Bool-cases (eq_text j k)) [
  | inl h ↦ absurd (ne (eq_text-eq j k h))
  | inr h ↦ ground (arith, h)
]
find-emplace_other k j vs ((i, ws) ∷ r) ne = elim (Bool-cases (eq_text i j)) [
  | inl h ↦ ground (arith, h)
  | inr h ↦ elim (Bool-cases (eq_text i k)) [
    | inl y ↦ ground (arith, h, y)
    | inr y ↦ ground (arith, h, y, find-emplace_other k j vs r ne)
  ]
]

find-append_same :
    (k v : Text) (m : Values) (vs : List Text)
    → find k m ≡ some vs
    → find k (append_value k v m) ≡ some (vs ++ (v ∷ []))
find-append_same k v [] vs e = cc
find-append_same k v ((j, ws) ∷ r) vs e = elim (Bool-cases (eq_text j k)) [
  | inl h ↦ let z : ws ≡ vs = ground (arith, e, h) in ground (arith, h, z)
  | inr h ↦ ground (arith, h, find-append_same k v r vs (ground (arith, e, h)))
]

find-append_other : (k j v : Text) (m : Values) → j ≢ k → find k (append_value j v m) ≡ find k m
find-append_other k j v [] ne = refl
find-append_other k j v ((i, ws) ∷ r) ne = elim (Bool-cases (eq_text i j)) [
  | inl h ↦
      let z = eq_text-eq i j h in
      elim (Bool-cases (eq_text i k)) [
        | inl y ↦ absurd (ne (sym z ∙ eq_text-eq i k y))
        | inr y ↦ ground (arith, h, y)
      ]
  | inr h ↦ elim (Bool-cases (eq_text i k)) [
    | inl y ↦ ground (arith, h, y)
    | inr y ↦ ground (arith, h, y, find-append_other k j v r ne)
  ]
]

-- What a default does to its key: a key that is not set gets the parts of the value between spaces, a
-- key without values the value as it is, and another one keeps what it has.
abbrev pub Defaulted : Option (List Text) → Text → Option (List Text) → Type 0
Defaulted none v o =
    (ps : List Text) × (o ≡ some ps) × (join (space ∷ []) ps ≡ v) × AllWithout (space ∷ []) ps
Defaulted (some []) v o = o ≡ some (v ∷ [])
Defaulted (some (w ∷ ws)) v o = o ≡ some (w ∷ ws)

abbrev DefaultSet : Text → Text → Clp → Option Clp → Type 0
DefaultSet k v c o =
    (d : Clp) × (o ≡ some d)
    × (has_value k d ≡ true)
    × Defaulted (find k c.key_values) v (find k d.key_values)
    × ((j : Text) → k ≢ j → find j d.key_values ≡ find j c.key_values)

-- `setDefault` always returns, and the key then has a value. A key that had values keeps them; a key
-- that was set without any gets the whole text; any other gets the parts between the spaces. No other
-- key changes.
pub set_default_lem :
    (k v : Text) (c : Clp)
    → (d : Clp) × (set_default k v c ≡ some d)
      × (has_value k d ≡ true)
      × Defaulted (find k c.key_values) v (find k d.key_values)
      × ((j : Text) → k ≢ j → find j d.key_values ≡ find j c.key_values)
unfolding set_default
set_default_lem k v c = by_value (find k c.key_values) refl
  where
    by_value :
        (o : Option (List Text)) → find k c.key_values ≡ o → DefaultSet k v c (set_default k v c)
    by_value none e =
        let (p, ps, f, j, a) = split-join space [] v in
        let s : find k (emplace k (p ∷ ps) c.key_values) ≡ some (p ∷ ps) =
          find-emplace_same k (p ∷ ps) c.key_values ∙ ap (λ o. or_else o (some (p ∷ ps))) e in
        (
          record c { key_values = emplace k (p ∷ ps) c.key_values },
          ground (arith, e, f),
          ground (arith, s),
          subst (λ o. Defaulted o v (find k (emplace k (p ∷ ps) c.key_values))) (sym e)
              (p ∷ ps, s, j, a),
          λ i ne. find-emplace_other i k (p ∷ ps) c.key_values ne,
        )
    by_value (some []) e =
        let s = find-append_same k v c.key_values [] e in
        (
          record c { key_values = append_value k v c.key_values },
          ground (arith, e),
          ground (arith, s),
          ground (arith, e, s),
          λ i ne. find-append_other i k v c.key_values ne,
        )
    by_value (some (w ∷ ws)) e =
        (c, ground (arith, e), ground (arith, e), ground (arith, e), λ i ne. refl)
