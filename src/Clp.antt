-- ===== src/Clp.antt =====
-- coproto/Common/CLP.h and CLP.cpp, the command line parser. A text is the list of its bytes, and the
-- unordered map of keys a list of pairs with each key once.
pub mod Split
pub mod Keys
pub mod Parse
pub mod Range
use coproto.Prelude.{
  ℕ, zero, suc, ◌+◌, ◌-◌, Bool, true, false, not, ◌&&◌, ◌||◌, Option, none, some, List, [], ◌∷◌,
  ◌++◌, if◌then◌else◌, ◌>>=◌, length, leb, ◌==◌,
}

abbrev pub Text : Type 0
Text = List ℕ

abbrev pub dash : ℕ
dash = 45

abbrev pub space : ℕ
space = 32

abbrev pub Values : Type 0
Values = List (Text × List Text)

pub record Clp : Type 0 where
  pub program_name : Text
  pub full_str : Text
  pub key_values : Values

abbrev pub empty_clp : Clp
empty_clp = record { program_name = []; full_str = []; key_values = [] }

abbrev pub eq_text : Text → Text → Bool
eq_text [] [] = true
eq_text (a ∷ s) (b ∷ t) = (a == b) && eq_text s t
eq_text _ _ = false

abbrev pub find : Text → Values → Option (List Text)
find k [] = none
find k ((j, vs) ∷ r) = if eq_text j k then some vs else find k r

-- `std::unordered_map::emplace`, which does nothing for a key that is there.
abbrev pub emplace : Text → List Text → Values → Values
emplace k vs [] = (k, vs) ∷ []
emplace k vs ((j, ws) ∷ r) = if eq_text j k then (j, ws) ∷ r else (j, ws) ∷ emplace k vs r

-- What `parse` does: it returns, or it throws and leaves the object as it is then.
pub data Outcome : Type 0 where
  returns : Clp → Outcome
  throws : Clp → Outcome

abbrev pub is_digit : ℕ → Bool
is_digit c = leb 48 c && leb c 57

-- An argument that the inner loop takes as a value: no dash at its head, or a digit behind the dash.
abbrev pub is_value : Text → Bool
is_value [] = true
is_value (c ∷ []) = not (c == dash)
is_value (c ∷ d ∷ t) = not (c == dash) || is_digit d

-- The inner loop of `parse`: the values, and the arguments behind them.
abbrev pub take_values : List Text → List Text × List Text
take_values [] = ([], [])
take_values (t ∷ ts) =
    if is_value t then (t ∷ (take_values ts).0, (take_values ts).1) else ([], t ∷ ts)

abbrev pub append_full : Clp → Text → Clp
append_full c t = record c { full_str = c.full_str ++ (t ++ (space ∷ [])) }

-- One round of the outer loop reads a key with its values; the fuel bounds the rounds.
unfoldable pub parse_loop : ℕ → List Text → Clp → Option Outcome
parse_loop n [] c = some (returns c)
parse_loop zero (t ∷ ts) c = none
parse_loop (suc n) ([] ∷ ts) c = some (throws (append_full c []))
parse_loop (suc n) ((a ∷ k) ∷ ts) c = elim (a == dash) [
  | false ↦ some (throws (append_full c (a ∷ k)))
  | true ↦
      let c' = append_full c (a ∷ k) in
      parse_loop n (take_values ts).1
        (record c' { key_values = emplace k (take_values ts).0 c'.key_values })
]

unfoldable pub parse : List Text → Clp → Option Outcome
unfolding parse_loop
parse [] c = some (returns c)
parse (p ∷ ts) c = parse_loop (length ts) ts (record c { program_name = p })

abbrev pub is_set : Text → Clp → Bool
is_set k c = elim (find k c.key_values) [ none ↦ false | some _ ↦ true ]

abbrev pub has_value : Text → Clp → Bool
has_value k c = elim (find k c.key_values) [ none ↦ false | some [] ↦ false | some (_ ∷ _) ↦ true ]

abbrev pub any_set : List Text → Clp → Bool
any_set [] c = false
any_set (k ∷ ks) c = if is_set k c then true else any_set ks c

abbrev pub any_value : List Text → Clp → Bool
any_value [] c = false
any_value (k ∷ ks) c = if has_value k c then true else any_value ks c

-- `set`: the map's `operator[]`.
unfoldable pub set_key : Text → Clp → Clp
set_key k c = record c { key_values = emplace k [] c.key_values }

-- `getList`; the exception is `none`.
unfoldable pub get_list : List Text → Clp → Option (List Text)
get_list [] c = none
get_list (k ∷ ks) c = if is_set k c then find k c.key_values else get_list ks c

-- `mKeyValues[key].emplace_back(value)` for a key that is there.
abbrev pub append_value : Text → Text → Values → Values
append_value k v [] = []
append_value k v ((j, ws) ∷ r) =
    if eq_text j k then (j, ws ++ (v ∷ [])) ∷ r else (j, ws) ∷ append_value k v r

-- Whether the text begins with the delimiter, and what is behind it.
abbrev pub strip : Text → Text → Option Text
strip [] s = some s
strip (a ∷ d) [] = none
strip (a ∷ d) (b ∷ s) = if a == b then strip d s else none

-- `find(delimiter)` with the two `substr`: what is in front of the first delimiter, and behind it.
abbrev pub cut : Text → Text → Option (Text × Text)
cut d [] = elim (strip d []) [ none ↦ none | some r ↦ some ([], r) ]
cut d (b ∷ s) = elim (strip d (b ∷ s)) [
  | some r ↦ some ([], r)
  | none ↦ elim (cut d s) [ none ↦ none | some (p, r) ↦ some (b ∷ p, r) ]
]

-- The loop of `split`; the fuel bounds its rounds.
unfoldable pub split_loop : ℕ → Text → Text → Option (List Text)
split_loop zero d s = none
split_loop (suc n) d s = elim (cut d s) [
  | none ↦ some (s ∷ [])
  | some (p, r) ↦ split_loop n d r >>= λ ps. some (p ∷ ps)
]

unfoldable pub split : Text → Text → Option (List Text)
unfolding split_loop
split s d = split_loop (suc (length s)) d s

-- `setDefault` of one key.
unfoldable pub set_default : Text → Text → Clp → Option Clp
unfolding split
set_default k v c =
    if has_value k c
    then some c
    else if is_set k c
    then some (record c { key_values = append_value k v c.key_values })
    else split v (space ∷ []) >>= λ ps. some (record c { key_values = emplace k ps c.key_values })

-- `setDefault` of several; without a key `keys[0]` is out of range.
unfoldable pub set_default_any : List Text → Text → Clp → Option Clp
unfolding set_default
set_default_any ks v c =
    if any_value ks c then some c else elim ks [ [] ↦ none | (k ∷ _) ↦ set_default k v c ]
