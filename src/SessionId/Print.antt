-- ===== src/SessionId/Print.antt =====
-- coproto/Proto/SessionID.h, `operator<<` and `toString`. A character is its code.
use mathlib.Core.List.{map-append}
use coproto.Prelude.{
  ℕ, zero, suc, ◌+◌, ◌-◌, ◌*◌, ◌/◌, ◌%◌, ◌^◌, ◌<◌, ◌≡◌, ◌↔◌, refl, sym, ap, ap₂, ◌∙◌, inl, inr,
  true, List, [], ◌∷◌, ◌++◌, arith, map, length, replicate, length-append, append_assoc, take, drop,
  ◌==◌, ltb, if◌then◌else◌, Bool-cases, ==→eq, eq→==,
}
use native.Mathlib.Nat.{pow-suc, pow-zero}
use coproto.Prelude.Word.{u64_mod}
use coproto.SessionId.{SessionId, same}
use coproto.Wire.{take_at, drop_at}

-- The hexadecimal digits, most significant first. The fuel bounds them.
unfoldable pub hex_digits : ℕ → ℕ → List ℕ
hex_digits zero v = []
hex_digits (suc n) v =
    let rest = hex_digits n (v / 16) in if v / 16 == 0 then v % 16 ∷ [] else rest ++ (v % 16 ∷ [])

abbrev pub hex_char : ℕ → ℕ
hex_char d = if ltb d 10 then 48 + d else 87 + d

-- A word under `std::setw(16)` and `std::setfill('0')`.
unfoldable pub hex_word : ℕ → List ℕ
unfolding hex_digits
hex_word v = let ds = map hex_char (hex_digits 16 v) in replicate (16 - length ds) 48 ++ ds

unfoldable pub to_string : SessionId → List ℕ
unfolding hex_word
to_string id = hex_word id.v1 ++ hex_word id.v0

-- The same digits in a fixed number, and what they stand for.
fixed : ℕ → ℕ → List ℕ
fixed zero v = []
fixed (suc n) v = fixed n (v / 16) ++ (hex_char (v % 16) ∷ [])

digit : ℕ → ℕ
digit c = if ltb c 58 then c - 48 else c - 87

value : List ℕ → ℕ → ℕ
unfolding digit
value [] acc = acc
value (c ∷ cs) acc = value cs (16 * acc + digit c)

value-append : (xs ys : List ℕ) (acc : ℕ) → value (xs ++ ys) acc ≡ value ys (value xs acc)
unfolding value
value-append [] ys acc = refl
value-append (c ∷ cs) ys acc = value-append cs ys (16 * acc + digit c)

digit-hex_char : (d : ℕ) → d < 16 → digit (hex_char d) ≡ d
unfolding digit
digit-hex_char d p = ground arith

value-fixed : (n v : ℕ) → v < 16 ^ n → value (fixed n v) 0 ≡ v
unfolding value fixed
value-fixed zero v p = omega (arith, pow-zero 16)
value-fixed (suc n) v p =
    value-append (fixed n (v / 16)) (hex_char (v % 16) ∷ []) 0
    ∙ ap₂ (λ a b. 16 * a + b) (value-fixed n (v / 16) (omega (arith, pow-suc 16 n)))
        (digit-hex_char (v % 16) (omega arith))
    ∙ omega arith

length-fixed : (n v : ℕ) → length (fixed n v) ≡ n
unfolding fixed
length-fixed zero v = refl
length-fixed (suc n) v =
    omega
      (arith, length-append (fixed n (v / 16)) (hex_char (v % 16) ∷ []), length-fixed n (v / 16))

replicate-snoc : (n c : ℕ) → replicate n c ++ (c ∷ []) ≡ replicate (suc n) c
replicate-snoc zero c = refl
replicate-snoc (suc n) c = ap (◌∷◌ c) (replicate-snoc n c)

fixed-zero : (n : ℕ) → fixed n 0 ≡ replicate n 48
unfolding fixed
fixed-zero zero = refl
fixed-zero (suc n) = ap (λ ds. ds ++ (48 ∷ [])) (fixed-zero n) ∙ replicate-snoc n 48

length-map_hex :
    (xs : List ℕ) (d : ℕ) → length (map hex_char (xs ++ (d ∷ []))) ≡ length (map hex_char xs) + 1
length-map_hex xs d =
    ap length (map-append hex_char xs (d ∷ [])) ∙ length-append (map hex_char xs) (hex_char d ∷ [])

abbrev padded : ℕ → ℕ → List ℕ
unfolding hex_digits
padded n v = let ds = map hex_char (hex_digits n v) in replicate (n - length ds) 48 ++ ds

one_digit : (n v : ℕ) → (v / 16 == 0) ≡ true → padded (suc n) v ≡ fixed (suc n) v
unfolding hex_digits fixed padded
one_digit n v z =
    let e : suc n - 1 ≡ n = omega arith in
    rw (z, ==→eq _ _ z)
      (ap (λ k. replicate k 48 ++ (hex_char (v % 16) ∷ [])) e
        ∙ ap (λ ds. ds ++ (hex_char (v % 16) ∷ [])) (sym (fixed-zero n)))

-- The digits that the stream prints, padded, are the fixed number of digits.
padded-fixed : (n v : ℕ) → v < 16 ^ suc n → padded (suc n) v ≡ fixed (suc n) v
unfolding hex_digits fixed padded
padded-fixed zero v p = one_digit zero v (eq→== _ _ (omega (arith, pow-suc 16 0, pow-zero 16)))
padded-fixed (suc n) v p = elim (Bool-cases (v / 16 == 0)) [
  | inl z ↦ one_digit (suc n) v z
  | inr z ↦
      let ds : List ℕ = hex_digits (suc n) (v / 16) in
      let q : v / 16 < 16 ^ suc n = omega (arith, pow-suc 16 (suc n)) in
      let ih : padded (suc n) (v / 16) ≡ fixed (suc n) (v / 16) = padded-fixed n (v / 16) q in
      let pad : List ℕ = replicate (suc n - length (map hex_char ds)) 48 in
      let k : suc (suc n) - length (map hex_char (ds ++ (v % 16 ∷ [])))
          ≡ suc n - length (map hex_char ds) =
        omega (arith, length-map_hex ds (v % 16)) in
      rw z (
        ap₂ (λ i xs. replicate i 48 ++ xs) k (map-append hex_char ds (v % 16 ∷ []))
        ∙ sym (append_assoc pad (map hex_char ds) _)
        ∙ ap (λ xs. xs ++ (hex_char (v % 16) ∷ [])) ih)
]

hex_word-fixed : (v : ℕ) → v < u64_mod → hex_word v ≡ fixed 16 v
unfolding hex_word padded
hex_word-fixed v p = padded-fixed 15 v p

words_of_string :
    (id : SessionId)
    → id.v0 < u64_mod
    → id.v1 < u64_mod
    → (value (take 16 (to_string id)) 0 ≡ id.v1) × (value (drop 16 (to_string id)) 0 ≡ id.v0)
unfolding to_string
words_of_string id p q =
    let a = hex_word-fixed id.v1 q in
    let b = hex_word-fixed id.v0 p in
    (
      ap (λ s. value s 0)
            (take_at 16 (hex_word id.v1) (hex_word id.v0) (ap length a ∙ length-fixed 16 id.v1) ∙ a)
          ∙ value-fixed 16 id.v1 q,
      ap (λ s. value s 0)
            (drop_at 16 (hex_word id.v1) (hex_word id.v0) (ap length a ∙ length-fixed 16 id.v1) ∙ b)
          ∙ value-fixed 16 id.v0 p,
    )

-- Two session ids of machine words are printed as the same text exactly if `operator==` holds of them.
pub to_string-same :
    (a b : SessionId)
    → a.v0 < u64_mod
    → a.v1 < u64_mod
    → b.v0 < u64_mod
    → b.v1 < u64_mod
    → (to_string a ≡ to_string b) ↔ (same a b ≡ true)
unfolding to_string
to_string-same a b p q r s = (
  (λ e.
      let (x, y) = words_of_string a p q in
      let (z, w) = words_of_string b r s in
      let e1 : a.v1 ≡ b.v1 = sym x ∙ ap (λ t. value (take 16 t) 0) e ∙ z in
      let e0 : a.v0 ≡ b.v0 = sym y ∙ ap (λ t. value (drop 16 t) 0) e ∙ w in ground (arith, e0, e1)),
  λ h.
      let e0 : a.v0 ≡ b.v0 = ground (arith, h) in
      let e1 : a.v1 ≡ b.v1 = ground (arith, h) in ap₂ (λ x y. hex_word x ++ hex_word y) e1 e0,
)
