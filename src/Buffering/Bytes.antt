-- ===== src/Buffering/Bytes.antt =====
-- BufferingSocket.h, `Buffer`: the chunks as a queue of bytes.
use mathlib.Core.Path.{subst}
use coproto.Prelude.{
  ℕ, zero, suc, ◌+◌, ◌-◌, ◌%◌, ◌≤◌, ◌<◌, min, ◌≡◌, refl, sym, ap, ap₂, ◌∙◌, inl, inr, some, List,
  [], ◌∷◌, ◌++◌, arith, ◌==◌, length, take, drop, flatten, length-append, length-drop,
  flatten-append, drop-append_le, take-append_le, drop-append_ge, take-append_ge, drop-drop,
  Bool-cases, ==→eq, ==→ne, eq→==, le→leb,
}
use coproto.Prelude.Word.{u64_mod}
use coproto.Buffering.{Buffer, checked, pop_loop, pop, push}

-- The bytes that a buffer holds, oldest first.
abbrev pub items : Buffer → List ℕ
items b = drop b.front (flatten b.chunks)

abbrev pub first_length : List (List ℕ) → ℕ
first_length [] = 0
first_length (c ∷ cs) = length c

-- The offset lies in the first chunk, and the count is that of the bytes behind it.
pub record IsBuffer (b : Buffer) : Type 0 where
  pub fits : b.front ≤ first_length b.chunks
  pub sized : b.size + b.front ≡ length (flatten b.chunks)
  pub bound : length (flatten b.chunks) < u64_mod

pub length-items : (b : Buffer) → IsBuffer b → length (items b) ≡ b.size
length-items b v = omega (arith, length-drop b.front (flatten b.chunks), v.sized)

pub checked-IsBuffer : (b : Buffer) → IsBuffer b → checked b ≡ some b
unfolding checked
checked-IsBuffer b v = ground (
  arith,
  eq→== ((length (flatten b.chunks) + u64_mod - b.front) % u64_mod) b.size
      (omega (arith, v.sized, v.bound)),
)

-- What the loop has taken, and what it leaves.
abbrev Popped : List (List ℕ) → ℕ → ℕ → List ℕ → Buffer → Type 0
Popped cs front n bytes b =
    (bytes ≡ take n (drop front (flatten cs)))
    × (items b ≡ drop n (drop front (flatten cs)))
    × (b.front ≤ first_length b.chunks)
    × (b.size + b.front ≡ length (flatten b.chunks))
    × (length (flatten b.chunks) ≤ length (flatten cs))

take_all {ℓ} : {A : Type ℓ} (n : ℕ) (xs : List A) → length xs ≤ n → take n xs ≡ xs
take_all zero [] h = refl
take_all zero (x ∷ xs) h = absurd (omega arith)
take_all (suc n) [] h = refl
take_all (suc n) (x ∷ xs) h = ap (◌∷◌ x) (take_all n xs (omega arith))

-- The first chunk is used up, and the loop goes on with the others.
used_chunk :
    (c : List ℕ) (cs : List (List ℕ)) (front n : ℕ) (bytes : List ℕ) (b : Buffer)
    → front ≤ length c
    → length c - front ≤ n
    → Popped cs 0 (n - (length c - front)) bytes b
    → Popped (c ∷ cs) front n (take (length c - front) (drop front c) ++ bytes) b
unfolding flatten
used_chunk c cs front n bytes b fits all (taken, left, f, s, l) = (
  ap₂ (◌++◌) (take_all (length c - front) xs (omega (arith, len)))
        (taken ∙ ap (λ k. take k (flatten cs)) (sub))
      ∙ sym (take-append_ge n xs (flatten cs) (omega (arith, len)))
      ∙ ap (take n) (sym split),
  left
      ∙ ap (λ k. drop k (flatten cs)) (sub)
      ∙ sym (drop-append_ge n xs (flatten cs) (omega (arith, len)))
      ∙ ap (drop n) (sym split),
  f,
  s,
  omega (arith, l, length-append c (flatten cs)),
)
  where
    xs : List ℕ
    xs = drop front c

    len : length xs ≡ length c - front
    len = length-drop front c

    sub : n - (length c - front) ≡ n - length xs
    sub = omega (arith, len)

    split : drop front (c ++ flatten cs) ≡ xs ++ flatten cs
    split = drop-append_le front c (flatten cs) fits

-- The first chunk holds more than is asked for.
last_part :
    (c : List ℕ) (cs : List (List ℕ)) (front size n m : ℕ)
    → front ≤ length c
    → n < length c - front
    → m ≡ n
    → size + front ≡ length (flatten (c ∷ cs))
    → n ≤ size
    → Popped
        (c ∷ cs)
        front
        n
        (take m (drop front c))
        (record { front = front + m; size = size - m; chunks = c ∷ cs })
unfolding flatten
last_part c cs front size n m fits less e sized room = (
  ap (λ k. take k (drop front c)) e
      ∙ sym (take-append_le n (drop front c) (flatten cs) (omega (arith, length-drop front c)))
      ∙ ap (take n) (sym (drop-append_le front c (flatten cs) fits)),
  ap (λ k. drop (front + k) (c ++ flatten cs)) e ∙ sym (drop-drop n front (c ++ flatten cs)),
  omega arith,
  omega arith,
  omega arith,
)

drop_nil : (n : ℕ) → drop {A = ℕ} n [] ≡ []
drop_nil zero = refl
drop_nil (suc n) = refl

take_nil : (n : ℕ) → take {A = ℕ} n [] ≡ []
take_nil zero = refl
take_nil (suc n) = refl

-- Nothing is asked for.
nothing_asked :
    (cs : List (List ℕ)) (front size n : ℕ)
    → front ≤ first_length cs
    → size + front ≡ length (flatten cs)
    → n ≡ 0
    → Popped cs front n [] (record { front = front; size = size; chunks = cs })
nothing_asked cs front size n fits sized z = (
  ap (λ k. take k (drop front (flatten cs))) (sym z),
  ap (λ k. drop k (drop front (flatten cs))) (sym z),
  fits,
  sized,
  omega arith,
)

pop_loop_lem :
    (cs : List (List ℕ)) (front size n : ℕ)
    → front ≤ first_length cs
    → size + front ≡ length (flatten cs)
    → n ≤ size
    → (bytes : List ℕ) × (b : Buffer) × (pop_loop cs front size n ≡ some (bytes, b))
      × Popped cs front n bytes b
unfolding pop_loop flatten
pop_loop_lem [] front size n fits sized room =
    let z : n ≡ 0 = omega arith in
    (
      [],
      record { front = front; size = size; chunks = [] },
      rw (eq→== n 0 z) refl,
      nothing_asked [] front size n fits sized z,
    )
pop_loop_lem (c ∷ cs) front size n fits sized room = elim (Bool-cases (n == 0)) [
  | inl z ↦ (
    [],
    record { front = front; size = size; chunks = c ∷ cs },
    rw z refl,
    nothing_asked (c ∷ cs) front size n fits sized (==→eq n 0 z),
  )
  | inr more ↦
      let m = min n (length c - front) in
      elim (Bool-cases (front + m == length c)) [
        | inl used ↦
            let u = ==→eq _ _ used in
            let e : m ≡ length c - front = omega arith in
            let rest =
              pop_loop_lem cs 0 (size - m) (n - m) (omega arith)
                (omega (arith, sized, length-append c (flatten cs))) (omega arith) in
            (
              take m (drop front c) ++ rest.0,
              rest.1,
              rw (more, used, rest.2) refl,
              subst (λ k. Popped (c ∷ cs) front n (take k (drop front c) ++ rest.0) rest.1) (sym e)
                  (used_chunk c cs front n rest.0 rest.1 fits (omega arith)
                    (subst (λ k. Popped cs 0 (n - k) rest.0 rest.1) e rest.3)),
            )
        | inr part ↦
            let u = ==→ne _ _ part in
            (
              take m (drop front c),
              record { front = front + m; size = size - m; chunks = c ∷ cs },
              rw (more, part) refl,
              last_part c cs front size n m fits (omega arith) (omega arith) sized room,
            )
      ]
]

-- `pop` hands out the oldest bytes and keeps the rest in order.
pub pop_lem :
    (n : ℕ) (b : Buffer)
    → IsBuffer b
    → n ≤ b.size
    → (b' : Buffer) × (pop n b ≡ some (take n (items b), b'))
      × (items b' ≡ drop n (items b))
      × IsBuffer b'
      × (length (flatten b'.chunks) ≤ length (flatten b.chunks))
unfolding pop
pop_lem n b v room =
    let p = pop_loop_lem b.chunks b.front b.size n v.fits v.sized room in
    let w : IsBuffer p.1 = record {
      fits = p.3.2;
      sized = p.3.3;
      bound = omega (arith, p.3.4, v.bound);
    } in
    (
      p.1,
      rw (le→leb n b.size room, p.2, checked-IsBuffer p.1 w)
          (ap (λ bytes. some (bytes, p.1)) p.3.0),
      p.3.1,
      w,
      p.3.4,
    )

first_length-append :
    (cs : List (List ℕ)) (c : List ℕ) (n : ℕ)
    → n ≤ first_length cs
    → n ≤ first_length (cs ++ (c ∷ []))
first_length-append [] c n h = omega arith
first_length-append (x ∷ cs) c n h = h

first_length-le : (cs : List (List ℕ)) → first_length cs ≤ length (flatten cs)
unfolding flatten
first_length-le [] = omega arith
first_length-le (c ∷ cs) = omega (arith, length-append c (flatten cs))

-- `push` adds its bytes behind the others, as long as the buffer stays below 2^64 bytes.
pub push_lem :
    (bytes : List ℕ) (b : Buffer)
    → IsBuffer b
    → length (flatten b.chunks) + length bytes < u64_mod
    → (b' : Buffer) × (push bytes b ≡ some b')
      × (items b' ≡ items b ++ bytes)
      × IsBuffer b'
      × (length (flatten b'.chunks) ≡ length (flatten b.chunks) + length bytes)
unfolding push
push_lem bytes b v room =
    let b' : Buffer = record b {
      chunks = b.chunks ++ (bytes ∷ []);
      size = (b.size + length bytes) % u64_mod;
    } in
    let len : length (flatten b'.chunks) ≡ length (flatten b.chunks) + length bytes =
      ap length (flatten-append b.chunks bytes) ∙ length-append (flatten b.chunks) bytes in
    let w : IsBuffer b' = record {
      fits = first_length-append b.chunks bytes b.front v.fits;
      sized = omega (arith, len, v.sized);
      bound = omega (arith, len);
    } in
    (
      b',
      checked-IsBuffer b' w,
      ap (drop b.front) (flatten-append b.chunks bytes)
          ∙ drop-append_le b.front (flatten b.chunks) bytes (omega (arith, v.sized)),
      w,
      len,
    )
