-- ===== src/Buffering/Moved.antt =====
-- BufferingSocket.h, `Buffer`: the chunks of one buffer moved behind those of another.
use coproto.Prelude.{
  ℕ, ◌+◌, ◌%◌, ◌≤◌, ◌<◌, ◌≡◌, refl, sym, ap, ◌∙◌, some, List, [], ◌∷◌, ◌++◌, arith, length, drop,
  flatten, length-append, append_assoc, drop-append_le, eq→==,
}
use coproto.Prelude.Word.{u64_mod}
use coproto.Buffering.{Buffer, push_buffer}
use coproto.Buffering.Bytes.{items, IsBuffer, checked-IsBuffer, first_length}

first_length-append :
    (cs ds : List (List ℕ)) (n : ℕ) → n ≤ first_length cs → n ≤ first_length (cs ++ ds)
first_length-append [] ds n h = omega arith
first_length-append (x ∷ cs) ds n h = h

flatten_all-append : (cs ds : List (List ℕ)) → flatten (cs ++ ds) ≡ flatten cs ++ flatten ds
unfolding flatten
flatten_all-append [] ds = refl
flatten_all-append (c ∷ cs) ds =
    ap (◌++◌ c) (flatten_all-append cs ds) ∙ sym (append_assoc c (flatten cs) (flatten ds))

-- Moving a buffer that starts at its first byte puts its bytes behind the others, in order, and leaves
-- it empty, as long as the bytes stay below 2^64.
pub push_buffer_lem :
    (other b : Buffer)
    → IsBuffer other
    → IsBuffer b
    → other.front ≡ 0
    → length (flatten b.chunks) + length (flatten other.chunks) < u64_mod
    → (b' : Buffer) × (rest : Buffer) × (push_buffer other b ≡ some (b', rest))
      × (items b' ≡ items b ++ items other)
      × (rest.chunks ≡ [])
      × IsBuffer b'
unfolding push_buffer
push_buffer_lem other b d v z room =
    let b' : Buffer = record b {
      chunks = b.chunks ++ other.chunks;
      size = (b.size + other.size) % u64_mod;
    } in
    let len : length (flatten b'.chunks)
        ≡ length (flatten b.chunks) + length (flatten other.chunks) =
      ap length (flatten_all-append b.chunks other.chunks)
      ∙ length-append (flatten b.chunks) (flatten other.chunks) in
    let w : IsBuffer b' = record {
      fits = first_length-append b.chunks other.chunks b.front v.fits;
      sized = omega (arith, len, v.sized, d.sized, z);
      bound = omega (arith, len);
    } in
    (
      b',
      record other { size = 0; chunks = [] },
      ground (arith, checked-IsBuffer other d, checked-IsBuffer b' w, eq→== other.front 0 z),
      ap (drop b.front) (flatten_all-append b.chunks other.chunks)
          ∙ drop-append_le b.front (flatten b.chunks) (flatten other.chunks)
              (omega (arith, v.sized))
          ∙ ap (λ n. items b ++ drop n (flatten other.chunks)) (sym z),
      refl,
      w,
    )
