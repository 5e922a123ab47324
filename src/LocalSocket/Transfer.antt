-- ===== src/LocalSocket/Transfer.antt =====
-- LocalAsyncSock.h: the bytes of a pair where a send and a receive meet.
use coproto.Prelude.{
  ℕ, ◌-◌, ◌<◌, min, ◌≡◌, refl, sym, ap, ◌∙◌, ◌⊎◌, inl, inr, true, false, Option, none, some, List,
  [], ◌∷◌, ◌++◌, arith, ◌==◌, length, take, drop, take-append-drop, append_assoc, append-nil,
  length-drop, Bool-cases, ==→eq, ==→ne, eq→==, ne→==,
}
use coproto.ErrorCode.{no_error}
use coproto.LocalSocket.{Sending, Receiving, OpPair, no_ops, Done, meet, start_send, start_recv}

-- The bytes that lie in the spans of a pair: those a receive has got, then those still to be sent.
abbrev got_of : Option Receiving → List ℕ
got_of none = []
got_of (some a) = a.got

abbrev rest_of : Option Sending → List ℕ
rest_of none = []
rest_of (some a) = a.rest

abbrev pub in_flight : OpPair → List ℕ
in_flight p = got_of p.receiving ++ rest_of p.sending

abbrev pub delivered : List Done → List ℕ
delivered [] = []
delivered (d ∷ ds) = d.bytes ++ delivered ds

-- A pair never holds a send and a receive at once, and neither is used up.
abbrev pub PairOk : OpPair → Type 0
PairOk p = elim p.sending [
  | none ↦ elim p.receiving [ none ↦ Unit {0} | some a ↦ 0 < a.room ]
  | some b ↦ (p.receiving ≡ none) × (0 < length b.rest)
]

nil_of_length {ℓ} : {A : Type ℓ} (xs : List A) → length xs ≡ 0 → xs ≡ []
nil_of_length [] h = refl
nil_of_length (x ∷ xs) h = absurd (omega arith)

append_nils {ℓ} : {A : Type ℓ} (xs : List A) → (xs ++ []) ++ [] ≡ xs
append_nils xs = append-nil (xs ++ []) ∙ append-nil xs

module _ (snd : Sending) (rcv : Receiving) (a : 0 < length snd.rest) (b : 0 < rcv.room) where
  abbrev m : ℕ
  m = min (length snd.rest) rcv.room

  abbrev Met : Type 0
  Met =
      (dones : List Done) × (p : OpPair) × (meet snd rcv ≡ some (dones, p))
      × (delivered dones ++ in_flight p ≡ rcv.got ++ snd.rest)
      × PairOk p
      × (0 < length dones)

  copied : (rcv.got ++ take m snd.rest) ++ drop m snd.rest ≡ rcv.got ++ snd.rest
  copied =
      append_assoc rcv.got (take m snd.rest) (drop m snd.rest)
      ∙ ap (◌++◌ rcv.got) (take-append-drop m snd.rest)

  some_copied : (m == 0) ≡ false
  some_copied = ne→== m 0 (omega arith)

  -- The receive is full.
  recv_full : (rcv.room - m == 0) ≡ true → Met
  unfolding meet
  recv_full full = elim (Bool-cases (length (drop m snd.rest) == 0)) [
    | inl used ↦
        let e = nil_of_length (drop m snd.rest) (==→eq _ _ used) in
        (
          record { handle = rcv.handle; err = no_error; bytes = rcv.got ++ take m snd.rest }
              ∷ record { handle = snd.handle; err = no_error; bytes = [] }
              ∷ [],
          no_ops,
          rw (some_copied, full, used) refl,
          append_nils (rcv.got ++ take m snd.rest)
              ∙ sym (append-nil (rcv.got ++ take m snd.rest))
              ∙ ap (◌++◌ (rcv.got ++ take m snd.rest)) (sym e)
              ∙ copied,
          tt,
          omega arith,
        )
    | inr more ↦ (
      record { handle = rcv.handle; err = no_error; bytes = rcv.got ++ take m snd.rest } ∷ [],
      record { sending = some (record snd { rest = drop m snd.rest }); receiving = none },
      rw (some_copied, full, more) refl,
      ap (λ xs. xs ++ drop m snd.rest) (append-nil (rcv.got ++ take m snd.rest)) ∙ copied,
      (refl, omega (arith, ==→ne (length (drop m snd.rest)) 0 more)),
      omega arith,
    )
  ]

  -- The receive has room left, so the send is used up.
  send_used : (rcv.room - m == 0) ≡ false → Met
  unfolding meet
  send_used room =
      let r = ==→ne (rcv.room - m) 0 room in
      let z : length (drop m snd.rest) ≡ 0 = omega (arith, length-drop m snd.rest) in
      let e = nil_of_length (drop m snd.rest) z in
      (
        record { handle = snd.handle; err = no_error; bytes = [] } ∷ [],
        record {
          sending = none;
          receiving = some (record rcv { got = rcv.got ++ take m snd.rest; room = rcv.room - m });
        },
        rw (some_copied, room, eq→== (length (drop m snd.rest)) 0 z) refl,
        ap (◌++◌ (rcv.got ++ take m snd.rest)) (sym e) ∙ copied,
        omega arith,
        omega arith,
      )

  meet_lem : Met
  meet_lem = elim (Bool-cases (rcv.room - m == 0)) [
    | inl full ↦ recv_full full
    | inr room ↦ send_used room
  ]

-- A send of some bytes joins a pair without a send: no byte is lost or put out of order, the pair
-- never holds a send and a receive at once, and an operation completes if a receive was there.
pub start_send-in_flight :
    (snd : Sending) (r : Option Receiving)
    → PairOk (record { sending = none; receiving = r })
    → 0 < length snd.rest
    → (dones : List Done) × (p : OpPair) × (start_send snd
          (record { sending = none; receiving = r })
        ≡ some (dones, p))
      × (delivered dones ++ in_flight p
          ≡ in_flight (record { sending = none; receiving = r }) ++ snd.rest)
      × PairOk p
      × ((r ≡ none) ⊎ (0 < length dones))
unfolding start_send
start_send-in_flight snd none v full =
    ([], record { sending = some snd; receiving = none }, refl, refl, (refl, full), inl refl)
start_send-in_flight snd (some rcv) v full =
    let w = meet_lem snd rcv full v in
    (w.0, w.1, w.2, w.3 ∙ ap (λ xs. xs ++ snd.rest) (sym (append-nil rcv.got)), w.4, inr w.5)

-- A receive that asks for some bytes joins a pair without a receive: the same holds.
pub start_recv-in_flight :
    (rcv : Receiving) (o : Option Sending)
    → PairOk (record { sending = o; receiving = none })
    → 0 < rcv.room
    → rcv.got ≡ []
    → (dones : List Done) × (p : OpPair) × (start_recv rcv
          (record { sending = o; receiving = none })
        ≡ some (dones, p))
      × (delivered dones ++ in_flight p ≡ in_flight (record { sending = o; receiving = none }))
      × PairOk p
      × ((o ≡ none) ⊎ (0 < length dones))
unfolding start_recv
start_recv-in_flight rcv none v room e = (
  [],
  record { sending = none; receiving = some rcv },
  refl,
  append-nil rcv.got ∙ e,
  room,
  inl refl,
)
start_recv-in_flight rcv (some snd) v room e =
    let w = meet_lem snd rcv v.1 room in
    (w.0, w.1, w.2, w.3 ∙ ap (λ xs. xs ++ snd.rest) e, w.4, inr w.5)
