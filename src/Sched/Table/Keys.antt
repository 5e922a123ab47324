-- ===== src/Sched/Table/Keys.antt =====
-- SocketScheduler.cpp: what ties the two maps to the forks. Only a fork's key takes part: the two
-- words of its session id, its local id and its remote id.
use coproto.Prelude.{
  ℕ, suc, ◌≤◌, ◌<◌, ◌≡◌, ◌≢◌, refl, sym, ap, ◌∙◌, ◌⊎◌, inl, inr, true, none, some, List, [], ◌∷◌,
  ◌++◌, arith, ◌==◌, eq→==, ==→eq, Bool-cases, length, get_elem?, set, get_elem?-append_left,
  get_elem?-append_last, get_elem?-append_cases, get_elem?-set_self, get_elem?-set_ne,
  get_elem?-set_cases,
}
use native.Mathlib.Decide.{ℕ_discrete}
use coproto.SessionId.{SessionId, same}
use coproto.Sched.State.{no_id}
use coproto.Sched.Table.{find_id, find_remote}

pub record Key : Type 0 where
  pub v0 : ℕ
  pub v1 : ℕ
  pub local_id : ℕ
  pub remote_id : ℕ

-- The fork of this key has this session id.
abbrev pub Names : Key → SessionId → Type 0
Names k id = (id.v0 ≡ k.v0) × (id.v1 ≡ k.v1)

pub record KeysOk (ks : List Key) (ids : List (SessionId × ℕ)) (remotes : List (ℕ × ℕ)) (next : ℕ)
    : Type 0 where
  pub id_sound :
      (id : SessionId) (i : ℕ)
      → find_id id ids ≡ some i
      → (k : Key) × (get_elem? ks i ≡ some k) × Names k id
  pub id_complete :
      (i : ℕ) (k : Key) (id : SessionId)
      → get_elem? ks i ≡ some k
      → Names k id
      → find_id id ids ≡ some i
  pub remote_sound :
      (r i : ℕ)
      → find_remote r remotes ≡ some i
      → (r ≢ no_id) × ((k : Key) × (get_elem? ks i ≡ some k) × (k.remote_id ≡ r))
  pub remote_complete :
      (i : ℕ) (k : Key)
      → get_elem? ks i ≡ some k
      → k.remote_id ≢ no_id
      → find_remote k.remote_id remotes ≡ some i
  pub local_range :
      (i : ℕ) (k : Key)
      → get_elem? ks i ≡ some k
      → (k.local_id ≡ no_id) ⊎ ((0 < k.local_id) × (k.local_id < next))
  pub local_unique :
      (i j : ℕ) (k l : Key)
      → get_elem? ks i ≡ some k
      → get_elem? ks j ≡ some l
      → k.local_id ≢ no_id
      → k.local_id ≡ l.local_id
      → i ≡ j
  pub next_range : (0 < next) × (next ≤ no_id)

abbrev pub new_key : SessionId → Key
new_key id = record { v0 = id.v0; v1 = id.v1; local_id = no_id; remote_id = no_id }

some_inj {ℓ} : {A : Type ℓ} {x y : A} → some x ≡ some y → x ≡ y
some_inj e = cc

same_iff : (a b : SessionId) → same a b ≡ true → (a.v0 ≡ b.v0) × (a.v1 ≡ b.v1)
same_iff a b e = ground arith

same_of_words : (a b : SessionId) → a.v0 ≡ b.v0 → a.v1 ≡ b.v1 → same a b ≡ true
same_of_words a b p q = ground arith

find_id-cons :
    (id j : SessionId) (i : ℕ) (m : List (SessionId × ℕ)) {r : ℕ}
    → find_id id ((j, i) ∷ m) ≡ some r
    → ((same j id ≡ true) × (i ≡ r)) ⊎ (find_id id m ≡ some r)
unfolding find_id
find_id-cons id j i m e = ground arith

find_remote-cons :
    (r q i : ℕ) (m : List (ℕ × ℕ)) {j : ℕ}
    → find_remote r ((q, i) ∷ m) ≡ some j
    → ((q ≡ r) × (i ≡ j)) ⊎ (find_remote r m ≡ some j)
unfolding find_remote
find_remote-cons r q i m e = elim (Bool-cases (q == r)) [
  | inl t ↦ inl (==→eq _ _ t, some_inj (ground arith))
  | inr t ↦ inr (ground arith)
]

none-some {ℓ} : {A : Type ℓ} {x : A} → none ≢ some x
none-some e = cc

module _ {ks : List Key} {ids : List (SessionId × ℕ)} {remotes : List (ℕ × ℕ)} {next : ℕ}
    (v : KeysOk ks ids remotes next) where
  -- A session that is not mapped yet gets a fork of its own at the end.
  pub extend-KeysOk :
      (id : SessionId)
      → find_id id ids ≡ none
      → KeysOk (ks ++ (new_key id ∷ [])) ((id, length ks) ∷ ids) remotes next
  unfolding find_id
  extend-KeysOk id fresh = record {
    id_sound = λ id' i e. elim (find_id-cons id' id (length ks) ids e) [
      | inl (s, p) ↦ (
        new_key id,
        ap (get_elem? (ks ++ (new_key id ∷ []))) (sym p) ∙ get_elem?-append_last ks (new_key id),
        (sym (same_iff id id' s).0, sym (same_iff id id' s).1),
      )
      | inr h ↦
          let k = v.id_sound id' i h in (k.0, get_elem?-append_left ks (new_key id ∷ []) i k.1, k.2)
    ];
    id_complete = λ i k id' e n. elim (get_elem?-append_cases ks (new_key id) i e) [
      | inl h ↦ elim (Bool-cases (same id id')) [
        | inl s ↦
            let w = same_iff id id' s in absurd (cc (v.id_complete i k id h (w.0 ∙ n.0, w.1 ∙ n.1)))
        | inr s ↦ rw (s, find_id) (v.id_complete i k id' h n)
      ]
      | inr (q, w) ↦
          rw
            (
              same_of_words id id' (sym (n.0 ∙ ap (λ (k : Key). k.v0) (sym w)))
                  (sym (n.1 ∙ ap (λ (k : Key). k.v1) (sym w))),
              find_id,
            )
            (ap some (sym q))
    ];
    remote_sound = λ r i e.
        let k = v.remote_sound r i e in
        (k.0, (k.1.0, get_elem?-append_left ks (new_key id ∷ []) i k.1.1, k.1.2));
    remote_complete = λ i k e p. elim (get_elem?-append_cases ks (new_key id) i e) [
      | inl h ↦ v.remote_complete i k h p
      | inr (q, w) ↦ absurd (p (ap (λ (k : Key). k.remote_id) (sym w)))
    ];
    local_range = λ i k e. elim (get_elem?-append_cases ks (new_key id) i e) [
      | inl h ↦ v.local_range i k h
      | inr (q, w) ↦ inl (ap (λ (k : Key). k.local_id) (sym w))
    ];
    local_unique = λ i j k l e f p q. elim (get_elem?-append_cases ks (new_key id) i e) [
      | inl h ↦ elim (get_elem?-append_cases ks (new_key id) j f) [
        | inl g ↦ v.local_unique i j k l h g p q
        | inr (_, w) ↦ absurd (p (q ∙ ap (λ (k : Key). k.local_id) (sym w)))
      ]
      | inr (_, w) ↦ absurd (p (ap (λ (k : Key). k.local_id) (sym w)))
    ];
    next_range = v.next_range;
  }

  -- Fork `i` gets another key.
  module _ (i : ℕ) (k : Key) (here : get_elem? ks i ≡ some k) (k' : Key) where
    abbrev Replaced : ℕ → Key → Key → Type 0
    Replaced j x y = ((i ≡ j) × (x ≡ k') × (y ≡ k)) ⊎ ((i ≢ j) × (x ≡ y))

    at_old :
        (j : ℕ) (x : Key)
        → get_elem? (set ks i k') j ≡ some x
        → (y : Key) × (get_elem? ks j ≡ some y) × Replaced j x y
    at_old j x e = elim (get_elem?-set_cases ks i j k' e) [
      | inl (p, q) ↦ (k, ap (get_elem? ks) (sym p) ∙ here, inl (p, sym q, refl))
      | inr (n, h) ↦ (x, h, inr (n, refl))
    ]

    at_new :
        (j : ℕ) (y : Key)
        → get_elem? ks j ≡ some y
        → (x : Key) × (get_elem? (set ks i k') j ≡ some x) × Replaced j x y
    at_new j y e = elim (ℕ_discrete i j) [
      | yes p ↦ (
        k',
        ap (get_elem? (set ks i k')) (sym p) ∙ get_elem?-set_self ks i k' here,
        inl (p, refl, some_inj (sym e ∙ ap (get_elem? ks) (sym p) ∙ here)),
      )
      | no n ↦ (y, get_elem?-set_ne ks i j k' n ∙ e, inr (n, refl))
    ]

    set_sound :
        k'.v0 ≡ k.v0
        → k'.v1 ≡ k.v1
        → (id : SessionId) (j : ℕ) → find_id id ids ≡ some j
        → (x : Key) × (get_elem? (set ks i k') j ≡ some x) × Names x id
    set_sound w0 w1 id j e =
        let y = v.id_sound id j e in
        let x = at_new j y.0 y.1 in
        (
          x.0,
          x.1,
          elim x.2 [
            | inl (_, p, q) ↦ (
              y.2.0 ∙ ap (λ (k : Key). k.v0) q ∙ sym w0 ∙ ap (λ (k : Key). k.v0) (sym p),
              y.2.1 ∙ ap (λ (k : Key). k.v1) q ∙ sym w1 ∙ ap (λ (k : Key). k.v1) (sym p),
            )
            | inr (_, p) ↦
                (y.2.0 ∙ ap (λ (k : Key). k.v0) (sym p), y.2.1 ∙ ap (λ (k : Key). k.v1) (sym p))
          ],
        )

    set_complete :
        k'.v0 ≡ k.v0
        → k'.v1 ≡ k.v1
        → (j : ℕ) (x : Key) (id : SessionId) → get_elem? (set ks i k') j ≡ some x
        → Names x id
        → find_id id ids ≡ some j
    set_complete w0 w1 j x id e n =
        let y = at_old j x e in
        v.id_complete j y.0 id y.1 (elim y.2 [
          | inl (_, p, q) ↦ (
            n.0 ∙ ap (λ (k : Key). k.v0) p ∙ w0 ∙ ap (λ (k : Key). k.v0) (sym q),
            n.1 ∙ ap (λ (k : Key). k.v1) p ∙ w1 ∙ ap (λ (k : Key). k.v1) (sym q),
          )
          | inr (_, p) ↦ (n.0 ∙ ap (λ (k : Key). k.v0) p, n.1 ∙ ap (λ (k : Key). k.v1) p)
        ])

    locals :
        k'.local_id ≡ k.local_id → {j : ℕ} {x y : Key} → Replaced j x y → x.local_id ≡ y.local_id
    locals e (inl (_, p, q)) =
        ap (λ (k : Key). k.local_id) p ∙ e ∙ ap (λ (k : Key). k.local_id) (sym q)
    locals e (inr (_, p)) = ap (λ (k : Key). k.local_id) p

    -- The peer's slot id of a fork that has none, where no fork has that slot id.
    pub set_remote-KeysOk :
        (slot : ℕ)
        → k' ≡ record k { remote_id = slot }
        → k.remote_id ≡ no_id
        → slot ≢ no_id
        → find_remote slot remotes ≡ none
        → KeysOk (set ks i k') ids ((slot, i) ∷ remotes) next
    unfolding find_remote
    set_remote-KeysOk slot e unset valid fresh = record {
      id_sound = set_sound (ap (λ (k : Key). k.v0) e) (ap (λ (k : Key). k.v1) e);
      id_complete = set_complete (ap (λ (k : Key). k.v0) e) (ap (λ (k : Key). k.v1) e);
      remote_sound = λ r j f. elim (find_remote-cons r slot i remotes f) [
        | inl (p, q) ↦ (
          (λ h. valid (p ∙ h)),
          (
            k',
            ap (get_elem? (set ks i k')) (sym q) ∙ get_elem?-set_self ks i k' here,
            ap (λ (k : Key). k.remote_id) e ∙ p,
          ),
        )
        | inr h ↦
            let y = v.remote_sound r j h in
            let x = at_new j y.1.0 y.1.1 in
            (
              y.0,
              (
                x.0,
                x.1,
                elim x.2 [
                  | inl (_, _, q) ↦
                      absurd (y.0 (sym y.1.2 ∙ ap (λ (k : Key). k.remote_id) q ∙ unset))
                  | inr (_, p) ↦ ap (λ (k : Key). k.remote_id) p ∙ y.1.2
                ],
              ),
            )
      ];
      remote_complete = λ j x f p.
          let y = at_old j x f in
          elim y.2 [
            | inl (q, w, _) ↦
                let t : slot ≡ x.remote_id =
                  sym (ap (λ (k : Key). k.remote_id) e) ∙ ap (λ (k : Key). k.remote_id) (sym w) in
                rw (eq→== _ _ t, find_remote) (ap some q)
            | inr (_, w) ↦
                let h =
                  v.remote_complete j y.0 y.1 (λ t. p (ap (λ (k : Key). k.remote_id) w ∙ t)) in
                elim (Bool-cases (slot == x.remote_id)) [
                  | inl t ↦ absurd (
                      none-some (
                        sym fresh
                        ∙ ap (λ r. find_remote r remotes)
                            (==→eq _ _ t ∙ ap (λ (k : Key). k.remote_id) w)
                        ∙ h))
                  | inr t ↦
                      rw (t, find_remote)
                        (ap (λ r. find_remote r remotes) (ap (λ (k : Key). k.remote_id) w) ∙ h)
                ]
          ];
      local_range = λ j x f.
          let y = at_old j x f in
          let h = locals (ap (λ (k : Key). k.local_id) e) y.2 in
          elim (v.local_range j y.0 y.1) [
            | inl a ↦ inl (h ∙ a)
            | inr (a, b) ↦ inr (omega arith, omega arith)
          ];
      local_unique = λ j l x z f g p q.
          let y = at_old j x f in
          let w = at_old l z g in
          let h = locals (ap (λ (k : Key). k.local_id) e) y.2 in
          let h' = locals (ap (λ (k : Key). k.local_id) e) w.2 in
          v.local_unique j l y.0 w.0 y.1 w.1 (λ t. p (h ∙ t)) (sym h ∙ q ∙ h');
      next_range = v.next_range;
    }

    -- The next local id for a fork that has none.
    pub set_local-KeysOk :
        k' ≡ record k { local_id = next }
        → k.local_id ≡ no_id
        → next < no_id
        → KeysOk (set ks i k') ids remotes (suc next)
    set_local-KeysOk e unset small = record {
      id_sound = set_sound (ap (λ (k : Key). k.v0) e) (ap (λ (k : Key). k.v1) e);
      id_complete = set_complete (ap (λ (k : Key). k.v0) e) (ap (λ (k : Key). k.v1) e);
      remote_sound = λ r j f.
          let y = v.remote_sound r j f in
          let x = at_new j y.1.0 y.1.1 in (y.0, (x.0, x.1, sym (remotes_same x.2) ∙ y.1.2));
      remote_complete = λ j x f p.
          let y = at_old j x f in
          let h = remotes_same y.2 in
          ap (λ r. find_remote r remotes) (sym h)
          ∙ v.remote_complete j y.0 y.1 (λ t. p (sym h ∙ t));
      local_range = λ j x f.
          let y = at_old j x f in
          elim y.2 [
            | inl (_, p, _) ↦
                let h : x.local_id ≡ next =
                  ap (λ (k : Key). k.local_id) p ∙ ap (λ (k : Key). k.local_id) e in
                inr (omega (arith, v.next_range), omega (arith, v.next_range))
            | inr (_, p) ↦
                let h : x.local_id ≡ y.0.local_id = ap (λ (k : Key). k.local_id) p in
                elim (v.local_range j y.0 y.1) [
                  | inl a ↦ inl (h ∙ a)
                  | inr (a, b) ↦ inr (omega arith, omega arith)
                ]
          ];
      local_unique = λ j l x z f g p q.
          let y = at_old j x f in
          let w = at_old l z g in
          elim y.2 [
            | inl (a, x_new, _) ↦ elim w.2 [
              | inl (b, _, _) ↦ sym a ∙ b
              | inr (_, c) ↦ absurd (
                  not_next l w.0 w.1 (
                    sym (ap (λ (k : Key). k.local_id) c)
                    ∙ sym q
                    ∙ ap (λ (k : Key). k.local_id) x_new
                    ∙ ap (λ (k : Key). k.local_id) e))
            ]
            | inr (_, c) ↦ elim w.2 [
              | inl (_, z_new, _) ↦ absurd (
                  not_next j y.0 y.1 (
                    sym (ap (λ (k : Key). k.local_id) c)
                    ∙ q
                    ∙ ap (λ (k : Key). k.local_id) z_new
                    ∙ ap (λ (k : Key). k.local_id) e))
              | inr (_, d) ↦
                  v.local_unique j l y.0 w.0 y.1 w.1 (λ t. p (ap (λ (k : Key). k.local_id) c ∙ t))
                    (sym (ap (λ (k : Key). k.local_id) c) ∙ q ∙ ap (λ (k : Key). k.local_id) d)
            ]
          ];
      next_range = (omega arith, omega (arith, v.next_range));
    }
      where
        remotes_same : {j : ℕ} {x y : Key} → Replaced j x y → y.remote_id ≡ x.remote_id
        remotes_same (inl (_, p, q)) =
            ap (λ (k : Key). k.remote_id) q
            ∙ sym (ap (λ (k : Key). k.remote_id) p ∙ ap (λ (k : Key). k.remote_id) e)
        remotes_same (inr (_, p)) = ap (λ (k : Key). k.remote_id) (sym p)

        not_next : (j : ℕ) (y : Key) → get_elem? ks j ≡ some y → y.local_id ≢ next
        not_next j y f t = elim (v.local_range j y f) [
          | inl a ↦ omega arith
          | inr (a, b) ↦ omega arith
        ]
