-- ===== src/Consola/Valid.antt =====
-- What holds of the programs of a console between two steps of its threads.
use esthe_r.Base.{
  ℕ, suc, ◌+◌, ◌≤◌, ◌<◌, ◌≡◌, refl, sym, ap, ◌∙◌, Bool, true, false, Option, none, some, List, [],
  ◌∷◌, ◌++◌, length, leb, ◌==◌, arith, Bool-cases, inl, inr, ◌⊎◌, ==_iff, subst, length-append,
}
use esthe_r.Consola.{
  Program, Phase, absent, idle, starting, creating, unlinking, ConsoleState, max_programs, put,
  unlink, has_element,
}

-- Main has created a thread, and not yet appended its program.
abbrev pub pending : Phase → ℕ
pending (creating tid) = 1
pending _ = 0

-- Some thread is about to take the program out of the list.
abbrev pub BeingUnlinked : ℕ → (ℕ → Phase) → Type 0
BeingUnlinked q phases = (i : ℕ) × (phases i ≡ unlinking q)

abbrev pub is_unlinking : Phase → Bool
is_unlinking (unlinking p) = true
is_unlinking _ = false

abbrev pub is_absent : Phase → Bool
is_absent absent = true
is_absent _ = false

-- At most ten programs, the one that is being created among them; and a program in the list is not freed,
-- unless a thread is about to take it out.
pub record Valid (programs : List ℕ) (program_at : ℕ → Option Program) (phases : ℕ → Phase)
    (threads : ℕ) : Type 0 where
  pub capped : length programs + pending (phases 0) ≤ max_programs
  pub some_thread : 0 < threads
  pub unused : (i : ℕ) → threads ≤ i → phases i ≡ absent
  pub creates : (i : ℕ) → (i == 0) ≡ false → pending (phases i) ≡ 0
  pub live :
      (q : ℕ)
      → has_element q programs ≡ true
      → ((c : Program) × (program_at q ≡ some c)) ⊎ BeingUnlinked q phases

abbrev pub ValidState : ConsoleState → Type 0
ValidState s = Valid s.programs s.program_at s.phases s.threads

pub put_self {ℓ} : {A : Type ℓ} (i : ℕ) (v : A) (f : ℕ → A) → put i v f i ≡ v
put_self i v f = let t : (i == i) ≡ true = (==_iff i i).1 refl in rw t refl

pub put_other {ℓ} :
    {A : Type ℓ} (i j : ℕ) (v : A) (f : ℕ → A) → (j == i) ≡ false → put i v f j ≡ f j
put_other i j v f t = rw t refl

-- A thread that takes no program out goes on.
unlinked-put :
    (q i : ℕ) (phase : Phase) (phases : ℕ → Phase)
    → is_unlinking (phases i) ≡ false
    → BeingUnlinked q phases
    → BeingUnlinked q (put i phase phases)
unlinked-put q i phase phases n (j, e) = elim (Bool-cases (j == i)) [
  | inl t ↦
      let f : phases i ≡ unlinking q = ap phases (sym ((==_iff j i).0 t)) ∙ e in
      absurd (let g : is_unlinking (unlinking q) ≡ false = ap is_unlinking (sym f) ∙ n in cc)
  | inr t ↦ (j, put_other i j phase phases t ∙ e)
]

pending-put :
    (i : ℕ) (phase : Phase) (phases : ℕ → Phase)
    → pending phase ≡ 0
    → pending (put i phase phases 0) ≤ pending (phases 0)
pending-put i phase phases e = elim (Bool-cases (0 == i)) [
  | inl t ↦ rw t (omega (arith, e))
  | inr t ↦ rw t (omega arith)
]

unused-put :
    (i threads : ℕ) (phase : Phase) (phases : ℕ → Phase)
    → is_absent (phases i) ≡ false
    → ((j : ℕ) → threads ≤ j → phases j ≡ absent)
    → (j : ℕ) → threads ≤ j
    → put i phase phases j ≡ absent
unused-put i threads phase phases n u j h = elim (Bool-cases (j == i)) [
  | inl t ↦
      let f : phases i ≡ absent = ap phases (sym ((==_iff j i).0 t)) ∙ u j h in
      absurd (let g : is_absent absent ≡ false = ap is_absent (sym f) ∙ n in cc)
  | inr t ↦ put_other i j phase phases t ∙ u j h
]

creates-put :
    (i : ℕ) (phase : Phase) (phases : ℕ → Phase)
    → pending phase ≡ 0
    → ((j : ℕ) → (j == 0) ≡ false → pending (phases j) ≡ 0)
    → (j : ℕ) → (j == 0) ≡ false
    → pending (put i phase phases j) ≡ 0
creates-put i phase phases e c j n = elim (Bool-cases (j == i)) [
  | inl t ↦ rw t e
  | inr t ↦ rw t (c j n)
]

module _ (programs : List ℕ) (program_at : ℕ → Option Program) (phases : ℕ → Phase) (threads : ℕ)
    (v : Valid programs program_at phases threads) where
  -- Programs are changed, and none is freed.
  pub Valid-live :
      (at' : ℕ → Option Program)
      → ((q : ℕ) (c : Program) → program_at q ≡ some c → (d : Program) × (at' q ≡ some d))
      → Valid programs at' phases threads
  Valid-live at' f = record {
    capped = v.capped;
    some_thread = v.some_thread;
    unused = v.unused;
    creates = v.creates;
    live = λ q l. elim (v.live q l) [ inl (c, e) ↦ inl (f q c e) | inr u ↦ inr u ];
  }

  -- A thread goes on.
  pub Valid-phase :
      (i : ℕ) (phase : Phase)
      → is_unlinking (phases i) ≡ false
      → is_absent (phases i) ≡ false
      → pending phase ≡ 0
      → Valid programs program_at (put i phase phases) threads
  Valid-phase i phase n a e = record {
    capped = let b = pending-put i phase phases e in let c = v.capped in omega (arith, b, c);
    some_thread = v.some_thread;
    unused = unused-put i threads phase phases a v.unused;
    creates = creates-put i phase phases e v.creates;
    live = λ q l. elim (v.live q l) [
      | inl c ↦ inl c
      | inr u ↦ inr (unlinked-put q i phase phases n u)
    ];
  }

  -- The program is freed by a thread that is about to take it out.
  pub Valid-freed :
      (i p : ℕ)
      → is_unlinking (phases i) ≡ false
      → is_absent (phases i) ≡ false
      → Valid programs (put p none program_at) (put i (unlinking p) phases) threads
  Valid-freed i p n a = record {
    capped =
        let b = pending-put i (unlinking p) phases refl in let c = v.capped in omega (arith, b, c);
    some_thread = v.some_thread;
    unused = unused-put i threads (unlinking p) phases a v.unused;
    creates = creates-put i (unlinking p) phases refl v.creates;
    live = λ q l. elim (Bool-cases (q == p)) [
      | inl t ↦ inr (i, put_self i (unlinking p) phases ∙ ap unlinking (sym ((==_iff q p).0 t)))
      | inr t ↦ elim (v.live q l) [
        | inl (c, e) ↦ inl (c, put_other p q none program_at t ∙ e)
        | inr u ↦ inr (unlinked-put q i (unlinking p) phases n u)
      ]
    ];
  }

has_element-unlink :
    (q p : ℕ) (ps : List ℕ)
    → has_element q (unlink p ps) ≡ true
    → (has_element q ps ≡ true) × ((q == p) ≡ false)
has_element-unlink q p [] l = absurd (let f = l in cc)
has_element-unlink q p (x ∷ ps) l = ground (arith, has_element-unlink q p ps)

length-unlink : (p : ℕ) (ps : List ℕ) → length (unlink p ps) ≤ length ps
length-unlink p [] = omega arith
length-unlink p (x ∷ ps) = ground (arith, length-unlink p ps)

has_element-append :
    (q p : ℕ) (ps : List ℕ)
    → has_element q (ps ++ (p ∷ [])) ≡ true
    → (has_element q ps ≡ true) ⊎ ((q == p) ≡ true)
has_element-append q p [] l = inr (ground (arith, l))
has_element-append q p (x ∷ ps) l = elim (Bool-cases (q == x)) [
  | inl t ↦ inl (rw t refl)
  | inr t ↦ rw t (has_element-append q p ps (rw t at l))
]

module _ (programs : List ℕ) (program_at : ℕ → Option Program) (phases : ℕ → Phase) (threads : ℕ)
    (v : Valid programs program_at phases threads) where
  -- The program is taken out of the list.
  pub Valid-unlinked :
      (i p : ℕ) (phase : Phase)
      → phases i ≡ unlinking p
      → pending phase ≡ 0
      → Valid (unlink p programs) program_at (put i phase phases) threads
  Valid-unlinked i p phase e f = record {
    capped =
        let b = pending-put i phase phases f in
        let c = v.capped in let d = length-unlink p programs in omega (arith, b, c, d);
    some_thread = v.some_thread;
    unused = unused-put i threads phase phases (ap is_absent e) v.unused;
    creates = creates-put i phase phases f v.creates;
    live = λ q l.
        let (l', n) = has_element-unlink q p programs l in
        elim (v.live q l') [
          | inl c ↦ inl c
          | inr (j, u) ↦ elim (Bool-cases (j == i)) [
            | inl t ↦ absurd (
                let g : unlinking p ≡ unlinking q =
                  sym e ∙ ap phases (sym ((==_iff j i).0 t)) ∙ u in
                let h : q ≡ p = ap (λ a. elim a [ unlinking r ↦ r | _ ↦ q ]) (sym g) in
                let k : (q == p) ≡ true = (==_iff q p).1 h in cc)
            | inr t ↦ inr (j, put_other i j phase phases t ∙ u)
          ]
        ];
  }

  -- A thread is created for a program, where there is room for it.
  pub Valid-created :
      phases 0 ≡ idle
      → leb max_programs (length programs) ≡ false
      → Valid programs program_at
          (put 0 (creating threads) (put threads starting phases))
          (suc threads)
  Valid-created e room = record {
    capped = omega (arith, (let r : length programs < max_programs = ground (arith, room) in r));
    some_thread = omega arith;
    unused = λ i h.
        let a : (i == 0) ≡ false = ground (arith, h) in
        let b : (i == threads) ≡ false = ground (arith, h) in
        rw (a, b) (v.unused i (omega (arith, h)));
    creates = λ i n. rw n (creates-put threads starting phases refl v.creates i n);
    live = λ q l. elim (v.live q l) [
      | inl c ↦ inl c
      | inr u ↦
          let n : is_unlinking (phases threads) ≡ false =
            ap is_unlinking (v.unused threads (omega arith)) in
          let u' = unlinked-put q threads starting phases n u in
          inr (
            unlinked-put q 0 (creating threads) (put threads starting phases)
              (elim (Bool-cases (0 == threads)) [ inl t ↦ rw t refl | inr t ↦ rw (t, e) refl ]) u')
    ];
  }

  -- Its program is appended.
  pub Valid-appended :
      (tid p : ℕ) (c : Program)
      → phases 0 ≡ creating tid
      → Valid (programs ++ (p ∷ [])) (put p (some c) program_at) (put 0 idle phases) threads
  Valid-appended tid p c e = record {
    capped =
        let b : length programs + 1 ≤ max_programs =
          subst (λ a. length programs + pending a ≤ max_programs) e v.capped in
        let l = length-append programs (p ∷ []) in omega (arith, b, l);
    some_thread = v.some_thread;
    unused = unused-put 0 threads idle phases (ap is_absent e) v.unused;
    creates = creates-put 0 idle phases refl v.creates;
    live = λ q l. elim (Bool-cases (q == p)) [
      | inl t ↦ inl (c, rw t refl)
      | inr t ↦ elim (has_element-append q p programs l) [
        | inr u ↦ absurd (let g : true ≡ false = sym u ∙ t in cc)
        | inl l' ↦ elim (v.live q l') [
          | inl (d, f) ↦ inl (d, put_other p q (some c) program_at t ∙ f)
          | inr u ↦ inr (unlinked-put q 0 idle phases (ap is_unlinking e) u)
        ]
      ]
    ];
  }
