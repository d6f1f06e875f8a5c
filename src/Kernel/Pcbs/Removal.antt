-- ===== src/Kernel/Pcbs/Removal.antt =====
-- pcb_remove of Kernel/src/pcbutils.c: what is left in the lists, and which programs are freed.
use esthe_r.Base.{some-injective}
use esthe_r.Base.{
  ℕ, ◌≡◌, refl, sym, ap, ◌∙◌, Bool, true, false, ◌||◌, Option, none, some, List, [], ◌∷◌, ◌==◌,
  if◌then◌else◌, Bool-cases, inl, inr, subst, All, arith,
}
use esthe_r.Structures.{Pcb}
use esthe_r.Kernel.{KernelState, Status, write_pcb, set_queue, same_status}
use esthe_r.Kernel.Pcbs.{remove_pcbs, remove_from, remove_all}
use esthe_r.Kernel.Quiet.{Ensures, Ensures-bind, Ensures-some, Ensures-weaken, known, listed}

abbrev pub member : Status → List Status → Bool
member st [] = false
member st (s ∷ sts) = same_status st s || member st sts

module _ (condition : Pcb → Bool) where
  -- No live program of the list satisfies the condition.
  pub Out : (ℕ → Option Pcb) → List ℕ → Type 0
  Out pcb_at ps = All (λ q. (c : Pcb) → pcb_at q ≡ some c → condition c ≡ false) ps

  Out-mono :
      (at1 at2 : ℕ → Option Pcb) (ps : List ℕ)
      → ((q : ℕ) (c : Pcb) → at2 q ≡ some c → at1 q ≡ some c)
      → Out at1 ps
      → Out at2 ps
  unfolding Out
  Out-mono at1 at2 [] f o = tt
  Out-mono at1 at2 (p ∷ ps) f (o, os) = ((λ c e. o c (f p c e)), Out-mono at1 at2 ps f os)

  -- Programs are freed, and those that are in none of the lists stay.
  pub record Freeing (ps : List ℕ) (k : KernelState) (left : List ℕ) (k' : KernelState)
      : Type 0 where
    pub queues : k'.queue ≡ k.queue
    pub alive : (q : ℕ) (c : Pcb) → k'.pcb_at q ≡ some c → k.pcb_at q ≡ some c
    pub kept : (q : ℕ) → listed q ps ≡ false → (k'.pcb_at q ≡ k.pcb_at q) × (listed q left ≡ false)
    pub out : Out k'.pcb_at left

  abbrev pub freed : Bool → ℕ → KernelState → KernelState
  freed gone p k = if gone then write_pcb p none k else k

  freed-alive :
      (gone : Bool) (p q : ℕ) (c : Pcb) (k : KernelState)
      → (freed gone p k).pcb_at q ≡ some c
      → k.pcb_at q ≡ some c
  freed-alive false p q c k e = e
  freed-alive true p q c k e = elim (Bool-cases (q == p)) [
    | inl t ↦ (let f : none ≡ some c = rw t at e in cc)
    | inr t ↦ rw t at e
  ]

  freed-queue : (gone : Bool) (p : ℕ) (k : KernelState) → (freed gone p k).queue ≡ k.queue
  freed-queue true p k = refl
  freed-queue false p k = refl

  pub freed-kept :
      (gone : Bool) (p q : ℕ) (k : KernelState)
      → (q == p) ≡ false
      → (freed gone p k).pcb_at q ≡ k.pcb_at q
  freed-kept true p q k t = rw t refl
  freed-kept false p q k t = refl

  -- One program more, freed or not.
  step :
      (p : ℕ) (ps left : List ℕ) (gone : Bool) (c : Pcb) (k k2 : KernelState)
      → k.pcb_at p ≡ some c
      → condition c ≡ gone
      → Freeing ps (freed gone p k) left k2
      → Freeing (p ∷ ps) k (if gone then left else p ∷ left) k2
  unfolding Out
  step p ps left true c k k2 e g f = record {
    queues = f.queues;
    alive = λ q d a. freed-alive true p q d k (f.alive q d a);
    kept = λ q l.
        let (a, b) = f.kept q (ground (arith, l)) in
        let apart : (q == p) ≡ false = ground (arith, l) in (a ∙ freed-kept true p q k apart, b);
    out = f.out;
  }
  step p ps left false c k k2 e g f = record {
    queues = f.queues;
    alive = f.alive;
    kept = λ q l.
        let (a, b) = f.kept q (ground (arith, l)) in
        let apart : (q == p) ≡ false = ground (arith, l) in (a, rw apart b);
    out = (
      (λ d a.
          let same : c ≡ d = some-injective c d (sym e ∙ f.alive p d a) in
          ap condition (sym same) ∙ g),
      f.out,
    );
  }

  pub remove_pcbs-Freeing :
      (ps : List ℕ) (k : KernelState)
      → Ensures (λ (r : List ℕ × KernelState). Freeing ps k r.0 r.1) (remove_pcbs condition ps k)
  unfolding remove_pcbs Out
  remove_pcbs-Freeing [] k =
      Ensures-some _ ([], k)
        (record { queues = refl; alive = λ q c e. e; kept = λ q l. (refl, refl); out = tt })
  remove_pcbs-Freeing (p ∷ ps) k =
      Ensures-bind (λ c. k.pcb_at p ≡ some c) _ (k.pcb_at p) _ (known (k.pcb_at p))
        (λ c e.
          Ensures-bind _ _ _ _ (remove_pcbs-Freeing ps (freed (condition c) p k)) (λ (left, k2) f.
            Ensures-some _ (if condition c then left else p ∷ left, k2)
              (step p ps left (condition c) c k k2 e refl f)))

  -- The lists named are cleared of such programs, the others are the same.
  pub record Clearing (sts : List Status) (k k' : KernelState) : Type 0 where
    pub others : (st : Status) → member st sts ≡ false → k'.queue st ≡ k.queue st
    pub alive : (q : ℕ) (c : Pcb) → k'.pcb_at q ≡ some c → k.pcb_at q ≡ some c
    pub kept : (q : ℕ) → ((st : Status) → listed q (k.queue st) ≡ false) → k'.pcb_at q ≡ k.pcb_at q
    pub out_of : (st : Status) → member st sts ≡ true → Out k'.pcb_at (k'.queue st)

  unfoldable pub Removed : Status → KernelState → KernelState → Type 0
  Removed s k k1 =
      (left : List ℕ) × (k0 : KernelState) × Freeing (k.queue s) k left k0
      × (k1 ≡ set_queue s left k0)

  removed : (s : Status) (k : KernelState) → Ensures (Removed s k) (remove_from condition s k)
  unfolding remove_from Removed
  removed s k =
      Ensures-bind _ (Removed s k) _ _ (remove_pcbs-Freeing (k.queue s) k)
        (λ (left, k0) f. Ensures-some (Removed s k) (set_queue s left k0) (left, k0, f, refl))

  pub removed-queue :
      (s st : Status) (left : List ℕ) (k k0 k1 : KernelState)
      → Freeing (k.queue s) k left k0
      → k1 ≡ set_queue s left k0
      → k1.queue st ≡ (if same_status st s then left else k.queue st)
  removed-queue s st left k k0 k1 f e =
      ap (λ (k : KernelState). k.queue st) e
      ∙ ap (λ (q : Status → List ℕ). if same_status st s then left else q st) f.queues

  both :
      (s : Status) (sts : List Status) (k k1 k2 : KernelState)
      → Removed s k k1
      → Clearing sts k1 k2
      → Clearing (s ∷ sts) k k2
  unfolding Removed
  both s sts k k1 k2 (left, k0, f, e) d = record {
    others = λ st m.
        let a : same_status st s ≡ false = ground (arith, m) in
        let b : member st sts ≡ false = ground (arith, m) in
        d.others st b
        ∙ ap (λ (k : KernelState). k.queue st) e
        ∙ rw a (ap (λ (q : Status → List ℕ). q st) f.queues);
    alive = λ q c a. f.alive q c (rw e at (d.alive q c a));
    kept = λ q l.
        d.kept q (λ st.
          ap (listed q) (removed-queue s st left k k0 k1 f e)
          ∙ elim (Bool-cases (same_status st s)) [
            | inl t ↦ rw t (f.kept q (l s)).1
            | inr t ↦ rw t (l st)
          ])
        ∙ ap (λ (k : KernelState). k.pcb_at q) e
        ∙ (f.kept q (l s)).0;
    out_of = λ st m. elim (Bool-cases (member st sts)) [
      | inl t ↦ d.out_of st t
      | inr t ↦
          let a : same_status st s ≡ true = ground (arith, m, t) in
          let here : k2.queue st ≡ left =
            d.others st t ∙ removed-queue s st left k k0 k1 f e ∙ rw a refl in
          subst (Out k2.pcb_at) (sym here)
            (Out-mono k0.pcb_at k2.pcb_at left (λ q c g. rw e at (d.alive q c g)) f.out)
    ];
  }

  pub remove_all-Clearing :
      (sts : List Status) (k : KernelState) → Ensures (Clearing sts k) (remove_all condition sts k)
  unfolding remove_all
  remove_all-Clearing [] k = Ensures-some (Clearing [] k) k (record {
    others = λ st m. refl;
    alive = λ q c e. e;
    kept = λ q l. refl;
    out_of = λ st m. absurd (ground (arith, m));
  })
  remove_all-Clearing (s ∷ sts) k =
      Ensures-bind (Removed s k) (Clearing (s ∷ sts) k) _ _ (removed s k) (λ k1 r.
        Ensures-weaken (Clearing sts k1) (Clearing (s ∷ sts) k) _ (λ k2 d. both s sts k k1 k2 r d)
          (remove_all-Clearing sts k1))
