-- ===== src/Kernel/Pcbs/Live.antt =====
-- pcb_remove of Kernel/src/pcbutils.c ends when the lists have live programs, each once.
use esthe_r.Base.{
  ℕ, ◌≡◌, refl, sym, ap, ◌∙◌, Bool, true, false, Option, some, List, [], ◌∷◌, ◌==◌, if◌then◌else◌,
  Bool-cases, inl, inr, subst, ==_iff, arith,
}
use esthe_r.Structures.{Pcb}
use esthe_r.Kernel.{KernelState, Status, set_queue, same_status}
use esthe_r.Kernel.Pcbs.{remove_pcbs, remove_from, remove_all}
use esthe_r.Kernel.Pcbs.Removal.{
  freed, Freeing, remove_pcbs-Freeing, Removed, removed-queue, freed-kept,
}
use esthe_r.Kernel.Quiet.{Ensures-result, listed}

-- Each pointer of the list is to a live program, and is there once.
unfoldable pub Alive : (ℕ → Option Pcb) → List ℕ → Type 0
Alive pcb_at [] = Unit
Alive pcb_at (p ∷ ps) = ((c : Pcb) × (pcb_at p ≡ some c)) × (listed p ps ≡ false) × Alive pcb_at ps

pub Alive-mono :
    (at1 at2 : ℕ → Option Pcb) (ps : List ℕ)
    → ((q : ℕ) → listed q ps ≡ true → (c : Pcb) → at1 q ≡ some c → (d : Pcb) × (at2 q ≡ some d))
    → Alive at1 ps
    → Alive at2 ps
unfolding Alive
Alive-mono at1 at2 [] f a = tt
Alive-mono at1 at2 (p ∷ ps) f ((c, e), once, a) =
    let t : (p == p) ≡ true = (==_iff p p).1 refl in
    (f p (rw t refl) c e, once, Alive-mono at1 at2 ps (λ q l. f q (ground (arith, l))) a)

-- The connections are the same.
unfoldable pub Wired : KernelState → KernelState → Type 0
Wired k k' = (k'.connection ≡ k.connection) × (k'.memfd ≡ k.memfd)

Wired-trans : (a b c : KernelState) → Wired a b → Wired b c → Wired a c
unfolding Wired
Wired-trans a b c (e, f) (g, h) = (g ∙ e, h ∙ f)

freed-Wired :
    (condition : Pcb → Bool) (gone : Bool) (p : ℕ) (k : KernelState)
    → Wired k (freed condition gone p k)
unfolding Wired
freed-Wired condition true p k = (refl, refl)
freed-Wired condition false p k = (refl, refl)

listed-apart : (p q : ℕ) (ps : List ℕ) → listed p ps ≡ false → listed q ps ≡ true → (q == p) ≡ false
listed-apart p q ps out i = elim (Bool-cases (q == p)) [
  | inl t ↦ let w : listed p ps ≡ true = subst (λ a. listed a ps ≡ true) ((==_iff q p).0 t) i in cc
  | inr t ↦ t
]

module _ (condition : Pcb → Bool) where
  remove_pcbs-returns :
      (ps : List ℕ) (k : KernelState)
      → Alive k.pcb_at ps
      → (left : List ℕ) × (k' : KernelState) × (remove_pcbs condition ps k ≡ some (left, k'))
        × Wired k k'
  unfolding remove_pcbs Alive Wired
  remove_pcbs-returns [] k a = ([], k, refl, (refl, refl))
  remove_pcbs-returns (p ∷ ps) k ((c, e), once, a) =
      let k1 = freed condition (condition c) p k in
      let (left, k2, r, w) = remove_pcbs-returns ps k1 (
        Alive-mono k.pcb_at k1.pcb_at ps
          (λ q l d f.
            (d, freed-kept condition (condition c) p q k (listed-apart p q ps once l) ∙ f))
          a) in
      (
        if condition c then left else p ∷ left,
        k2,
        rw (e, r) refl,
        Wired-trans k k1 k2 (freed-Wired condition (condition c) p k) w,
      )

  remove_from-returns :
      (s : Status) (k : KernelState)
      → Alive k.pcb_at (k.queue s)
      → (k1 : KernelState) × (remove_from condition s k ≡ some k1)
        × Removed condition s k k1
        × Wired k k1
  unfolding remove_from Removed Wired
  remove_from-returns s k a =
      let (left, k0, r, w) = remove_pcbs-returns (k.queue s) k a in
      (
        set_queue s left k0,
        rw r refl,
        (
          left,
          k0,
          Ensures-result (λ (x : List ℕ × KernelState). Freeing condition (k.queue s) k x.0 x.1) _
              (left, k0) (remove_pcbs-Freeing condition (k.queue s) k) r,
          refl,
        ),
        w,
      )

-- No program of list `s` is in one of the lists named.
unfoldable pub Apart : Status → List Status → (Status → List ℕ) → Type 0
Apart s [] queue = Unit
Apart s (t ∷ ts) queue =
    (same_status t s ≡ false)
    × ((q : ℕ) → listed q (queue t) ≡ true → listed q (queue s) ≡ false)
    × Apart s ts queue

-- The lists named have live programs, and each is in one of them, once.
unfoldable pub Live : List Status → KernelState → Type 0
Live [] k = Unit
Live (s ∷ sts) k = Alive k.pcb_at (k.queue s) × Apart s sts k.queue × Live sts k

module _ (condition : Pcb → Bool) (s : Status) (k k1 : KernelState)
    (r : Removed condition s k k1) where
  queue_same : (t : Status) → same_status t s ≡ false → k1.queue t ≡ k.queue t
  unfolding Removed
  queue_same t a =
      let (left, k0, f, e) = r in removed-queue condition s t left k k0 k1 f e ∙ rw a refl

  pcb_same : (q : ℕ) → listed q (k.queue s) ≡ false → k1.pcb_at q ≡ k.pcb_at q
  unfolding Removed
  pcb_same q out =
      let (left, k0, f, e) = r in ap (λ (a : KernelState). a.pcb_at q) e ∙ (f.kept q out).0

  Apart-after :
      (t : Status) (ts : List Status)
      → same_status t s ≡ false
      → Apart s ts k.queue
      → Apart t ts k.queue
      → Apart t ts k1.queue
  unfolding Apart
  Apart-after t [] a bs cs = tt
  Apart-after t (u ∷ ts) a (b, _, bs) (c, f, cs) = (
    c,
    (λ q l. ap (listed q) (queue_same t a) ∙ f q (sym (ap (listed q) (queue_same u b)) ∙ l)),
    Apart-after t ts a bs cs,
  )

  Live-after : (sts : List Status) → Apart s sts k.queue → Live sts k → Live sts k1
  unfolding Live Apart
  Live-after [] bs ls = tt
  Live-after (t ∷ ts) (a, f, bs) (l, cs, ls) = (
    subst (Alive k1.pcb_at) (sym (queue_same t a))
        (Alive-mono k.pcb_at k1.pcb_at (k.queue t) (λ q i c e. (c, pcb_same q (f q i) ∙ e)) l),
    Apart-after t ts a bs cs,
    Live-after ts bs ls,
  )

-- When the lists named have live programs, each once, remove_all ends.
pub remove_all-returns :
    (condition : Pcb → Bool) (sts : List Status) (k : KernelState)
    → Live sts k
    → (k' : KernelState) × (remove_all condition sts k ≡ some k') × Wired k k'
unfolding remove_all Live Wired
remove_all-returns condition [] k l = (k, refl, (refl, refl))
remove_all-returns condition (s ∷ sts) k (a, apart, l) =
    let (k1, e, r, w) = remove_from-returns condition s k a in
    let (k2, f, v) =
      remove_all-returns condition sts k1 (Live-after condition s k k1 r sts apart l) in
    (k2, rw (e, f) refl, Wired-trans k k1 k2 w v)

pub Live-mono :
    (sts : List Status) (a b : KernelState)
    → a.queue ≡ b.queue
    → ((q : ℕ) (c : Pcb) → a.pcb_at q ≡ some c → (d : Pcb) × (b.pcb_at q ≡ some d))
    → Live sts a
    → Live sts b
unfolding Live
Live-mono [] a b e f l = tt
Live-mono (s ∷ sts) a b e f (l, apart, ls) = (
  subst (λ (q : Status → List ℕ). Alive b.pcb_at (q s)) e
      (Alive-mono a.pcb_at b.pcb_at (a.queue s) (λ q i c g. f q c g) l),
  subst (Apart s sts) e apart,
  Live-mono sts a b e f ls,
)
