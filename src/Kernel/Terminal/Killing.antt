-- ===== src/Kernel/Terminal/Killing.antt =====
-- What the loops of `kill` of Kernel/src/console.c do to the lists of programs.
use esthe_r.Base.{
  ℕ, ◌≡◌, refl, sym, ap, ◌∙◌, Bool, true, false, ◌||◌, Option, none, some, List, [], ◌∷◌, ◌++◌,
  ◌==◌, arith, Bool-cases, inl, inr, ==_iff, append-nil, append_assoc,
}
use esthe_r.Base.Int.{ℤ}
use esthe_r.Structures.{Pcb}
use esthe_r.Kernel.{KernelState, Status, new, ready, exec, block, exit, same_status}
use esthe_r.Kernel.Quiet.{listed}
use esthe_r.Kernel.Terminal.{kill_from}
use esthe_r.Kernel.Terminal.Kill.{
  id_is, has_pid, AllLive, killed_pcb, moved_state, first_of, without_first, Popped,
  kill_from-Popped,
}

-- A control block, killed or as it was.
abbrev pub killed_if : Bool → Option Pcb → Option Pcb
killed_if true (some c) = some (killed_pcb c)
killed_if true none = none
killed_if false c = c

-- The control blocks `moved` stand behind those that ended, and have their new status and exit code; no
-- other control block and nothing but the lists is changed.
pub record Killed (moved : List ℕ) (k k' : KernelState) : Type 0 where
  pub exits : k'.queue exit ≡ k.queue exit ++ moved
  pub running : k'.queue exec ≡ k.queue exec
  pub blocks : (q : ℕ) → k'.pcb_at q ≡ killed_if (listed q moved) (k.pcb_at q)
  pub rest : k' ≡ record k { queue = k'.queue; pcb_at = k'.pcb_at }

pub Killed-refl : (k : KernelState) → Killed [] k k
Killed-refl k = record {
  exits = sym (append-nil (k.queue exit));
  running = refl;
  blocks = λ q. refl;
  rest = refl;
}

listed-append : (q : ℕ) (ps qs : List ℕ) → listed q (ps ++ qs) ≡ listed q ps || listed q qs
listed-append q [] qs = refl
listed-append q (p ∷ ps) qs = ground (arith, listed-append q ps qs)

killed_twice : (a b : Bool) (c : Option Pcb) → killed_if b (killed_if a c) ≡ killed_if (a || b) c
killed_twice true true none = refl
killed_twice true true (some c) = refl
killed_twice true false none = refl
killed_twice true false (some c) = refl
killed_twice false b c = refl

pub Killed-trans :
    (xs ys : List ℕ) (a b c : KernelState) → Killed xs a b → Killed ys b c → Killed (xs ++ ys) a c
Killed-trans xs ys a b c x y = record {
  exits = y.exits ∙ ap (λ l. l ++ ys) x.exits ∙ append_assoc (a.queue exit) xs ys;
  running = y.running ∙ x.running;
  blocks = λ q.
      y.blocks q
      ∙ ap (killed_if (listed q ys)) (x.blocks q)
      ∙ killed_twice (listed q xs) (listed q ys) (a.pcb_at q)
      ∙ ap (λ l. killed_if l (a.pcb_at q)) (sym (listed-append q xs ys));
  rest = y.rest ∙ ap (λ (d : KernelState). record d { queue = c.queue; pcb_at = c.pcb_at }) x.rest;
}

-- A list that kill looks at.
pub data Looked : Status → Type 0 where
  at_new : Looked new
  at_block : Looked block
  at_ready : Looked ready

module _ (k : KernelState) (p : ℕ) (c : Pcb) (rest : List ℕ) where
  moved_exits :
      {st : Status} → Looked st → (moved_state st p c rest k).queue exit ≡ k.queue exit ++ (p ∷ [])
  moved_exits at_new = refl
  moved_exits at_block = refl
  moved_exits at_ready = refl

  moved_running : {st : Status} → Looked st → (moved_state st p c rest k).queue exec ≡ k.queue exec
  moved_running at_new = refl
  moved_running at_block = refl
  moved_running at_ready = refl

  moved_left : {st : Status} → Looked st → (moved_state st p c rest k).queue st ≡ rest
  moved_left at_new = refl
  moved_left at_block = refl
  moved_left at_ready = refl

moved-Killed :
    (pid : ℤ) (st : Status) (k : KernelState) (rest : List ℕ) (x : Popped pid (k.queue st) k.pcb_at)
    → Looked st
    → Killed (x.p ∷ []) k (moved_state st x.p x.c rest k)
moved-Killed pid st k rest x look = record {
  exits = moved_exits k x.p x.c rest look;
  running = moved_running k x.p x.c rest look;
  blocks = λ q. elim (Bool-cases (q == x.p)) [
    | inl t ↦
        let e : k.pcb_at q ≡ some x.c = ap k.pcb_at ((==_iff q x.p).0 t) ∙ x.here in rw (t, e) refl
    | inr t ↦ rw t refl
  ];
  rest = refl;
}

-- What one of the loops does.
pub record Tried (pid : ℤ) (st : Status) (k k' : KernelState) : Type 0 where
  pub killed : Killed (first_of pid (k.queue st) k.pcb_at) k k'
  pub left : k'.queue st ≡ without_first pid (k.queue st) k.pcb_at
  pub others :
      (s : Status) → same_status s st ≡ false → same_status s exit ≡ false → k'.queue s ≡ k.queue s
  pub same_ids : (q : ℕ) → id_is pid (k'.pcb_at q) ≡ id_is pid (k.pcb_at q)
  pub live : (q : ℕ) (c : Pcb) → k.pcb_at q ≡ some c → (d : Pcb) × (k'.pcb_at q ≡ some d)
  pub idle : has_pid pid (k.queue st) k.pcb_at ≡ false → k' ≡ k

pub kill_from-Tried :
    (pid : ℤ) (st : Status) (k : KernelState)
    → Looked st
    → AllLive (k.queue st) k.pcb_at
    → (k' : KernelState) × (kill_from pid st k ≡ some (has_pid pid (k.queue st) k.pcb_at, k'))
      × Tried pid st k k'
kill_from-Tried pid st k look a = elim (kill_from-Popped pid st k a) [
  | inl (x, r, h) ↦
      let rest = without_first pid (k.queue st) k.pcb_at in
      (
        moved_state st x.p x.c rest k,
        rw h r,
        record {
          killed = let f = x.first in rw f (moved-Killed pid st k rest x look);
          left = moved_left k x.p x.c rest look;
          others = λ s d f. rw (f, d) refl;
          same_ids = λ q. elim (Bool-cases (q == x.p)) [
            | inl t ↦
                let e : k.pcb_at q ≡ some x.c = ap k.pcb_at ((==_iff q x.p).0 t) ∙ x.here in
                rw (t, e) refl
            | inr t ↦ rw t refl
          ];
          live = λ q c e. elim (Bool-cases (q == x.p)) [
            | inl t ↦ (killed_pcb x.c, rw t refl)
            | inr t ↦ (c, rw t e)
          ];
          idle = λ e. absurd (let f : true ≡ false = rw h at e in cc);
        },
      )
  | inr (r, h, f, w) ↦ (
    k,
    rw h r,
    record {
      killed = rw f (Killed-refl k);
      left = sym w;
      others = λ s d f. refl;
      same_ids = λ q. refl;
      live = λ q c e. (c, e);
      idle = λ e. refl;
    },
  )
]
