-- ===== src/Kernel/Terminal/Kill.antt =====
-- What one of the loops of `kill` of Kernel/src/console.c does to its list.
use esthe_r.Base.{
  ℕ, ◌≡◌, refl, ap, Bool, true, false, ◌||◌, Option, none, some, List, [], ◌∷◌, if◌then◌else◌,
  Bool-cases, inl, inr, ◌⊎◌,
}
use esthe_r.Base.Int.{ℤ, eq_ℤ}
use esthe_r.Structures.{Pcb}
use esthe_r.Kernel.{KernelState, Status, exit, set_queue, append_queue, write_pcb}
use esthe_r.Kernel.Terminal.{pop_pid, exit_killed, status_exit, kill_from}

-- Whether the pointer is to a control block of the program.
abbrev pub id_is : ℤ → Option Pcb → Bool
id_is pid none = false
id_is pid (some c) = eq_ℤ c.id_process pid

-- Whether the program is in a list.
abbrev pub has_pid : ℤ → List ℕ → (ℕ → Option Pcb) → Bool
has_pid pid [] pcb_at = false
has_pid pid (p ∷ ps) pcb_at = id_is pid (pcb_at p) || has_pid pid ps pcb_at

-- The pointers of a list are to live control blocks.
abbrev pub AllLive : List ℕ → (ℕ → Option Pcb) → Type 0
AllLive [] pcb_at = Unit
AllLive (p ∷ ps) pcb_at = ((c : Pcb) × (pcb_at p ≡ some c)) × AllLive ps pcb_at

pub AllLive-mono :
    (ps : List ℕ) (at1 at2 : ℕ → Option Pcb)
    → ((q : ℕ) (c : Pcb) → at1 q ≡ some c → (d : Pcb) × (at2 q ≡ some d))
    → AllLive ps at1
    → AllLive ps at2
AllLive-mono [] at1 at2 f a = tt
AllLive-mono (p ∷ ps) at1 at2 f ((c, e), a) = (f p c e, AllLive-mono ps at1 at2 f a)

pub has_pid-same :
    (pid : ℤ) (ps : List ℕ) (at1 at2 : ℕ → Option Pcb)
    → ((q : ℕ) → id_is pid (at2 q) ≡ id_is pid (at1 q))
    → has_pid pid ps at2 ≡ has_pid pid ps at1
has_pid-same pid [] at1 at2 f = refl
has_pid-same pid (p ∷ ps) at1 at2 f = rw (f p, has_pid-same pid ps at1 at2 f) refl

-- The control block of a program that is killed.
abbrev pub killed_pcb : Pcb → Pcb
killed_pcb c = record c { exit_code = exit_killed; status = status_exit }

-- The program at `p` is moved from its list, of which `rest` is left.
abbrev pub moved_state : Status → ℕ → Pcb → List ℕ → KernelState → KernelState
moved_state st p c rest k =
    append_queue exit p (write_pcb p (some (killed_pcb c)) (set_queue st rest k))

-- The first control block of the program in a list, and the list without it.
abbrev pub first_of : ℤ → List ℕ → (ℕ → Option Pcb) → List ℕ
first_of pid [] pcb_at = []
first_of pid (p ∷ ps) pcb_at = if id_is pid (pcb_at p) then p ∷ [] else first_of pid ps pcb_at

abbrev pub without_first : ℤ → List ℕ → (ℕ → Option Pcb) → List ℕ
without_first pid [] pcb_at = []
without_first pid (p ∷ ps) pcb_at =
    if id_is pid (pcb_at p) then ps else p ∷ without_first pid ps pcb_at

module _ (pid : ℤ) (at1 at2 : ℕ → Option Pcb)
    (same : (q : ℕ) → id_is pid (at2 q) ≡ id_is pid (at1 q)) where
  pub first_of-same : (ps : List ℕ) → first_of pid ps at2 ≡ first_of pid ps at1
  first_of-same [] = refl
  first_of-same (p ∷ ps) = rw (same p, first_of-same ps) refl

  pub without_first-same : (ps : List ℕ) → without_first pid ps at2 ≡ without_first pid ps at1
  without_first-same [] = refl
  without_first-same (p ∷ ps) = rw (same p, without_first-same ps) refl

-- Where a list has the program.
pub record Popped (pid : ℤ) (ps : List ℕ) (pcb_at : ℕ → Option Pcb) : Type 0 where
  pub p : ℕ
  pub c : Pcb
  pub first : first_of pid ps pcb_at ≡ p ∷ []
  pub here : pcb_at p ≡ some c

pop_pid-Popped :
    (pid : ℤ) (ps : List ℕ) (k : KernelState)
    → AllLive ps k.pcb_at
    → ((x : Popped pid ps k.pcb_at) × (pop_pid pid ps k
          ≡ some (some (x.p, without_first pid ps k.pcb_at)))
        × (has_pid pid ps k.pcb_at ≡ true))
      ⊎ ((pop_pid pid ps k ≡ some none)
          × (has_pid pid ps k.pcb_at ≡ false)
          × (first_of pid ps k.pcb_at ≡ [])
          × (without_first pid ps k.pcb_at ≡ ps))
unfolding pop_pid
pop_pid-Popped pid [] k a = inr (refl, refl, refl, refl)
pop_pid-Popped pid (p ∷ ps) k ((c, e), a) = elim (Bool-cases (eq_ℤ c.id_process pid)) [
  | inl t ↦
      inl
        (record { p = p; c = c; first = rw (e, t) refl; here = e }, rw (e, t) refl, rw (e, t) refl)
  | inr t ↦ elim (pop_pid-Popped pid ps k a) [
    | inl (x, r, h) ↦ inl (
      record { p = x.p; c = x.c; first = rw (e, t) x.first; here = x.here },
      rw (e, t, r) refl,
      rw (e, t) h,
    )
    | inr (r, h, f, w) ↦ inr (rw (e, t, r) refl, rw (e, t) h, rw (e, t) f, rw (e, t) (ap (◌∷◌ p) w))
  ]
]

-- kill_from takes the first control block of the program out of the list, if there is one.
pub kill_from-Popped :
    (pid : ℤ) (st : Status) (k : KernelState)
    → AllLive (k.queue st) k.pcb_at
    → ((x : Popped pid (k.queue st) k.pcb_at) × (kill_from pid st k
          ≡ some (true, moved_state st x.p x.c (without_first pid (k.queue st) k.pcb_at) k))
        × (has_pid pid (k.queue st) k.pcb_at ≡ true))
      ⊎ ((kill_from pid st k ≡ some (false, k))
          × (has_pid pid (k.queue st) k.pcb_at ≡ false)
          × (first_of pid (k.queue st) k.pcb_at ≡ [])
          × (without_first pid (k.queue st) k.pcb_at ≡ k.queue st))
unfolding kill_from
kill_from-Popped pid st k a = elim (pop_pid-Popped pid (k.queue st) k a) [
  | inl (x, r, h) ↦ inl (x, (let e = x.here in rw (r, e) refl), h)
  | inr (r, h, f, w) ↦ inr (rw r refl, h, f, w)
]
