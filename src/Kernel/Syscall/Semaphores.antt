-- ===== src/Kernel/Syscall/Semaphores.antt =====
-- Kernel/src/syscall.c: what a signal does to the program that it wakes.
use esthe_r.Base.{
  ℕ, zero, suc, ◌≡◌, refl, Bool, true, none, some, List, [], ◌∷◌, ◌++◌, if◌then◌else◌, get_elem?,
}
use esthe_r.Base.Int.{ℤ}
use esthe_r.Commons.{CommonsList}
use esthe_r.Kernel.{KernelState, ready, block, write_pcb}
use esthe_r.Kernel.Syscall.{store_at}
use esthe_r.Kernel.Quiet.{Ensures, Ensures-bind, Ensures-some, Ensures-none}

-- The program at `p` is freed, if `b` is true, and the lists are the same.
Freed : KernelState → ℕ → Bool → List ℕ × KernelState → Type 0
Freed k p b (left, k') = (b ≡ true → k'.pcb_at p ≡ none) × (k'.queue ≡ k.queue)

abbrev stepped : Bool → ℕ → KernelState → KernelState
stepped gone q k = if gone then write_pcb q none k else k

module _ (lib : CommonsList) where
  -- The program that is now the last of those that are ready is freed.
  pub Woken : KernelState → KernelState → Type 0
  Woken k k' = (w : ℕ) × (k'.queue ready ≡ k.queue ready ++ (w ∷ [])) × (k'.pcb_at w ≡ none)

  stored :
      (xs : List (List ℕ)) (i : ℕ) (x : List ℕ)
      → Ensures (λ ys. get_elem? ys i ≡ some x) (store_at xs i x)
  unfolding store_at
  stored [] i x = Ensures-none _
  stored (y ∷ xs) zero x = Ensures-some (λ ys. get_elem? ys 0 ≡ some x) (x ∷ xs) refl
  stored (y ∷ xs) (suc i) x =
      Ensures-bind _ (λ ys. get_elem? ys (suc i) ≡ some x) _ _ (stored xs i x)
        (λ ys e. Ensures-some (λ ys. get_elem? ys (suc i) ≡ some x) (y ∷ ys) e)

  -- A program is blocked on a semaphore for which `waiting` wait.
  Blocked : ℕ → ℕ → List ℕ → KernelState → KernelState → Type 0
  Blocked i p waiting k k' =
      (get_elem? k'.solicitudes_sem i ≡ some (waiting ++ (p ∷ [])))
      × (k'.queue block ≡ k.queue block ++ (p ∷ []))
      × (k'.queue ready ≡ k.queue ready)

  -- A semaphore has another value, and nothing else has changed in the lists.
  Valued : KernelState → ℤ × KernelState → Type 0
  Valued k (v, k1) = (k1.queue ≡ k.queue) × (k1.solicitudes_sem ≡ k.solicitudes_sem)
