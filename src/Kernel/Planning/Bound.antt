-- ===== src/Kernel/Planning/Bound.antt =====
-- planificacion of Kernel/src/Kernel.c: the number of programs in the system.
use esthe_r.Base.{
  ℕ, zero, suc, ◌+◌, ◌≤◌, ◌≡◌, refl, ap, ◌∙◌, Option, some, ◌>>=◌, List, [], ◌∷◌, length, ltb,
  arith, Bool-cases, inl, inr, length-append,
}
use esthe_r.Base.Int.{ℤ, pos, eq_ℤ}
use esthe_r.Structures.{Pcb}
use esthe_r.Commons.{CommonsList}
use esthe_r.Serial.PcbPack.{serial_pack_pcb}
use esthe_r.Kernel.{
  buffered, set_queue, append_queue, write_pcb, send, KernelState, TClient, new, ready, exec, exit,
}
use esthe_r.Kernel.Planning.{
  dispatch, dispatch_turn, run_on, started, planificacion, admit_next, admit_first, admit, admitted,
  progs_in_system, store_pages, store_stack,
}
use esthe_r.Kernel.Quiet.{
  Ensures, Ensures-bind, Ensures-after, Ensures-some, Ensures-none, Ensures-weaken, Ensures-result,
  Quiet, Quiet-trans, store_pages-Quiet, store_stack-Quiet, request_pages-Quiet,
  receive_result-Quiet,
}

-- At most so many programs more, and the same level.
Grown : ℕ → KernelState → KernelState → Type 0
Grown n k k' = (progs_in_system k' ≤ progs_in_system k + n) × (k'.multipg_level ≡ k.multipg_level)

Grown-trans : (m n : ℕ) (a b c : KernelState) → Grown m a b → Grown n b c → Grown (m + n) a c
unfolding Grown
Grown-trans m n a b c (i, e) (j, f) = (omega (arith, i, j), f ∙ e)

Grown-refl : (k : KernelState) → Grown 0 k k
unfolding Grown
Grown-refl k = (omega arith, refl)

Grown-Quiet : (k k' : KernelState) → Quiet k k' → Grown 0 k k'
unfolding Grown Quiet progs_in_system
Grown-Quiet k k' e =
    let same : progs_in_system k' ≡ progs_in_system k = ap progs_in_system e in
    (omega (arith, same), ap (λ (a : KernelState). a.multipg_level) e)

ready-Grown :
    (k : KernelState) (p : ℕ) (c : Option Pcb) → Grown 1 k (append_queue ready p (write_pcb p c k))
unfolding Grown progs_in_system
ready-Grown k p c = (omega (arith, length-append (k.queue ready) (p ∷ [])), refl)

exit-Grown :
    (k : KernelState) (p : ℕ) (c : Option Pcb) → Grown 1 k (append_queue exit p (write_pcb p c k))
unfolding Grown progs_in_system
exit-Grown k p c = (omega arith, refl)

-- Steps that change connections only, before and after a step that may add a program.
Grown-before :
    (k k1 : KernelState) (r : Option KernelState)
    → Grown 0 k k1
    → Ensures (Grown 1 k1) r
    → Ensures (Grown 1 k) r
Grown-before k k1 r g q =
    Ensures-weaken (Grown 1 k1) (Grown 1 k) r (λ k2 h. Grown-trans 0 1 k k1 k2 g h) q

-- A level that is not exceeded, and is the same.
pub Bounded : KernelState → KernelState → Type 0
Bounded k k' = (progs_in_system k' ≤ k.multipg_level) × (k'.multipg_level ≡ k.multipg_level)

module _ (lib : CommonsList) where
  loads-Grown :
      (mem n pages : ℕ) (pcb pcb' : Pcb) (code : List ℕ) (k k1 : KernelState)
      → Grown 1 k k1
      → Ensures (Grown 1 k) (
          store_pages n code pcb.id_process mem pages pages 0 0 k1 >>= λ k2.
          store_stack lib mem pcb' k2)
  loads-Grown mem n pages pcb pcb' code k k1 g =
      Ensures-bind (Quiet k1) (Grown 1 k) _ _
        (store_pages-Quiet n code pcb.id_process mem pages pages 0 0 k1)
        (λ k2 q.
          Ensures-weaken (Quiet k2) (Grown 1 k) _
            (λ k3 r. Grown-trans 1 0 k k1 k3 g (Grown-Quiet k1 k3 (Quiet-trans k1 k2 k3 q r)))
            (store_stack-Quiet lib mem pcb' k2))

  admitted-Grown :
      (mem p : ℕ) (pcb : Pcb) (code : List ℕ) (res : ℤ) (k : KernelState)
      → Ensures (Grown 1 k) (admitted lib mem p pcb code res k)
  unfolding admitted
  admitted-Grown mem p pcb code res k = elim (Bool-cases (eq_ℤ res (pos 0))) [
    | inl t ↦ rw t (Ensures-some (Grown 1 k) _ (exit-Grown k p _))
    | inr t ↦ rw t (loads-Grown mem _ _ pcb _ code k _ (ready-Grown k p _))
  ]

  admit-Grown :
      (mem p : ℕ) (code : List ℕ) (k : KernelState) → Ensures (Grown 1 k) (admit lib mem code p k)
  unfolding admit
  admit-Grown mem p code k = Ensures-after (Grown 1 k) (k.pcb_at p) _ (λ pcb.
      Ensures-bind (Quiet k) (Grown 1 k) _ _ (request_pages-Quiet mem pcb.id_process _ k) (λ k1 q.
        Ensures-bind _ (Grown 1 k) _ _ (receive_result-Quiet mem k1) (λ (res, k2) r.
          Grown-before k k2 _ (Grown-Quiet k k2 (Quiet-trans k k1 k2 q r))
            (admitted-Grown mem p pcb code res k2))))

  admit_first-Grown :
      (mem : ℕ) (ps : List ℕ) (codes : List (List ℕ)) (k : KernelState)
      → Ensures (Grown 1 k) (admit_first lib mem ps codes k)
  unfolding admit_first Grown progs_in_system
  admit_first-Grown mem [] codes k = Ensures-some (Grown 1 k) k (omega arith, refl)
  admit_first-Grown mem (p ∷ ps) [] k = Ensures-none (Grown 1 k)
  admit_first-Grown mem (p ∷ ps) (code ∷ codes) k =
      let k1 = record (set_queue new ps k) { codes_ms = codes } in
      Grown-before k k1 _ (omega arith, refl) (admit-Grown mem p code k1)

  admit_next-Bounded :
      (mem : ℕ) (k : KernelState)
      → progs_in_system k ≤ k.multipg_level
      → Ensures (Bounded k) (admit_next lib mem k)
  unfolding admit_next Bounded Grown
  admit_next-Bounded mem k i = elim (Bool-cases (ltb (progs_in_system k) k.multipg_level)) [
    | inl t ↦ rw t (
        Ensures-weaken (Grown 1 k) (Bounded k) _ (λ k1 (j, e). (ground (arith, j, t), e))
          (admit_first-Grown mem (k.queue new) k.codes_ms k))
    | inr t ↦ rw t (Ensures-some (Bounded k) k (i, refl))
  ]

  run_on-Grown :
      (k : KernelState) (p : ℕ) (ps : List ℕ) (c : TClient) (cs : List TClient)
      → k.queue ready ≡ p ∷ ps
      → Ensures (Grown 0 k) (run_on lib p ps c cs k)
  unfolding run_on Grown progs_in_system send
  run_on-Grown k p ps c cs e = Ensures-after (Grown 0 k) (k.pcb_at p) _ (λ pcb.
      Ensures-after (Grown 0 k) (buffered (serial_pack_pcb lib pcb)) _ (λ b.
        Ensures-some (Grown 0 k) (started p ps c cs b k)
          (omega (arith, ap length e, length-append (k.queue exec) (p ∷ [])), refl)))

  dispatch_turn-Grown :
      (again : KernelState → Option KernelState) (ps : List ℕ) (cs : List TClient) (k : KernelState)
      → ((k1 : KernelState) → Ensures (Grown 0 k1) (again k1))
      → k.queue ready ≡ ps
      → Ensures (Grown 0 k) (dispatch_turn lib again ps cs k)
  unfolding dispatch_turn
  dispatch_turn-Grown again [] cs k next e = Ensures-some (Grown 0 k) k (Grown-refl k)
  dispatch_turn-Grown again (p ∷ ps) [] k next e = Ensures-some (Grown 0 k) k (Grown-refl k)
  dispatch_turn-Grown again (p ∷ ps) (c ∷ cs) k next e =
      Ensures-bind (Grown 0 k) (Grown 0 k) _ again (run_on-Grown k p ps c cs e) (λ k1 g.
        Ensures-weaken (Grown 0 k1) (Grown 0 k) _ (λ k2 h. Grown-trans 0 0 k k1 k2 g h) (next k1))

  dispatch-Grown : (fuel : ℕ) (k : KernelState) → Ensures (Grown 0 k) (dispatch lib fuel k)
  unfolding dispatch
  dispatch-Grown zero k = Ensures-none (Grown 0 k)
  dispatch-Grown (suc fuel) k =
      dispatch_turn-Grown (dispatch lib fuel) (k.queue ready) k.cpu_conectadas k
        (dispatch-Grown fuel) refl

  -- When planificacion ends and the programs that are ready, run or are blocked were not more than the
  -- level of multiprogramming before it, they are not more after it, and the level is the same.
  pub planificacion-Bounded :
      (mem : ℕ) (k k' : KernelState)
      → progs_in_system k ≤ k.multipg_level
      → planificacion lib mem k ≡ some k'
      → Bounded k k'
  unfolding planificacion Bounded Grown
  planificacion-Bounded mem k k' i e =
      Ensures-result (Bounded k) _ k'
        (Ensures-bind (Bounded k) (Bounded k) _ _ (admit_next-Bounded mem k i) (λ k1 (j, f).
          Ensures-weaken (Grown 0 k1) (Bounded k) _ (λ k2 (l, g). (omega (arith, l, j), g ∙ f))
            (dispatch-Grown (suc (length (k1.queue ready))) k1)))
        e
