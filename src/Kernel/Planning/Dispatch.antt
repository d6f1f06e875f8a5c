-- ===== src/Kernel/Planning/Dispatch.antt =====
-- planificacion of Kernel/src/Kernel.c: programs that are ready go to the CPUs in turn.
use esthe_r.Base.{
  ℕ, suc, ◌≤◌, ◌≡◌, ap, ◌∙◌, Option, some, List, [], ◌∷◌, ◌++◌, length, ◌⊎◌, take, drop,
}
use esthe_r.Structures.{Pcb}
use esthe_r.Serial.Format.{Packed}
use esthe_r.Serial.PcbPack.{serial_pack_pcb}
use esthe_r.Commons.{CommonsList}
use esthe_r.Kernel.{KernelState, TClient, ready, exec, block, buffered}
use esthe_r.Kernel.Planning.{dispatch, dispatch_turn}

module _ (lib : CommonsList) where
  -- A process control block that fits the buffer in which it is sent.
  unfoldable pub Sendable : (ℕ → Option Pcb) → ℕ → Type 0
  Sendable pcb_at p =
      (pcb : Pcb) × (b : Packed) × (pcb_at p ≡ some pcb)
      × (buffered (serial_pack_pcb lib pcb) ≡ some b)

  -- The first `n` that were ready run, in order, on the first `n` CPUs that were free, and either no
  -- program is left ready or no CPU is left free.
  pub record Dispatched (k k' : KernelState) : Type 0 where
    pub n : ℕ
    pub in_ready : n ≤ length (k.queue ready)
    pub in_free : n ≤ length k.cpu_conectadas
    pub ready_left : k'.queue ready ≡ drop n (k.queue ready)
    pub running : k'.queue exec ≡ k.queue exec ++ take n (k.queue ready)
    pub blocked : k'.queue block ≡ k.queue block
    pub free_left : k'.cpu_conectadas ≡ drop n k.cpu_conectadas
    pub executing : k'.cpu_executing ≡ k.cpu_executing ++ take n k.cpu_conectadas
    pub level : k'.multipg_level ≡ k.multipg_level
    pub all_used : (k'.queue ready ≡ []) ⊎ (k'.cpu_conectadas ≡ [])

  -- The state after a program has been given to a CPU, as far as the lists go.
  record Started (k : KernelState) (p : ℕ) (ps : List ℕ) (c : TClient) (cs : List TClient)
      (k1 : KernelState) : Type 0 where
    left : k1.queue ready ≡ ps
    running_on : k1.queue exec ≡ k.queue exec ++ (p ∷ [])
    blocks : k1.queue block ≡ k.queue block
    free_cpus : k1.cpu_conectadas ≡ cs
    works : k1.cpu_executing ≡ k.cpu_executing ++ (c ∷ [])
    same_level : k1.multipg_level ≡ k.multipg_level
    pcbs : k1.pcb_at ≡ k.pcb_at

  opened :
      (fuel : ℕ) (k : KernelState) (ps : List ℕ) (cs : List TClient)
      → k.queue ready ≡ ps
      → k.cpu_conectadas ≡ cs
      → dispatch lib (suc fuel) k ≡ dispatch_turn lib (dispatch lib fuel) ps cs k
  unfolding dispatch
  opened fuel k ps cs e f =
      ap (λ a. dispatch_turn lib (dispatch lib fuel) a k.cpu_conectadas k) e
      ∙ ap (λ b. dispatch_turn lib (dispatch lib fuel) ps b k) f
