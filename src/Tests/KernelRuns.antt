-- ===== src/Tests/KernelRuns.antt =====
-- The theorems on the Kernel at a state with two programs and one CPU.
use esthe_r.Base.{
  ℕ, true, ◌≡◌, refl, false, Option, none, some, [], ◌∷◌, ◌==◌, if◌then◌else◌, arith, codes,
}
use esthe_r.Base.Int.{ℤ, pos, negsuc}
use esthe_r.Commons.Instance.{sequences}
use esthe_r.Structures.{Pcb}
use esthe_r.Protocol.{Packet}
use esthe_r.Protocol.Opcodes.{cpu}
use esthe_r.Kernel.{KernelState, TClient, Status, new, ready, exec, block, exit, send, buffered}
use esthe_r.Kernel.Quiet.{listed}
use esthe_r.Kernel.Planning.{
  planificacion, progs_in_system, admit_next, dispatch, dispatch_turn, run_on,
}
use esthe_r.Kernel.Planning.Bound.{Bounded, planificacion-Bounded}
use esthe_r.Kernel.Pcbs.{statuses, end_program}
use esthe_r.Kernel.Pcbs.Live.{Live, Alive, Apart}
use esthe_r.Kernel.Pcbs.Ends.{Ended, end_program-Ended}
use esthe_r.Serial.Format.{Packed, serial_pack, serial_pack_va, pack_conv, store_num}
use esthe_r.Serial.PcbPack.{serial_pack_pcb, serial_pack_stack, emit, pack_each, append_packed}

abbrev pub program_of : ℤ → Pcb
program_of pid = record {
  id_process = pid;
  pc = pos 0;
  quantum = pos 1;
  status = pos 0;
  pages_code = pos 1;
  index_code = [];
  instructions = pos 0;
  index_tag = [];
  tags = pos 0;
  stack = [];
  stack_pointer = pos 0;
  exit_code = pos 0;
}

abbrev pub free_cpu : TClient
free_cpu = record { client_id = 5; process = cpu; pids = [] }

abbrev pub answer : Packet
answer = record {
  header = record { syspid = 0; usrpid = 1; opcode = 2; msgsize = 2 };
  payload = some (0 ∷ 1 ∷ []);
}

-- Programs 1 and 2 are ready, and a CPU is free; the memory has an answer to give.
abbrev pub two_ready : KernelState
two_ready = record {
  config = record {
    page_size = 16;
    stack_size = 1;
    quantum = pos 1;
    sem_ids = codes "s" ∷ [];
    shared_vars = [];
  };
  multipg_level = 2;
  generator_pid = pos 2;
  pcb_at = λ p.
      if p == 0
      then some (program_of (pos 1))
      else if p == 1
      then some (program_of (pos 2))
      else none;
  limit = 2;
  queue = λ st. elim st [ new ↦ [] | ready ↦ 0 ∷ 1 ∷ [] | exec ↦ [] | block ↦ [] | exit ↦ [] ];
  codes_ms = [];
  consolas_conectadas = [];
  cpu_conectadas = free_cpu ∷ [];
  cpu_executing = [];
  connection = λ s.
      if s == 9
      then record { arriving = answer ∷ []; sent = [] }
      else record { arriving = []; sent = [] };
  memfd = 9;
  sem_ansisop = pos 1 ∷ [];
  solicitudes_sem = [] ∷ [];
  shared_values = [];
}

abbrev after : Option KernelState → KernelState
after (some k) = k
after none = two_ready

unlisted : (st : Status) → listed two_ready.limit (two_ready.queue st) ≡ false
unlisted new = refl
unlisted ready = refl
unlisted exec = refl
unlisted block = refl
unlisted exit = refl

-- The other lists are empty.
none_in : (q : ℕ) → listed q [] ≡ true → listed q (0 ∷ 1 ∷ []) ≡ false
none_in q l = absurd (ground (arith, l))

two_ready-Live : Live statuses two_ready
unfolding Live Alive Apart
two_ready-Live = (
  tt,
  (refl, (λ q l. refl), (refl, (λ q l. refl), (refl, (λ q l. refl), (refl, (λ q l. refl), tt)))),
  (
    (((program_of (pos 1), refl), refl, ((program_of (pos 2), refl), refl, tt))),
    (refl, none_in, (refl, none_in, (refl, none_in, tt))),
    (
      tt,
      (refl, (λ q l. refl), (refl, (λ q l. refl), tt)),
      (tt, (refl, (λ q l. refl), tt), (tt, tt, tt)),
    ),
  ),
)

end_program-Ended_example :
    (k' : KernelState) × (end_program 0 (negsuc 5) two_ready ≡ some k')
    × Ended (program_of (pos 1)) (negsuc 5) k'
end_program-Ended_example =
    end_program-Ended 0 (program_of (pos 1)) (negsuc 5) two_ready answer [] refl two_ready-Live
      unlisted refl

abbrev bytes_of : Option Packed → Packed
bytes_of (some b) = b
bytes_of none = record { size = 0; bytes = [] }

abbrev Packs : (pcb : ℤ) → Type 0
Packs pid =
    buffered (serial_pack_pcb sequences (program_of pid))
    ≡ some (bytes_of (buffered (serial_pack_pcb sequences (program_of pid))))

planned : planificacion sequences 9 two_ready ≡ some (after (planificacion sequences 9 two_ready))
unfolding planificacion admit_next progs_in_system dispatch dispatch_turn run_on send buffered
    serial_pack_pcb serial_pack_stack serial_pack emit pack_each serial_pack_va pack_conv store_num
    append_packed
planned = refl

planificacion-Bounded_example : Bounded two_ready (after (planificacion sequences 9 two_ready))
unfolding progs_in_system
planificacion-Bounded_example =
    planificacion-Bounded sequences 9 two_ready (after (planificacion sequences 9 two_ready))
      (omega arith) planned
