-- ===== src/Protocol/Opcodes.antt =====
-- The operation codes of Common/protocol.h, and the processes of Common/globals.h.
use esthe_r.Base.{ℕ}

-- `process_t`
pub data Process : Type 0 where
  kernel memory fs cpu console : Process

abbrev pub process_id : Process → ℕ
process_id kernel = 0
process_id memory = 1
process_id fs = 2
process_id cpu = 3
process_id console = 4

-- The members of `enum opcodes` that the modelled processes use.
abbrev pub op_undefined : ℕ
op_undefined = 0

abbrev pub op_handshake : ℕ
op_handshake = 1

abbrev pub op_response : ℕ
op_response = 2

abbrev pub op_me_inipro : ℕ
op_me_inipro = 3

abbrev pub op_me_solbytpag : ℕ
op_me_solbytpag = 4

abbrev pub op_me_almbytpag : ℕ
op_me_almbytpag = 5

abbrev pub op_me_asipagpro : ℕ
op_me_asipagpro = 6

abbrev pub op_me_finpro : ℕ
op_me_finpro = 7

abbrev pub op_cpu_program_end : ℕ
op_cpu_program_end = 20

abbrev pub op_cpu_semaphore : ℕ
op_cpu_semaphore = 21

abbrev pub op_cpu_shared_var : ℕ
op_cpu_shared_var = 23

abbrev pub op_ke_send_pid : ℕ
op_ke_send_pid = 10

abbrev pub op_ke_send_pcb : ℕ
op_ke_send_pcb = 11

abbrev pub op_ke_program_end : ℕ
op_ke_program_end = 15

abbrev pub op_ke_send_sharedvalue : ℕ
op_ke_send_sharedvalue = 24

abbrev pub op_ke_send_stack_size : ℕ
op_ke_send_stack_size = 13

abbrev pub op_new_program : ℕ
op_new_program = 17
