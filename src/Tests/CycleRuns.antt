-- ===== src/Tests/CycleRuns.antt =====
-- The theorems on the cycle of the CPU at a program of one instruction.
use esthe_r.Base.{
  ℕ, ◌≡◌, refl, true, false, Option, some, List, [], ◌∷◌, replicate, take, arith, inr,
}
use esthe_r.Base.Int.{ℤ, pos, pos_part, ◌+ℤ◌, ◌-ℤ◌, to_unsigned}
use esthe_r.Commons.Instance.{sequences}
use esthe_r.Structures.{Pcb}
use esthe_r.Serial.Integers.{packi16, packi32, unpacku32}
use esthe_r.Serial.Format.{
  serial_pack, serial_pack_va, pack_conv, store_num, serial_unpack, serial_unpack_va, unpack_conv,
  copy_bytes,
}
use esthe_r.Socket.{
  piece, more_than, sendall, socket_send_bytes, socket_receive_bytes, recvall, recv_loop, recv,
  after_recv,
}
use esthe_r.Protocol.{
  protocol_header, protocol_packet, protocol_packet_send, protocol_packet_receive, send_header,
  receive_header, pointed,
}
use esthe_r.Cpu.Primitives.{quotient, remainder, verificar_terminar_ejecucion}
use esthe_r.Cpu.Messages.{Link, send_place, send_packet, receive_packet, user_header}
use esthe_r.Cpu.Cycle.{
  Machine, turn, pedir_proxima_instruccion, element_at, c_string, instruction_place,
  answered_instruction, next_instruction, quantum_over, ejecutar_programa,
}
use esthe_r.Cpu.Cycle.Quantum.{Turns, ejecutar_programa-quantum, ejecutar_programa-ends}

abbrev program : Pcb
program = record {
  id_process = pos 1;
  pc = pos 0;
  quantum = pos 1;
  status = pos 0;
  pages_code = pos 1;
  index_code = record { start = pos 0; offset = pos 4 } ∷ [];
  instructions = pos 1;
  index_tag = [];
  tags = pos 0;
  stack = [];
  stack_pointer = pos 0;
  exit_code = pos 0;
}

-- A parser for which each instruction is without effect.
abbrev skip : Option (List ℕ) → Machine → Option Machine
skip text m = some m

abbrev substring : List ℕ → ℕ → ℤ → List ℕ
substring text from size = take (pos_part size) text

-- The answer of the memory: four bytes, the last of them zero.
abbrev machine : Machine
machine = record {
  state = record {
    pcb_actual = program;
    hubo_stack_over = false;
    fin_programa = false;
    accepted = [];
    wire = [];
  };
  memory = record {
    arriving = piece (1 ∷ 0 ∷ 2 ∷ 0 ∷ 0 ∷ 0 ∷ 4 ∷ []) ∷ piece (97 ∷ 98 ∷ 10 ∷ 0 ∷ []) ∷ [];
    accepted = replicate 2 (more_than 6);
    wire = [];
  };
  proceso_bloqueado = false;
}

abbrev asked : Link
asked = record {
  arriving = [];
  accepted = [];
  wire = 3 ∷ 1 ∷ 4 ∷ 0 ∷ 0 ∷ 0 ∷ 6 ∷ 0 ∷ 0 ∷ 0 ∷ 0 ∷ 0 ∷ 4 ∷ [];
}

abbrev machine_after : Machine
machine_after = record machine {
  state = record machine.state { pcb_actual = record program { pc = pos 1 } };
  memory = asked;
}

one_turn : turn sequences substring skip 16 machine ≡ some (true, machine_after)
unfolding turn pedir_proxima_instruccion element_at c_string instruction_place answered_instruction
    next_instruction quotient remainder verificar_terminar_ejecucion send_place send_packet
    receive_packet user_header protocol_header protocol_packet protocol_packet_send
    protocol_packet_receive send_header receive_header pointed sendall socket_send_bytes
    socket_receive_bytes recvall recv_loop recv after_recv serial_pack serial_pack_va pack_conv
    store_num serial_unpack serial_unpack_va unpack_conv copy_bytes packi16 packi32 unpacku32
    to_unsigned ◌+ℤ◌ ◌-ℤ◌
one_turn = refl

ejecutar_programa-quantum_example :
    ejecutar_programa sequences substring skip 16 2 machine
    ≡ quantum_over sequences substring skip 16 machine_after
ejecutar_programa-quantum_example =
    ejecutar_programa-quantum sequences substring skip 16 1 2 machine machine_after (omega arith)
      (Turns.one_more refl one_turn (Turns.no_turn refl)) refl (omega arith)

-- The machine whose program has come to its end in the instruction.
abbrev ending : Machine
ending = record machine {
  state = record machine.state {
    pcb_actual = record program { quantum = pos 0 };
    fin_programa = true;
  };
}

abbrev ended : Machine
ended = record machine {
  state = record machine.state { pcb_actual = record program { quantum = pos 0 } };
  memory = asked;
}

last_turn : turn sequences substring skip 16 ending ≡ some (false, ended)
unfolding turn pedir_proxima_instruccion element_at c_string instruction_place answered_instruction
    next_instruction quotient remainder verificar_terminar_ejecucion send_place send_packet
    receive_packet user_header protocol_header protocol_packet protocol_packet_send
    protocol_packet_receive send_header receive_header pointed sendall socket_send_bytes
    socket_receive_bytes recvall recv_loop recv after_recv serial_pack serial_pack_va pack_conv
    store_num serial_unpack serial_unpack_va unpack_conv copy_bytes packi16 packi32 unpacku32
    to_unsigned ◌+ℤ◌ ◌-ℤ◌
last_turn = refl

ejecutar_programa-ends_example : ejecutar_programa sequences substring skip 16 1 ending ≡ some ended
ejecutar_programa-ends_example =
    ejecutar_programa-ends sequences substring skip 16 0 0 1 ending ending ended
      (Turns.no_turn refl) refl last_turn (inr refl) (omega arith)
