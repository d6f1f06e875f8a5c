-- ===== src/Cpu/Messages.antt =====
-- CPU/src/CPU.c: the primitives that ask the memory and the Kernel. A connection is what is to arrive
-- on it, how it accepts what is sent, and what has been sent.
pub mod Wire
use esthe_r.Base.{ℕ, ◌-◌, Bool, true, false, Option, none, some, ◌>>=◌, List, [], ◌∷◌, ◌++◌, length}
use esthe_r.Base.{codes, ltb, ◌==◌, if◌then◌else◌}
use esthe_r.Base.Int.{ℤ, pos, negsuc, ◌+ℤ◌, to_unsigned}
use esthe_r.Commons.{CommonsList}
use esthe_r.Structures.{MemPos, Pcb, StackEntry}
use esthe_r.Serial.Format.{num, serial_pack}
use esthe_r.Serial.PcbPack.{serial_pack_pcb}
use esthe_r.Serial.PcbUnpack.{read_short}
use esthe_r.Socket.{Accepted, Arrival, buffer_capacity}
use esthe_r.Protocol.{
  Header, Packet, protocol_header, protocol_packet, protocol_packet_send, protocol_packet_receive,
}
use esthe_r.Protocol.Opcodes.{
  cpu, op_response, op_me_solbytpag, op_me_almbytpag, op_cpu_semaphore, op_cpu_shared_var,
}
use esthe_r.Cpu.Primitives.{
  State, puntero, quotient, remainder, absolute, tamanio_variable, finalizar,
}

pub record Link : Type 0 where
  pub arriving : List Arrival
  pub accepted : List Accepted
  pub wire : List ℕ

unfoldable pub send_packet : Header → List ℕ → Link → Option Link
send_packet header buffer l =
    (protocol_packet_send (protocol_packet header buffer) l.accepted >>= λ sent.
    some (record l { accepted = sent.env; wire = l.wire ++ sent.wire }))

unfoldable pub receive_packet : Link → Option (Packet × Link)
receive_packet l = do
  (packet, s) ← protocol_packet_receive l.arriving
  some (packet, record l { arriving = s })

-- The place of a variable in the memory, behind the pages of the code.
unfoldable pub variable_place : ℕ → ℤ → Pcb → MemPos
variable_place tamanio_pagina direccion pcb = record {
  page = quotient (puntero direccion) tamanio_pagina +ℤ pcb.pages_code;
  offset = remainder (puntero direccion) tamanio_pagina;
  size = pos tamanio_variable;
}

unfoldable pub user_header : ℕ → Pcb → ℕ → Header
user_header op pcb size = record (protocol_header cpu op 0) {
  usrpid = to_unsigned 256 pcb.id_process;
  msgsize = size;
}

unfoldable pub send_place : ℕ → Pcb → MemPos → Link → Option Link
send_place op pcb at l = do
  p ← serial_pack (codes "hhh") (num at.page ∷ num at.offset ∷ num at.size ∷ [])
  send_packet (user_header op pcb p.size) p.bytes l

-- Without the answer expected, `valor` is not set.
unfoldable pub dereferenciar : ℕ → ℤ → Pcb → Link → Option (ℤ × Link)
unfolding send_place
dereferenciar tamanio_pagina direccion pcb l = do
  l ← send_place op_me_solbytpag pcb (variable_place tamanio_pagina direccion pcb) l
  (packet, l) ← receive_packet l
  if packet.header.opcode == op_response
      then (do payload ← packet.payload; (valor, _) ← read_short payload; some (valor, l))
      else none

-- The two packets of asignar: the place, and the value, packed in two bytes.
unfoldable pub send_value : ℕ → ℤ → ℤ → Pcb → Link → Option Link
send_value tamanio_pagina direccion valor pcb l = do
  l ← send_place op_me_almbytpag pcb (variable_place tamanio_pagina direccion pcb) l
  p ← serial_pack (codes "h") (num valor ∷ [])
  send_packet (user_header op_me_almbytpag pcb p.size) p.bytes l

-- The result only goes to the log.
unfoldable pub asignar : ℕ → ℤ → ℤ → Pcb → Link → Option Link
unfolding send_value
asignar tamanio_pagina direccion valor pcb l = do
  l ← send_value tamanio_pagina direccion valor pcb l
  (packet, l) ← receive_packet l
  payload ← packet.payload
  (res, _) ← read_short payload
  some l

module _ (lib : CommonsList) where
  open lib use {list_get, list_size}

  unfoldable pub retornar : ℕ → ℤ → State → Link → Option (State × Link)
  retornar tamanio_pagina retorno c l = do
    registro ← list_get c.pcb_actual.stack (list_size c.pcb_actual.stack - 1)
    l ← asignar tamanio_pagina (absolute tamanio_pagina registro.ret_var) retorno c.pcb_actual l
    c ← finalizar lib c
    some (c, l)

  -- A text in the buffer of `buffer_capacity` bytes, sent.
  unfoldable pub send_text : ℕ → List ℕ → Link → Option Link
  send_text op message l =
      if ltb buffer_capacity (length message)
      then none
      else send_packet (protocol_header cpu op (length message)) message l

  unfoldable pub send_pcb : ℕ → Pcb → Link → Option Link
  send_pcb op pcb l = do
    p ← serial_pack_pcb lib pcb
    if ltb buffer_capacity p.size
        then none
        else send_packet (record (protocol_header cpu op 0) { msgsize = p.size }) p.bytes l

  unfoldable pub asignar_valor_compartida : List ℕ → ℤ → Pcb → Link → Option (ℤ × Link)
  asignar_valor_compartida variable valor pcb l = do
    l ← send_pcb op_cpu_shared_var pcb l
    l ← send_text op_cpu_shared_var (codes "a" ++ variable) l
    p ← serial_pack (codes "h") (num valor ∷ [])
    l ←
        send_packet (record (protocol_header cpu op_cpu_shared_var 0) { msgsize = p.size }) p.bytes
          l
    some (valor, l)

  unfoldable pub obtener_valor_compartida : List ℕ → Pcb → Link → Option (ℤ × Link)
  obtener_valor_compartida variable pcb l = do
    l ← send_pcb op_cpu_shared_var pcb l
    l ← send_text op_cpu_shared_var (codes "v" ++ variable) l
    (packet, l) ← receive_packet l
    payload ← packet.payload
    (valor, _) ← read_short payload
    some (valor, l)

  unfoldable pub signal_ansisop : List ℕ → Pcb → Link → Option Link
  unfolding send_pcb send_text
  signal_ansisop semaforo pcb l = do
    l ← send_pcb op_cpu_semaphore pcb l
    send_text op_cpu_semaphore (codes "s" ++ semaforo) l

  unfoldable pub wait : List ℕ → Pcb → Link → Option Link
  unfolding send_pcb send_text
  wait semaforo pcb l = do
    l ← send_pcb op_cpu_semaphore pcb l
    send_text op_cpu_semaphore (codes "w" ++ semaforo) l
