-- ===== src/Consola/Run.antt =====
-- Consola/src: message_receiver.c, the command `debug`, and the states that the steps of all the threads
-- reach.
use esthe_r.Base.{ℕ, suc, ◌≡◌, Bool, false, Option, none, some, ◌>>=◌, List, [], ◌∷◌}
use esthe_r.Base.{codes, ◌==◌, if◌then◌else◌}
use esthe_r.Base.Int.{ℤ, pos}
use esthe_r.Serial.PcbUnpack.{read_short}
use esthe_r.Protocol.{Packet, protocol_header, protocol_packet}
use esthe_r.Protocol.Opcodes.{
  console, op_undefined, op_ke_send_pid, op_ke_program_end, op_handshake,
}
use esthe_r.Consola.{
  Program, program_ended, Phase, absent, idle, ReceiverPhase, receiving, freeing, ConsoleState,
  Outcome, waits, broken, terminating, goes, set_program, set_text, first_of, last_of, get_program,
}
use esthe_r.Consola.Steps.{start_program_thread, kill_program, signal_dummy_action, thread_goes}

-- What a packet changes in a program, which is NULL if there is none.
abbrev pub with_program :
    Option (Option ℕ) → (Program → Option Program) → ConsoleState → Option ConsoleState
with_program found change s = do
  there ← found
  p ← there
  program ← s.program_at p
  program ← change program
  some (set_program p (some program) s)

abbrev pub signal : Program → Program
signal program = record program { sem = suc program.sem }

abbrev pub signalled : Program → Option Program
signalled program = some (signal program)

abbrev pub with_pid : ℤ → Program → Option Program
with_pid pid program = some (record program { pid = pid })

-- The program that ended, with the exit code in the payload.
abbrev pub with_end : List ℕ → Program → Option Program
with_end payload program = do
  (exitcode, rest) ← read_short payload
  some (signal (record program { status = program_ended; exitcode = exitcode }))

abbrev pub debug_ended : Program → Option Program
debug_ended program = some (signal (record program { status = program_ended }))

-- The command `debug`, with `end`, `print` or another argument.
pub data Debug : Type 0 where
  debug_end debug_print debug_other : Debug

abbrev pub or_broken : Option ConsoleState → Outcome
or_broken none = broken
or_broken (some s) = goes s

unfoldable pub debug_program : Debug → ConsoleState → Option ConsoleState
debug_program debug_end s = with_program (some (first_of s.programs)) debug_ended s
debug_program debug_print s = with_program (some (first_of s.programs)) signalled (
    set_text s.texts (some (codes "Lorem ipsum dolor sit amet"))
      (record s { message = some s.texts; texts = suc s.texts }))
debug_program debug_other s = with_program (some (first_of s.programs)) signalled s

-- The cases of the switch of message_receiver, for a payload at `t`.
unfoldable pub handle_packet : Packet → List ℕ → ℕ → ConsoleState → Option ConsoleState
handle_packet packet payload t s =
    let pid = pos packet.header.usrpid in
    let owner = get_program pid s.programs s.program_at in
    if packet.header.opcode == op_ke_send_pid
    then with_program (some (last_of s.programs)) (with_pid pid) s
    else if packet.header.opcode == op_ke_program_end
    then with_program owner (with_end payload) s
    else with_program owner signalled (record s { message = some t })

abbrev pub then_free : ℕ → Option ConsoleState → Outcome
then_free t none = broken
then_free t (some s) = goes (record s { receiver = freeing t })

-- A packet with its payload in a new block.
abbrev pub receive_payload : Option (List ℕ) → Packet → List Packet → ConsoleState → Outcome
receive_payload none packet more s = broken
receive_payload (some payload) packet more s = then_free s.texts (
    handle_packet packet payload s.texts
      (set_text s.texts (some payload) (record s { arriving = more; texts = suc s.texts })))

unfoldable pub receive_next : List Packet → ConsoleState → Outcome
receive_next [] s = waits
receive_next (packet ∷ more) s =
    if packet.header.opcode == op_undefined
    then terminating
    else receive_payload packet.payload packet more s

-- free of a payload.
unfoldable pub free_payload : ℕ → Option (List ℕ) → ConsoleState → Outcome
free_payload t none s = broken
free_payload t (some text) s = goes (set_text t none (record s { receiver = receiving }))

unfoldable pub message_receiver : ReceiverPhase → ConsoleState → Outcome
message_receiver receiving s = receive_next s.arriving s
message_receiver (freeing t) s = free_payload t (s.text_at t) s

-- What happens next: a command of the user, if main is at its prompt, a step of a thread, or
-- a signal that a thread handles.
pub data Action : Type 0 where
  run kill : Option (List ℕ) → Action
  logout receiver_goes : Action
  debug : Debug → Action
  goes_on : ℕ → Option (List ℕ) → Action
  takes_signal : ℕ → Bool → Action

abbrev pub at_prompt : Phase → Outcome → Outcome
at_prompt idle o = o
at_prompt _ o = waits

-- logout leads to the call of terminate.
unfoldable pub step : (List ℕ → ℤ × List ℕ) → ℕ → Action → ConsoleState → Outcome
step strtol program_size (run path) s = at_prompt (s.phases 0) (start_program_thread path s)
step strtol program_size (kill argument) s = at_prompt (s.phases 0) (kill_program strtol argument s)
step strtol program_size logout s = at_prompt (s.phases 0) terminating
step strtol program_size (debug d) s = at_prompt (s.phases 0) (or_broken (debug_program d s))
step strtol program_size receiver_goes s = message_receiver s.receiver s
step strtol program_size (takes_signal i inside) s = signal_dummy_action i inside s
step strtol program_size (goes_on i content) s = thread_goes program_size i content (s.phases i) s

-- init, with what the Kernel will send.
unfoldable pub start : List Packet → ConsoleState
start arriving = record {
  programs = [];
  program_at = λ p. none;
  limit = 0;
  phases = λ i. if i == 0 then idle else absent;
  threads = 1;
  signalled = λ i. false;
  joiner = λ i. none;
  receiver = receiving;
  message = none;
  text_at = λ t. none;
  texts = 0;
  arriving = arriving;
  sent = protocol_packet (protocol_header console op_handshake 0) [] ∷ [];
}

-- The states that the steps of the threads lead to, in any order, before terminate is called.
pub data Reach (strtol : List ℕ → ℤ × List ℕ) (program_size : ℕ) (arriving : List Packet)
    : ConsoleState → Type 0 where
  at_start : Reach strtol program_size arriving (start arriving)
  later :
      {s : ConsoleState} (a : Action) (t : ConsoleState)
      → Reach strtol program_size arriving s
      → step strtol program_size a s ≡ goes t
      → Reach strtol program_size arriving t
