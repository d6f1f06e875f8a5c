-- ===== src/Lib.antt =====
-- ESTheR runs AnSISOP programs in cooperating processes (CPU, Kernel, Memoria, Consola, File_System)
-- that exchange packets over TCP. This library models the C code of those processes as functions
-- and states what makes the code correct.
--
-- Structures.antt          Common/structures.h: the process control block and what it holds
-- Serial/Integers.antt     Common/serial.c: packi16 ... unpacku64, numbers as big-endian bytes
-- Serial/Format.antt       Common/serial.c: serial_pack, serial_unpack, the format interpreter
-- Serial/PcbPack.antt      Common/serial.c: serial_pack_pcb, serial_pack_stack, serial_pack_vars
-- Serial/PcbUnpack.antt    Common/serial.c: serial_unpack_pcb, serial_unpack_stack, serial_unpack_vars
-- Socket.antt              Common/socket.c: sendall, recvall and the functions on bytes
-- Protocol.antt            Common/protocol.c: headers, packets, the handshake
-- Memory/PageTable.antt    Memoria/src/page_table.c: the owners of the frames, and their bytes
-- Memory/Server.antt       Memoria/src/server.c: the thread of a client, over packets
-- Memory/Cache.antt        Memoria/src/cache.c: the cache of pages
-- Memory/HashTable.antt    Memoria/src/hash_table.c: the table of programs and pages
-- Memory/Process.antt      Memoria/src/Memoria.c, configuration.c, console.c: the start, the commands
-- Mlist.antt               Common/mlist.c: lists of linked nodes in a heap
-- Mlist/Traverse.antt      Common/mlist.c: the functions that run traverse_nodes
-- Queue.antt, Stack.antt   Common/queue.c, Common/stack.c: lists used from their ends
-- Cpu/Primitives.antt      CPU/src/CPU.c: the AnSISOP primitives on the process control block
-- Cpu/Messages.antt        CPU/src/CPU.c: the primitives that ask the memory and the Kernel
-- Cpu/Cycle.antt           CPU/src/CPU.c: ejecutarPrograma and the request of an instruction
-- Kernel.antt              Kernel/src: the lists of programs and of clients, and the connections
-- Kernel/Pcbs.antt         Kernel/src/pcbutils.c, exitcode.c: searches, and the end of a program
-- Kernel/Planning.antt     Kernel/src/Kernel.c: planificacion
-- Kernel/Programs.antt     Kernel/src/Kernel.c: crear_pcb_proceso, gestion_datos_newPcb
-- Kernel/Server.antt       Kernel/src/server.c: the clients
-- Kernel/Syscall.antt      Kernel/src/syscall.c: gestion_syscall, semaphores and shared variables
-- Kernel/Loop.antt         Kernel/src/server.c: init_server, a packet of a client and a round
-- Kernel/Terminal.antt     Kernel/src/console.c: the commands of the Kernel
-- Kernel/Start.antt        Kernel/src/configuration.c, Kernel.c: the state that the server begins with
-- Consola.antt             Consola/src: the programs of a console and its threads
-- Consola/Steps.antt       Consola/src/Consola.c, console.c, program_handler.c: main and the programs
-- Consola/Run.antt         Consola/src/message_receiver.c, and the states that all threads reach
-- Dialog.antt              Consola/src, Kernel/src: a new program, from one to the other and back
-- Dialog/Pages.antt        Kernel/src, Memoria/src: a request of pages and its answer
-- Dialog/Ends.antt         Kernel/src, Consola/src, Memoria/src: the packets of the end of a program
-- Utils.antt               Common/utils.c: commands, numbers and times as text
-- Commons.antt             the t_list operations of so-commons, as a record of operations and laws
-- Base.antt                shared tests, lists, integers and words
-- Tests.antt               runs on concrete inputs
--
-- Bytes are natural numbers, and C integers are integers whose wrap-around is written out where
-- the code stores them in a field of a fixed width. A function that writes into a buffer returns
-- the bytes it wrote; one that reads takes the bytes that are left. Reading past what is there,
-- and what the code would leave undefined, is none. The loop of recvall runs on fuel, the number
-- of bytes asked for: each turn that goes on takes at least one byte.
--
-- The t_list of so-commons is not part of this repository: its operations are a parameter with the
-- documented behaviour as laws, which a list of values satisfies. What the network does, the pieces
-- it delivers and the number of bytes each send accepts, is an explicit list.
--
-- The memory thread of a client takes packets off its connection and answers with packets; its state
-- is the header it keeps, the page table, the bytes of the frames and the two ends of the connection.
-- The primitives of the CPU work on the process control block and send it to the Kernel when the
-- program ends. The loop of the memory thread is given the number of rounds that it runs;
-- that of ejecutarPrograma runs on fuel, of which one more than the turns is enough.
--
-- The lists of Common have their nodes in a heap, in which a list is a chain of linked cells that
-- end in NULL; Mlist/Links.antt says when a heap holds the list of given cells. Queues and stacks
-- are specified by the sequence of the elements on them (Mlist/Buffer.antt). The loops over the nodes
-- run on fuel, one more than the length of the list, which is enough for a list that is well formed.
--
-- The Kernel keeps pointers to process control blocks in its lists, so a block may be freed while a list
-- still has it. Its lists are written as the sequences of their elements, and its connections
-- are sequences of packets. The loop of planificacion runs on fuel, one more than the programs that
-- are ready, each of which it takes once.
--
-- The console has a thread for its commands, one for each program and one that receives. A state says
-- where each of them is, and a step is one of them going on to the next place where another may go
-- first; Consola/Run.antt has the states that any order of steps reaches, as far as the call of terminate.
-- thread_kill sends a signal, whose handler does nothing, and joins; Consola.antt says what POSIX leaves
-- undefined there. `kill` of the Kernel runs on fuel, of which one round is enough for a program that it
-- finds; what the other threads do between two rounds is a parameter.
--
-- Not modelled: floating-point packing (no format of the system uses it); the set-up of sockets,
-- the accept loops, logging, the reading of files and what is only printed, which are calls of the
-- operating system and of libraries; the two configuration readers that only copy texts; terminate of
-- the Kernel, of the memory and of the console, which end the process; the File_System, which does nothing yet.
pub mod Base
pub mod Commons
pub mod Consola
pub mod Cpu
pub mod Dialog
pub mod Kernel
pub mod Memory
pub mod Mlist
pub mod Protocol
pub mod Queue
pub mod Serial
pub mod Socket
pub mod Stack
pub mod Structures
pub mod Tests
pub mod Utils
