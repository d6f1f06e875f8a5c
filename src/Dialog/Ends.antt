-- ===== src/Dialog/Ends.antt =====
-- The end of a program: the packets of Kernel/src/exitcode.c, which Consola/src/message_receiver.c and
-- Memoria/src/server.c take.
use esthe_r.Base.{
  ℕ, suc, ◌%◌, ◌≤◌, ◌≡◌, refl, sym, ap, ◌∙◌, true, false, some, List, [], ◌∷◌, ◌++◌, length, ◌==◌,
  arith, Bool-cases, inl, inr, ==_iff,
}
use esthe_r.Base.Int.{ℤ, pos, leb_ℤ, to_unsigned}
use esthe_r.Commons.{find?}
use esthe_r.Serial.Format.{copy_bytes}
use esthe_r.Serial.PcbPack.Encoding.{short_bytes, Short}
use esthe_r.Serial.PcbPack.Sizes.{length-short_bytes}
use esthe_r.Socket.Send.{Accepts}
use esthe_r.Protocol.{Packet, protocol_packet, protocol_header, protocol_header_response, pointed}
use esthe_r.Protocol.RoundTrip.{IsValid, copy_all}
use esthe_r.Protocol.Opcodes.{memory, op_ke_program_end, op_me_finpro}
use esthe_r.Memory.PageTable.{Row, clear_pages}
use esthe_r.Memory.Server.{Client, serve, finish_program}
use esthe_r.Kernel.{
  KernelState, TClient, send, receive, program_header, buffered, take_packet, set_connection,
}
use esthe_r.Kernel.Pcbs.{has_program, tell, tell_console, tell_both, announce}
use esthe_r.Kernel.Pcbs.Ends.{send-arriving}
use esthe_r.Consola.{
  Program, program_ended, ConsoleState, goes, get_program, set_program, set_text, freeing,
}
use esthe_r.Consola.Run.{handle_packet, receive_next}
use esthe_r.Consola.Valid.{put_self}
use esthe_r.Dialog.{arrived}
use esthe_r.Dialog.Pages.{packs-Short, reads-Short, responds}

-- The packet of the end of a program, with its exit code.
abbrev pub end_packet : ℕ → ℤ → ℤ → Packet
end_packet op pid code = protocol_packet (program_header op 2 pid) (short_bytes code)

arrived-end_packet :
    (op p : ℕ) (code : ℤ) → (arrived (end_packet op (pos p) code)).payload ≡ some (short_bytes code)
unfolding protocol_packet protocol_header program_header pointed
arrived-end_packet op p code =
    let l = length-short_bytes code in
    ap (λ m. copy_bytes m (short_bytes code)) (sym l) ∙ copy_all (short_bytes code)

end_program_of :
    (op p : ℕ) (code : ℤ) → (arrived (end_packet op (pos p) code)).header.usrpid ≡ p % 256
unfolding protocol_packet protocol_header program_header to_unsigned
end_program_of op p code = refl

end_opcode : (op p : ℕ) (code : ℤ) → (arrived (end_packet op (pos p) code)).header.opcode ≡ op % 256
unfolding protocol_packet protocol_header program_header
end_opcode op p code = refl

-- The program of a console when it has ended.
abbrev pub ended_with : ℤ → Program → Program
ended_with code program = record program {
  status = program_ended;
  exitcode = code;
  sem = suc program.sem;
}

console_takes :
    (s : ConsoleState) (p q : ℕ) (program : Program) (code : ℤ) (more : List Packet)
    → Short code
    → get_program (pos (p % 256)) s.programs s.program_at ≡ some (some q)
    → s.program_at q ≡ some program
    → (s2 : ConsoleState) × (receive_next
          (arrived (end_packet op_ke_program_end (pos p) code) ∷ more)
          s
        ≡ goes s2)
      × (s2.program_at q ≡ some (ended_with code program))
unfolding receive_next handle_packet protocol_packet
console_takes s p q program code more h found here = (
  record (set_program q (some (ended_with code program)) (
      set_text s.texts (some (short_bytes code))
        (record s { arriving = more; texts = suc s.texts }))) { receiver = freeing s.texts },
  rw
      (
        end_opcode op_ke_program_end p code,
        arrived-end_packet op_ke_program_end p code,
        end_program_of op_ke_program_end p code,
        found,
        here,
        reads-Short code h,
      )
      refl,
  put_self q (some (ended_with code program)) s.program_at,
)

clear_pages-Short : (table : List Row) (pid : ℤ) → Short (clear_pages table pid).0
unfolding clear_pages
clear_pages-Short table pid = elim (Bool-cases (leb_ℤ pid (pos 0))) [
  | inl a ↦ rw a (omega arith)
  | inr a ↦ rw a (omega arith)
]

memory_takes :
    (m p : ℕ) (code : ℤ) (c : Client)
    → IsValid (protocol_header_response memory c.header 2)
    → Accepts c.accepted
    → 9 ≤ length c.accepted
    → (c' : Client) × (serve m (arrived (end_packet op_me_finpro (pos p) code)) c ≡ some (c', true))
      × (c'.shared.page_table ≡ (clear_pages c.shared.page_table (pos (p % 256))).1)
unfolding serve finish_program
memory_takes m p code c valid ok enough =
    let (res, table) = clear_pages c.shared.page_table (pos (p % 256)) in
    let (c', e, same, _) =
      responds (record c { shared = record c.shared { page_table = table } }) res
        (clear_pages-Short c.shared.page_table (pos (p % 256))) valid ok enough in
    (
      c',
      rw (end_opcode op_me_finpro p code, end_program_of op_me_finpro p code, e) refl,
      ap (λ d. d.page_table) same,
    )

-- The Kernel after both packets.
abbrev told : TClient → ℕ → ℤ → KernelState → KernelState
told client p code k =
    send (end_packet op_me_finpro (pos p) code) k.memfd
      (send (end_packet op_ke_program_end (pos p) code) client.client_id k)

send-sent :
    (packet : Packet) (s : ℕ) (k : KernelState)
    → ((send packet s k).connection s).sent ≡ (k.connection s).sent ++ (packet ∷ [])
unfolding send
send-sent packet s k = let t : (s == s) ≡ true = (==_iff s s).1 refl in rw t refl

send-sent_other :
    (packet : Packet) (s t : ℕ) (k : KernelState)
    → (t == s) ≡ false
    → ((send packet s k).connection t).sent ≡ (k.connection t).sent
unfolding send
send-sent_other packet s t k e = rw e refl

-- The Kernel after the answer of the memory.
abbrev answered_end : ℕ → List Packet → KernelState → KernelState
answered_end s more k = set_connection s (record (k.connection s) { arriving = more }) k

answered-sent :
    (s t : ℕ) (more : List Packet) (k : KernelState)
    → ((answered_end s more k).connection t).sent ≡ (k.connection t).sent
answered-sent s t more k = elim (Bool-cases (t == s)) [
  | inl e ↦ rw e (ap (λ a. (k.connection a).sent) (sym ((==_iff t s).0 e)))
  | inr e ↦ rw e refl
]

tells_both :
    (client : TClient) (p : ℕ) (code : ℤ) (k : KernelState)
    → find? (has_program (pos p)) k.consolas_conectadas ≡ some client
    → tell_both (pos p) (record { size = 2; bytes = short_bytes code }) k ≡ told client p code k
unfolding tell_both tell_console tell send program_header protocol_header
tells_both client p code k e = rw e refl

told_arriving :
    (client : TClient) (p : ℕ) (code : ℤ) (k : KernelState) (s : ℕ)
    → ((told client p code k).connection s).arriving ≡ (k.connection s).arriving
told_arriving client p code k s =
    send-arriving (end_packet op_me_finpro (pos p) code) k.memfd s _
    ∙ send-arriving (end_packet op_ke_program_end (pos p) code) client.client_id s k

takes_answer :
    (client : TClient) (p : ℕ) (code : ℤ) (k : KernelState) (packet : Packet) (more : List Packet)
    → ((told client p code k).connection k.memfd).arriving ≡ packet ∷ more
    → receive (told client p code k).memfd (told client p code k)
      ≡ some (packet, answered_end k.memfd more (told client p code k))
unfolding receive take_packet send
takes_answer client p code k packet more e =
    ap (λ ps. take_packet k.memfd ps (told client p code k)) e

module _ (client : TClient) (p : ℕ) (code : ℤ) (short : Short code) where
  tells :
      (k : KernelState) (packet : Packet) (more : List Packet)
      → find? (has_program (pos p)) k.consolas_conectadas ≡ some client
      → (client.client_id == k.memfd) ≡ false
      → (k.connection k.memfd).arriving ≡ packet ∷ more
      → (k' : KernelState) × (announce (pos p) code k ≡ some k')
        × ((k'.connection client.client_id).sent
            ≡ (k.connection client.client_id).sent
              ++ (end_packet op_ke_program_end (pos p) code ∷ []))
        × ((k'.connection k.memfd).sent
            ≡ (k.connection k.memfd).sent ++ (end_packet op_me_finpro (pos p) code ∷ []))
  unfolding announce buffered
  tells k packet more found apart answer =
      let k1 = told client p code k in
      let there : (k1.connection k.memfd).arriving ≡ packet ∷ more =
        told_arriving client p code k k.memfd ∙ answer in
      (
        answered_end k.memfd more k1,
        rw
            (
              packs-Short code short,
              tells_both client p code k found,
              takes_answer client p code k packet more there,
            )
            refl,
        answered-sent k.memfd client.client_id more k1
            ∙ send-sent_other (end_packet op_me_finpro (pos p) code) k.memfd client.client_id _
                apart
            ∙ send-sent (end_packet op_ke_program_end (pos p) code) client.client_id k,
        answered-sent k.memfd k.memfd more k1
            ∙ send-sent (end_packet op_me_finpro (pos p) code) k.memfd _
            ∙ ap (λ l. l ++ (end_packet op_me_finpro (pos p) code ∷ []))
                (send-sent_other (end_packet op_ke_program_end (pos p) code) client.client_id
                  k.memfd k (ground (arith, apart))),
      )

  -- When a program of a connected console ends, with an exit code that fits 16 bits, and the memory has an
  -- answer: the Kernel sends one packet to the console and one to the memory. The console, which has
  -- a program with that number modulo 256, takes the first: the program has ended, with that exit code, and its
  -- semaphore is raised. The memory, whose socket accepts the answer, takes the second: it clears the pages
  -- of the program with that number modulo 256.
  pub announce-clear_pages :
      (k : KernelState) (packet : Packet) (more : List Packet)
      → find? (has_program (pos p)) k.consolas_conectadas ≡ some client
      → (client.client_id == k.memfd) ≡ false
      → (k.connection k.memfd).arriving ≡ packet ∷ more
      → (s : ConsoleState) (q : ℕ) (program : Program) (later : List Packet)
      → get_program (pos (p % 256)) s.programs s.program_at ≡ some (some q)
      → s.program_at q ≡ some program
      → (m : ℕ) (c : Client) → IsValid (protocol_header_response memory c.header 2)
      → Accepts c.accepted
      → 9 ≤ length c.accepted
      → ((k' : KernelState) × (announce (pos p) code k ≡ some k')
          × ((k'.connection client.client_id).sent
              ≡ (k.connection client.client_id).sent
                ++ (end_packet op_ke_program_end (pos p) code ∷ []))
          × ((k'.connection k.memfd).sent
              ≡ (k.connection k.memfd).sent ++ (end_packet op_me_finpro (pos p) code ∷ [])))
        × ((s2 : ConsoleState) × (receive_next
                (arrived (end_packet op_ke_program_end (pos p) code) ∷ later)
                s
              ≡ goes s2)
            × (s2.program_at q ≡ some (ended_with code program)))
        × ((c' : Client) × (serve m (arrived (end_packet op_me_finpro (pos p) code)) c
              ≡ some (c', true))
            × (c'.shared.page_table ≡ (clear_pages c.shared.page_table (pos (p % 256))).1))
  announce-clear_pages k packet more found apart answer s q program later known here m c valid ok
        enough =
      (
        tells k packet more found apart answer,
        console_takes s p q program code later short known here,
        memory_takes m p code c valid ok enough,
      )
