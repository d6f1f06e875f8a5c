-- ===== src/Consola/Messages.antt =====
-- Runs of the threads of Consola/src: a text of a program, and `kill`.
use esthe_r.Base.{ℕ, suc, ◌≡◌, refl, ap, ◌∙◌, false, Option, some, List, [], ◌∷◌, ◌==◌}
use esthe_r.Base.Int.{ℤ, pos}
use esthe_r.Protocol.{Packet}
use esthe_r.Protocol.Opcodes.{op_undefined, op_ke_send_pid, op_ke_program_end}
use esthe_r.Consola.{
  Program, program_active, at_semaphore, woken, receiving, freeing, ConsoleState, Outcome, waits,
  broken, over, terminating, goes, get_program, set_program, set_text,
}
use esthe_r.Consola.Steps.{wait_handler, wake_handler, thread_goes}
use esthe_r.Consola.Run.{
  signal, handle_packet, receive_next, free_payload, message_receiver, Action, receiver_goes,
  goes_on, step,
}
use esthe_r.Consola.Valid.{put_self}

abbrev pub and_then : Outcome → (ConsoleState → Outcome) → Outcome
and_then (goes s) f = f s
and_then waits f = waits
and_then broken f = broken
and_then over f = over
and_then terminating f = terminating

-- Steps, one after the other, as far as they go.
unfoldable pub run_all : (List ℕ → ℤ × List ℕ) → ℕ → List Action → ConsoleState → Outcome
run_all strtol program_size [] s = goes s
run_all strtol program_size (a ∷ more) s =
    and_then (step strtol program_size a s) (run_all strtol program_size more)

-- The state after the text at `t` is received for the program at `p`.
abbrev texted : ℕ → Program → List ℕ → List Packet → ConsoleState → ConsoleState
texted p program payload more s =
    set_program p (some (signal program)) (record (set_text s.texts (some payload) s) {
      arriving = more;
      texts = suc s.texts;
      message = some s.texts;
      receiver = freeing s.texts;
    })

module _ (strtol : List ℕ → ℤ × List ℕ) (program_size : ℕ) (s : ConsoleState) (i p : ℕ)
    (program : Program) (here : s.program_at p ≡ some program)
    (waiting : s.phases i ≡ at_semaphore (some p)) (active : program.status ≡ program_active) where
  module _ (packet : Packet) (more : List Packet) (payload : List ℕ)
      (idle_receiver : s.receiver ≡ receiving) (next : s.arriving ≡ packet ∷ more)
      (carried : packet.payload ≡ some payload)
      (defined : (packet.header.opcode == op_undefined) ≡ false)
      (no_pid : (packet.header.opcode == op_ke_send_pid) ≡ false)
      (no_end : (packet.header.opcode == op_ke_program_end) ≡ false)
      (owner : get_program (pos packet.header.usrpid) s.programs s.program_at ≡ some (some p)) where
    received_text :
        step strtol program_size receiver_goes s ≡ goes (texted p program payload more s)
    unfolding step message_receiver receive_next handle_packet
    received_text = rw (idle_receiver, next, defined, carried, no_pid, no_end, owner, here) refl

    free_first :
        (c d : Option (List ℕ))
        → run_all strtol program_size
            (receiver_goes ∷ goes_on i c ∷ goes_on i d ∷ [])
            (texted p program payload more s)
          ≡ broken
    unfolding run_all step message_receiver free_payload thread_goes wait_handler wake_handler
    free_first c d =
        rw
          (
            put_self s.texts (some payload) s.text_at,
            waiting,
            put_self p (some (signal program)) s.program_at,
            put_self i (woken (some p)) s.phases,
            put_self p,
            active,
            put_self s.texts,
          )
          refl

    wake_first :
        (c d : Option (List ℕ))
        → run_all strtol program_size
            (goes_on i c ∷ receiver_goes ∷ goes_on i d ∷ [])
            (texted p program payload more s)
          ≡ broken
    unfolding run_all step message_receiver free_payload thread_goes wait_handler wake_handler
    wake_first c d =
        rw
          (
            waiting,
            put_self p (some (signal program)) s.program_at,
            put_self s.texts (some payload) s.text_at,
            put_self i (woken (some p)) s.phases,
            put_self p,
            active,
            put_self s.texts,
          )
          refl

    print_first :
        (c d : Option (List ℕ))
        → run_all strtol program_size
            (goes_on i c ∷ goes_on i d ∷ receiver_goes ∷ [])
            (texted p program payload more s)
          ≡ broken
    unfolding run_all step message_receiver free_payload thread_goes wait_handler wake_handler
    print_first c d =
        rw
          (
            waiting,
            put_self p (some (signal program)) s.program_at,
            put_self i (woken (some p)) s.phases,
            put_self p,
            active,
            put_self s.texts (some payload) s.text_at,
            put_self s.texts,
          )
          refl

    -- When the receiver has a text for a program whose thread waits at its semaphore: in every order of
    -- the steps of the two threads that free the text, whatever the files are, one of them reads or
    -- frees it after it was freed.
    pub text-broken :
        (c d : Option (List ℕ))
        → (run_all strtol program_size
              (receiver_goes ∷ receiver_goes ∷ goes_on i c ∷ goes_on i d ∷ [])
              s
            ≡ broken)
          × (run_all strtol program_size
                (receiver_goes ∷ goes_on i c ∷ receiver_goes ∷ goes_on i d ∷ [])
                s
              ≡ broken)
          × (run_all strtol program_size
                (receiver_goes ∷ goes_on i c ∷ goes_on i d ∷ receiver_goes ∷ [])
                s
              ≡ broken)
    unfolding run_all
    text-broken c d = (
      ap
            (λ o.
              and_then o
                (run_all strtol program_size (receiver_goes ∷ goes_on i c ∷ goes_on i d ∷ [])))
            received_text
          ∙ free_first c d,
      ap
            (λ o.
              and_then o
                (run_all strtol program_size (goes_on i c ∷ receiver_goes ∷ goes_on i d ∷ [])))
            received_text
          ∙ wake_first c d,
      ap
            (λ o.
              and_then o
                (run_all strtol program_size (goes_on i c ∷ goes_on i d ∷ receiver_goes ∷ [])))
            received_text
          ∙ print_first c d,
    )
