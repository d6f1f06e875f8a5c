-- ===== src/Kernel/Terminal.antt =====
-- Kernel/src/console.c, and the functions of Kernel/src/pcbutils.c that it calls. The library's
-- comparison of texts, atoi, strtol and string_trim are parameters. What is printed is a list of values.
pub mod Kill
pub mod Killing
pub mod Ends
use esthe_r.Base.{
  ℕ, zero, suc, Bool, true, false, ◌||◌, Option, none, some, ◌>>=◌, List, [], ◌∷◌, ◌++◌,
}
use esthe_r.Base.{codes, if◌then◌else◌}
use esthe_r.Base.Int.{ℤ, pos, negsuc, eq_ℤ}
use esthe_r.Utils.{strtoi, is_empty}
use esthe_r.Kernel.{
  Status, new, ready, exec, block, exit, KernelState, set_queue, append_queue, write_pcb,
}
use esthe_r.Kernel.Pcbs.{statuses, pcb_by_id}

pub data Shown : Type 0 where
  pid_shown : ℤ → Shown
  queue_shown : Status → List ℤ → Shown
  level_shown : ℕ → Shown
  text_shown : Shown

-- The first pcb of the list with the pid, and the list without it: mlist_get and mlist_pop in turn.
unfoldable pub pop_pid : ℤ → List ℕ → KernelState → Option (Option (ℕ × List ℕ))
pop_pid pid [] k = some none
pop_pid pid (p ∷ ps) k = do
  aux ← k.pcb_at p
  let rest = pop_pid pid ps k
  if eq_ℤ aux.id_process pid
      then some (some (p, ps))
      else (do found ← rest; some (elim found [ some (q, qs) ↦ some (q, p ∷ qs) | none ↦ none ]))

abbrev pub exit_killed : ℤ
exit_killed = negsuc 1

abbrev pub status_exit : ℤ
status_exit = pos 4

-- The pcb, which is in no list now, is put behind those that ended.
abbrev pub move_killed : ℕ → KernelState → Option KernelState
move_killed p k = do
  aux ← k.pcb_at p
  some (
      append_queue exit p
        (write_pcb p (some (record aux { exit_code = exit_killed; status = status_exit })) k))

-- One of the three loops over a list; the result has `stop`, if it sets it.
unfoldable pub kill_from : ℤ → Status → KernelState → Option (Bool × KernelState)
kill_from pid st k = do
  found ← pop_pid pid (k.queue st) k
  elim found [
    | none ↦ some (false, k)
    | some (p, rest) ↦ do k ← move_killed p (set_queue st rest k); some (true, k)
  ]

unfoldable pub kill_round : ℤ → KernelState → Option (Bool × KernelState)
kill_round pid k = do
  (from_new, k) ← kill_from pid new k
  (from_block, k) ← kill_from pid block k
  (from_ready, k) ← kill_from pid ready k
  some (from_new || (from_block || from_ready), k)

-- At most so many rounds of `while (!stop)`: the inner `none` is that they were not enough. The terminal
-- has a thread of its own: `others` is what the server does between two rounds, by the rounds left. A
-- round is taken as one step.
unfoldable pub kill_loop :
    ℕ → (ℕ → KernelState → KernelState) → ℤ → KernelState → Option (Option KernelState)
kill_loop zero others pid k = some none
kill_loop (suc rounds) others pid k = do
  (stop, k) ← kill_round pid k
  let rest = kill_loop rounds others pid (others rounds k)
  if stop then some (some k) else rest

-- The pids of a list.
unfoldable pub pids_of : List ℕ → KernelState → Option (List ℤ)
pids_of [] k = some []
pids_of (p ∷ ps) k = do pcb ← k.pcb_at p; rest ← pids_of ps k; some (pcb.id_process ∷ rest)

abbrev pub show_pids : List ℤ → List Shown
show_pids [] = []
show_pids (pid ∷ pids) = pid_shown pid ∷ show_pids pids

unfoldable pub process_list : List Status → KernelState → Option (List Shown)
process_list [] k = some []
process_list (st ∷ sts) k = do
  pids ← pids_of (k.queue st) k
  rest ← process_list sts k
  some (show_pids pids ++ rest)

unfoldable pub pcb_print_status_queue : Status → KernelState → Option Shown
pcb_print_status_queue st k = do pids ← pids_of (k.queue st) k; some (queue_shown st pids)

unfoldable pub print_queues : List Status → KernelState → Option (List Shown)
print_queues [] k = some []
print_queues (st ∷ sts) k = do
  line ← pcb_print_status_queue st k
  rest ← print_queues sts k
  some (line ∷ rest)

abbrev pub status_name : Status → List ℕ
status_name new = codes "NEW"
status_name ready = codes "READY"
status_name exec = codes "EXEC"
status_name block = codes "BLOCK"
status_name exit = codes "EXIT"

-- The kernel, and whether the terminal holds mutex_planificacion.
pub record Terminal : Type 0 where
  pub kernel : KernelState
  pub held : Bool

module _ (string_equals_ignore_case : List ℕ → List ℕ → Bool) (strtol : List ℕ → ℤ × List ℕ)
    (atoi : List ℕ → ℤ) (string_trim string_to_upper : List ℕ → List ℕ) where
  abbrev pub streq : List ℕ → List ℕ → Bool
  streq str1 str2 = string_equals_ignore_case str1 str2

  unfoldable pub named_status : List ℕ → List Status → Option Status
  named_status str [] = none
  named_status str (st ∷ sts) = if streq str (status_name st) then some st else named_status str sts

  -- `none` is -1.
  unfoldable pub pcb_status_from_name : List ℕ → Option Status
  pcb_status_from_name name = named_status (string_to_upper name) statuses

  abbrev pub asked_status : Option (List ℕ) → Option Status
  asked_status none = none
  asked_status (some name) =
      if is_empty string_trim (some name) then none else pcb_status_from_name name

  abbrev pub shown_queues : Option Status → List Status
  shown_queues none = statuses
  shown_queues (some st) = st ∷ []

  unfoldable pub list_status_queues : Option (List ℕ) → KernelState → Option (List Shown)
  list_status_queues name k = print_queues (shown_queues (asked_status name)) k

  -- Both outcomes print one text.
  unfoldable pub show_info : Option (List ℕ) → KernelState → Option (List Shown)
  show_info none k = some (text_shown ∷ [])
  show_info (some arg) k =
      let pid = strtoi strtol arg in
      if is_empty string_trim (some arg)
      then some (text_shown ∷ [])
      else if eq_ℤ pid (negsuc 0)
      then some (text_shown ∷ [])
      else (do found ← pcb_by_id pid k; some (text_shown ∷ []))

  abbrev pub level_set : ℤ → KernelState → List Shown × KernelState
  level_set (pos level) k = ([], record k { multipg_level = level })
  level_set (negsuc n) k = (text_shown ∷ [], k)

  unfoldable pub set_multiprog_level : Option (List ℕ) → KernelState → List Shown × KernelState
  set_multiprog_level none k = (level_shown k.multipg_level ∷ [], k)
  set_multiprog_level (some arg) k =
      if is_empty string_trim (some arg)
      then (level_shown k.multipg_level ∷ [], k)
      else level_set (strtoi strtol arg) k

  -- atoi reads the argument, also when it is NULL.
  unfoldable pub kill_command :
      ℕ
      → (ℕ → KernelState → KernelState)
      → Option (List ℕ)
      → KernelState
      → Option (Option KernelState)
  kill_command rounds others none k = none
  kill_command rounds others (some argument) k = kill_loop rounds others (atoi argument) k

  abbrev pub showing : Terminal → Option (List Shown) → Option (Option (List Shown × Terminal))
  showing s r = do lines ← r; some (some (lines, s))

  -- A mutex that the terminal holds is not given to it again, and it must not give back another's.
  abbrev pub stop : Terminal → Option (Option (List Shown × Terminal))
  stop s = if s.held then some none else some (some ([], record s { held = true }))

  abbrev pub restart : Terminal → Option (Option (List Shown × Terminal))
  restart s = if s.held then some (some ([], record s { held = false })) else none

  -- A command of the terminal; the inner `none` is that it does not end, in so many rounds of `kill`.
  unfoldable pub terminal :
      ℕ
      → (ℕ → KernelState → KernelState)
      → List ℕ
      → Option (List ℕ)
      → Terminal
      → Option (Option (List Shown × Terminal))
  terminal rounds others command argument s =
      if streq command (codes "processlist")
      then showing s (process_list (exec ∷ exit ∷ new ∷ block ∷ ready ∷ []) s.kernel)
      else if streq command (codes "kill")
      then (do
        done ← kill_command rounds others argument s.kernel
        some (do k ← done; some ([], record s { kernel = k })))
      else if streq command (codes "stop")
      then stop s
      else if streq command (codes "restart")
      then restart s
      else if streq command (codes "list")
      then showing s (list_status_queues argument s.kernel)
      else if streq command (codes "info")
      then showing s (show_info argument s.kernel)
      else if streq command (codes "multipg")
      then (let (lines, k) = set_multiprog_level argument s.kernel in
          some (some (lines, record s { kernel = k })))
      else some (some (text_shown ∷ [], s))
