-- ===== src/Kernel/Pcbs/Ends.antt =====
-- Kernel/src/exitcode.c: where a program is after end_program.
use esthe_r.Base.{ℕ, ◌≡◌, refl, sym, ◌∙◌, false, Option, none, some, List, [], ◌∷◌, ◌++◌, subst}
use esthe_r.Base.Int.{ℤ}
use esthe_r.Structures.{Pcb}
use esthe_r.Protocol.{Packet}
use esthe_r.Base.{codes}
use esthe_r.Serial.Format.{Packed, num, serial_pack}
use esthe_r.Mlist.Relink.{self}
use esthe_r.Kernel.{
  buffered, Connection, TClient, KernelState, Status, new, ready, exec, block, exit, write_pcb,
  append_queue, alloc_pcb,
}
use esthe_r.Kernel.Pcbs.{
  pcb_equals, pcb_remove, statuses, end_program, announce, tell_console, tell, tell_both,
}
use esthe_r.Kernel.Quiet.{
  Ensures, Ensures-bind, Ensures-after, Ensures-weaken, Ensures-result, listed, Quiet, Quiet-trans,
  Quiet-refl, send-Quiet, receive-Quiet, answer-Quiet,
}
use esthe_r.Kernel.Pcbs.Live.{Live, Live-mono, remove_all-returns, Wired}
use esthe_r.Serial.Integers.{packi16}
use esthe_r.Base.{◌^◌, ap, Bool-cases, inl, inr, ==_iff, ◌==◌}
use esthe_r.Base.Int.{to_unsigned}
use esthe_r.Kernel.{take_packet, send, receive}
use esthe_r.Serial.Format.{serial_pack_va, pack_conv, store_num}
use esthe_r.Kernel.Pcbs.Removal.{Out, Clearing, remove_all-Clearing}

-- The program has ended: no other live control block of it is in a list, and one with the exit code is
-- the last of the list of programs that ended.
pub record Ended (pcb : Pcb) (code : ℤ) (k' : KernelState) : Type 0 where
  pub dup : ℕ
  pub before : List ℕ
  pub last : k'.queue exit ≡ before ++ (dup ∷ [])
  pub content : k'.pcb_at dup ≡ some (record pcb { exit_code = code })
  pub gone_before : Out (pcb_equals pcb) k'.pcb_at before
  pub gone_new : Out (pcb_equals pcb) k'.pcb_at (k'.queue new)
  pub gone_ready : Out (pcb_equals pcb) k'.pcb_at (k'.queue ready)
  pub gone_exec : Out (pcb_equals pcb) k'.pcb_at (k'.queue exec)
  pub gone_block : Out (pcb_equals pcb) k'.pcb_at (k'.queue block)

tell-Quiet : (c : Option TClient) (p : Packet) (k : KernelState) → Quiet k (tell c p k)
unfolding tell
tell-Quiet (some c) p k = send-Quiet p c.client_id k
tell-Quiet none p k = Quiet-refl k

tell_both-Quiet : (pid : ℤ) (b : Packed) (k : KernelState) → Quiet k (tell_both pid b k)
unfolding tell_both tell_console
tell_both-Quiet pid b k = Quiet-trans k _ _ (tell-Quiet _ _ k) (send-Quiet _ _ _)

announce-Quiet : (pid code : ℤ) (k : KernelState) → Ensures (Quiet k) (announce pid code k)
unfolding announce
announce-Quiet pid code k =
    Ensures-after (Quiet k) (buffered (serial_pack (codes "h") (num code ∷ []))) _ (λ b.
      let k1 = tell_both pid b k in
      Ensures-weaken (Quiet k1) (Quiet k) _
        (λ k2 q. Quiet-trans k k1 k2 (tell_both-Quiet pid b k) q)
        (answer-Quiet k1 _ (receive-Quiet k1.memfd k1)))

-- The state with the copy of the control block.
abbrev copied : ℕ → Pcb → KernelState → KernelState
copied p pcb k = (alloc_pcb pcb (write_pcb p (some pcb) k)).1

settled :
    (p : ℕ) (pcb : Pcb) (code : ℤ) (k k2 : KernelState) (c : ℕ → Connection)
    → ((st : Status) → listed k.limit (k.queue st) ≡ false)
    → Clearing (pcb_equals pcb) statuses (copied p (record pcb { exit_code = code }) k) k2
    → Ended pcb code (record (append_queue exit k.limit k2) { connection = c })
settled p pcb code k k2 c fresh d = record {
  dup = k.limit;
  before = k2.queue exit;
  last = refl;
  content = d.kept k.limit fresh ∙ self k.limit (some (record pcb { exit_code = code })) _;
  gone_before = d.out_of exit refl;
  gone_new = d.out_of new refl;
  gone_ready = d.out_of ready refl;
  gone_exec = d.out_of exec refl;
  gone_block = d.out_of block refl;
}

-- What end_program leaves, if it ends.
end_program-result :
    (p : ℕ) (pcb : Pcb) (code : ℤ) (k k' : KernelState)
    → k.pcb_at p ≡ some pcb
    → ((st : Status) → listed k.limit (k.queue st) ≡ false)
    → end_program p code k ≡ some k'
    → Ended pcb code k'
unfolding end_program pcb_remove Quiet
end_program-result p pcb code k k' e fresh done =
    let pcb' = record pcb { exit_code = code } in
    let k1 = (alloc_pcb pcb' (write_pcb p (some pcb') k)).1 in
    Ensures-result (Ended pcb code) (end_program p code k) k'
      (rw e (
        Ensures-bind (Clearing (pcb_equals pcb') statuses k1) (Ended pcb code) _ _
          (remove_all-Clearing (pcb_equals pcb') statuses k1)
          (λ k2 d.
            Ensures-weaken (Quiet (append_queue exit k.limit k2)) (Ended pcb code) _
              (λ k3 q.
                subst (Ended pcb code) (sym q) (settled p pcb code k k2 k3.connection fresh d))
              (announce-Quiet pcb.id_process code (append_queue exit k.limit k2)))))
      done

pub send-arriving :
    (p : Packet) (s t : ℕ) (k : KernelState)
    → ((send p s k).connection t).arriving ≡ (k.connection t).arriving
unfolding send
send-arriving p s t k = elim (Bool-cases (t == s)) [
  | inl u ↦ rw u (ap (λ a. (k.connection a).arriving) (sym ((==_iff t s).0 u)))
  | inr u ↦ rw u refl
]

tell-arriving :
    (c : Option TClient) (p : Packet) (t : ℕ) (k : KernelState)
    → ((tell c p k).connection t).arriving ≡ (k.connection t).arriving
unfolding tell
tell-arriving (some c) p t k = send-arriving p c.client_id t k
tell-arriving none p t k = refl

tell_both-arriving :
    (pid : ℤ) (b : Packed) (t : ℕ) (k : KernelState)
    → ((tell_both pid b k).connection t).arriving ≡ (k.connection t).arriving
unfolding tell_both tell_console
tell_both-arriving pid b t k = send-arriving _ _ t _ ∙ tell-arriving _ _ t k

received :
    (s : ℕ) (k : KernelState) (ps : List Packet) (packet : Packet) (more : List Packet)
    → (k.connection s).arriving ≡ ps
    → ps ≡ packet ∷ more
    → (k' : KernelState) × (receive s k ≡ some (packet, k'))
unfolding receive take_packet
received s k ps packet more e f = (_, ap (λ a. take_packet s a k) (e ∙ f))

announce-returns :
    (pid code : ℤ) (k : KernelState) (packet : Packet) (more : List Packet)
    → (k.connection k.memfd).arriving ≡ packet ∷ more
    → (k' : KernelState) × (announce pid code k ≡ some k')
unfolding announce buffered serial_pack serial_pack_va pack_conv store_num Quiet
announce-returns pid code k packet more e =
    let b : Packed = record { size = 2; bytes = packi16 (to_unsigned (2 ^ 32) code) } in
    let k1 = tell_both pid b k in
    let same : k1.memfd ≡ k.memfd = ap (λ (a : KernelState). a.memfd) (tell_both-Quiet pid b k) in
    let (k2, r) =
      received k1.memfd k1 _ packet more (tell_both-arriving pid b k1.memfd k)
        (ap (λ m. (k.connection m).arriving) same ∙ e) in
    (k2, rw r refl)

copied-Live :
    (p : ℕ) (pcb : Pcb) (k : KernelState) → Live statuses k → Live statuses (copied p pcb k)
copied-Live p pcb k l =
    Live-mono statuses k (copied p pcb k) refl
      (λ q c e. elim (Bool-cases (q == k.limit)) [
        | inl t ↦ (pcb, rw t refl)
        | inr t ↦ elim (Bool-cases (q == p)) [
          | inl u ↦ (pcb, rw (t, u) refl)
          | inr u ↦ (c, rw (t, u) e)
        ]
      ])
      l

-- For a program whose control block is at `p`, when each pointer in the lists is to a live control block
-- and is there once, the pointer that is allocated next is in no list, and the memory answers:
-- end_program ends, and no live control block of the program is left in a list but the last of those
-- that ended, which has the exit code.
pub end_program-Ended :
    (p : ℕ) (pcb : Pcb) (code : ℤ) (k : KernelState) (packet : Packet) (more : List Packet)
    → k.pcb_at p ≡ some pcb
    → Live statuses k
    → ((st : Status) → listed k.limit (k.queue st) ≡ false)
    → (k.connection k.memfd).arriving ≡ packet ∷ more
    → (k' : KernelState) × (end_program p code k ≡ some k') × Ended pcb code k'
unfolding end_program pcb_remove Wired
end_program-Ended p pcb code k packet more e live fresh answers =
    let pcb' = record pcb { exit_code = code } in
    let k1 = copied p pcb' k in
    let (k2, r, (wires, mem)) =
      remove_all-returns (pcb_equals pcb') statuses k1 (copied-Live p pcb' k live) in
    let k3 = append_queue exit k.limit k2 in
    let there : (k3.connection k3.memfd).arriving ≡ packet ∷ more =
      ap (λ m. (k2.connection m).arriving) mem
      ∙ ap (λ (c : ℕ → Connection). (c k.memfd).arriving) wires
      ∙ answers in
    let (k4, a) = announce-returns pcb.id_process code k3 packet more there in
    let whole : end_program p code k ≡ some k4 = rw (e, r) a in
    (k4, whole, end_program-result p pcb code k k4 e fresh whole)
