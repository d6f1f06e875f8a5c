-- ===== src/Kernel/Terminal/Ends.antt =====
-- `kill` of Kernel/src/console.c: when its loop ends, and what it has done then.
use esthe_r.Base.{
  ℕ, suc, ◌≡◌, refl, ap, ◌∙◌, Bool, true, false, ◌||◌, some, List, ◌++◌, subst, arith,
}
use esthe_r.Base.Int.{ℤ}
use esthe_r.Kernel.{KernelState, new, ready, block}
use esthe_r.Kernel.Terminal.{kill_round, kill_loop}
use esthe_r.Kernel.Terminal.Kill.{
  id_is, has_pid, AllLive, AllLive-mono, has_pid-same, first_of, without_first, first_of-same,
  without_first-same,
}
use esthe_r.Kernel.Terminal.Killing.{
  Killed, Killed-trans, Tried, at_new, at_block, at_ready, kill_from-Tried,
}

-- Whether the program is in one of the three lists that kill looks at.
abbrev pub waits : ℤ → KernelState → Bool
waits pid k =
    has_pid pid (k.queue new) k.pcb_at
    || (has_pid pid (k.queue block) k.pcb_at || has_pid pid (k.queue ready) k.pcb_at)

-- The first control block of the program in each of the three.
abbrev pub moved_of : ℤ → KernelState → List ℕ
moved_of pid k =
    first_of pid (k.queue new) k.pcb_at
    ++ (first_of pid (k.queue block) k.pcb_at ++ first_of pid (k.queue ready) k.pcb_at)

-- They are taken out of the three lists and put behind those that ended, and nothing else is changed.
pub record Moved (pid : ℤ) (k k' : KernelState) : Type 0 where
  pub killed : Killed (moved_of pid k) k k'
  pub new_left : k'.queue new ≡ without_first pid (k.queue new) k.pcb_at
  pub block_left : k'.queue block ≡ without_first pid (k.queue block) k.pcb_at
  pub ready_left : k'.queue ready ≡ without_first pid (k.queue ready) k.pcb_at

module _ (pid : ℤ) (k k1 k2 k3 : KernelState) (t1 : Tried pid new k k1) (t2 : Tried pid block k1 k2)
    (t3 : Tried pid ready k2 k3) where
  block_kept : k1.queue block ≡ k.queue block
  block_kept = t1.others block refl refl

  ready_kept : k2.queue ready ≡ k.queue ready
  ready_kept = t2.others ready refl refl ∙ t1.others ready refl refl

  same_ids : (q : ℕ) → id_is pid (k2.pcb_at q) ≡ id_is pid (k.pcb_at q)
  same_ids q = t2.same_ids q ∙ t1.same_ids q

  tried-Moved : Moved pid k k3
  tried-Moved =
      let b =
        ap (λ l. first_of pid l k1.pcb_at) block_kept
        ∙ first_of-same pid k.pcb_at k1.pcb_at t1.same_ids (k.queue block) in
      let r =
        ap (λ l. first_of pid l k2.pcb_at) ready_kept
        ∙ first_of-same pid k.pcb_at k2.pcb_at same_ids (k.queue ready) in
      let whole =
        Killed-trans _ _ k k1 k3 t1.killed (Killed-trans _ _ k1 k2 k3 t2.killed t3.killed) in
      record {
        killed =
            subst (λ l. Killed (first_of pid (k.queue new) k.pcb_at ++ l) k k3)
              (ap (λ l. l ++ first_of pid (k2.queue ready) k2.pcb_at) b
                ∙ ap (λ l. first_of pid (k.queue block) k.pcb_at ++ l) r)
              whole;
        new_left = t3.others new refl refl ∙ t2.others new refl refl ∙ t1.left;
        block_left =
            t3.others block refl refl
            ∙ t2.left
            ∙ ap (λ l. without_first pid l k1.pcb_at) block_kept
            ∙ without_first-same pid k.pcb_at k1.pcb_at t1.same_ids (k.queue block);
        ready_left =
            t3.left
            ∙ ap (λ l. without_first pid l k2.pcb_at) ready_kept
            ∙ without_first-same pid k.pcb_at k2.pcb_at same_ids (k.queue ready);
      }

kill_round-Moved :
    (pid : ℤ) (k : KernelState)
    → AllLive (k.queue new) k.pcb_at
    → AllLive (k.queue block) k.pcb_at
    → AllLive (k.queue ready) k.pcb_at
    → (k' : KernelState) × (kill_round pid k ≡ some (waits pid k, k'))
      × Moved pid k k'
      × (waits pid k ≡ false → k' ≡ k)
unfolding kill_round
kill_round-Moved pid k a b c =
    let (k1, e1, t1) = kill_from-Tried pid new k at_new a in
    let q1 : k1.queue block ≡ k.queue block = t1.others block refl refl in
    let b1 : AllLive (k1.queue block) k1.pcb_at =
      rw q1 (AllLive-mono (k.queue block) k.pcb_at k1.pcb_at t1.live b) in
    let (k2, e2, t2) = kill_from-Tried pid block k1 at_block b1 in
    let q2 : k2.queue ready ≡ k.queue ready =
      t2.others ready refl refl ∙ t1.others ready refl refl in
    let c2 : AllLive (k2.queue ready) k2.pcb_at = rw q2 (
      AllLive-mono (k.queue ready) k.pcb_at k2.pcb_at
        (λ q d f. let (d1, f1) = t1.live q d f in t2.live q d1 f1) c) in
    let (k3, e3, t3) = kill_from-Tried pid ready k2 at_ready c2 in
    let m1 : has_pid pid (k1.queue block) k1.pcb_at ≡ has_pid pid (k.queue block) k.pcb_at =
      rw q1 (has_pid-same pid (k.queue block) k.pcb_at k1.pcb_at t1.same_ids) in
    let m2 : has_pid pid (k2.queue ready) k2.pcb_at ≡ has_pid pid (k.queue ready) k.pcb_at =
      rw q2 (
        has_pid-same pid (k.queue ready) k.pcb_at k2.pcb_at (λ q. t2.same_ids q ∙ t1.same_ids q)) in
    (
      k3,
      rw (e1, e2, e3, m1, m2) refl,
      tried-Moved pid k k1 k2 k3 t1 t2 t3,
      (λ w.
          let f : has_pid pid (k.queue new) k.pcb_at ≡ false = ground (arith, w) in
          let g : has_pid pid (k1.queue block) k1.pcb_at ≡ false = m1 ∙ ground (arith, w) in
          let h : has_pid pid (k2.queue ready) k2.pcb_at ≡ false = m2 ∙ ground (arith, w) in
          t3.idle h ∙ t2.idle g ∙ t1.idle f),
    )

-- When the lists of new, blocked and ready programs have live control blocks: `kill` of a program that
-- is in one of them ends in its first round; the first control block of the program in each of the three
-- is then taken out of it and put behind those that ended, with the status and the exit code of a
-- program that was killed, and nothing else is changed. For a program that is in none of them the round
-- changes nothing, and the loop goes on with what the server makes of that state.
pub kill_loop-Killed :
    (pid : ℤ) (k : KernelState) (others : ℕ → KernelState → KernelState)
    → AllLive (k.queue new) k.pcb_at
    → AllLive (k.queue block) k.pcb_at
    → AllLive (k.queue ready) k.pcb_at
    → (waits pid k ≡ true
        → (rounds : ℕ)
        → (k' : KernelState) × (kill_loop (suc rounds) others pid k ≡ some (some k'))
          × Moved pid k k')
      × (waits pid k ≡ false
          → (rounds : ℕ)
          → kill_loop (suc rounds) others pid k ≡ kill_loop rounds others pid (others rounds k))
unfolding kill_loop
kill_loop-Killed pid k others a b c =
    let (k', e, t, idle) = kill_round-Moved pid k a b c in
    ((λ w rounds. (k', rw (e, w) refl, t)), (λ w rounds. let f = idle w in rw (e, w, f) refl))
