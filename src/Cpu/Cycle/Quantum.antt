-- ===== src/Cpu/Cycle/Quantum.antt =====
-- How many instructions the loop of ejecutarPrograma in CPU/src/CPU.c runs.
use esthe_r.Base.{◌-◌, ◌<◌, zero, false, ◌∙◌}
use esthe_r.Base.{ℕ, zero, suc, ◌+◌, ◌-◌, ◌≤◌, ◌<◌, ◌≡◌, refl, ◌∙◌, ◌⊎◌, inl, inr, true, false}
use esthe_r.Base.{Option, some, List}
use esthe_r.Base.{Bool-cases, arith}
use esthe_r.Base.Int.{ℤ, pos, leb_ℤ, eq_ℤ}
use esthe_r.Commons.{CommonsList}
use esthe_r.Cpu.Cycle.{Machine, turn, keeps_running, quantum_over, ejecutar_loop, ejecutar_programa}

abbrev pub quantum_of : Machine → ℤ
quantum_of m = m.state.pcb_actual.quantum

module _ (lib : CommonsList) (string_substring : List ℕ → ℕ → ℤ → List ℕ)
    (analizador_linea : Option (List ℕ) → Machine → Option Machine) (tamanio_pagina : ℕ) where
  -- So many turns, after each of which the run goes on, with the same quantum before each.
  pub data Turns (q : ℕ) : ℕ → Machine → Machine → Type 0 where
    no_turn : {m : Machine} → quantum_of m ≡ pos q → Turns q 0 m m
    one_more :
        {n : ℕ} {m m' m'' : Machine}
        → quantum_of m ≡ pos q
        → turn lib string_substring analizador_linea tamanio_pagina m ≡ some (true, m')
        → Turns q n m' m''
        → Turns q (suc n) m m''

  runs_on :
      (q i : ℕ) (m : Machine)
      → quantum_of m ≡ pos q
      → (i ≤ q) ⊎ (q ≡ 0)
      → keeps_running lib string_substring analizador_linea tamanio_pagina i m ≡ true
  unfolding keeps_running
  runs_on q i m e (inl h) = let t : leb_ℤ (pos i) (pos q) ≡ true = ground arith in rw (e, t) refl
  runs_on q i m e (inr z) = elim (Bool-cases (leb_ℤ (pos i) (pos q))) [
    | inl t ↦ rw (e, t) refl
    | inr t ↦ let u : eq_ℤ (pos q) (pos 0) ≡ true = ground (arith, z) in rw (e, t, u) refl
  ]

  loop-Turns :
      (q n fuel i : ℕ) (m m' : Machine)
      → Turns q n m m'
      → (i + n ≤ suc q) ⊎ (q ≡ 0)
      → ejecutar_loop lib string_substring analizador_linea tamanio_pagina (n + fuel) i m
        ≡ ejecutar_loop lib string_substring analizador_linea tamanio_pagina fuel (i + n) m'
  unfolding ejecutar_loop
  loop-Turns q zero fuel i m _ (no_turn e) h =
      let a : 0 + fuel ≡ fuel = omega arith in let b : i + 0 ≡ i = omega arith in rw (a, b) refl
  loop-Turns q (suc n) fuel i m m' (one_more {m' = m1} e t rest) h =
      let a : suc n + fuel ≡ suc (n + fuel) = omega arith in
      let b : i + suc n ≡ suc i + n = omega arith in
      let now : (i ≤ q) ⊎ (q ≡ 0) = elim h [ inl l ↦ inl (omega arith) | inr z ↦ inr z ] in
      let later : (suc i + n ≤ suc q) ⊎ (q ≡ 0) = elim h [
        | inl l ↦ inl (omega arith)
        | inr z ↦ inr z
      ] in
      rw (a, b, runs_on q i m e now, t) (loop-Turns q n fuel (suc i) m1 m' rest later)

  -- For a positive quantum of q, q turns of a run that is not blocked before, after each of which
  -- it goes on, and fuel for one round more: ejecutarPrograma runs exactly these q instructions,
  -- and then does what follows the end of a quantum.
  pub ejecutar_programa-quantum :
      (q fuel : ℕ) (m m' : Machine)
      → 0 < q
      → Turns q q (record m { proceso_bloqueado = false }) m'
      → quantum_of m' ≡ pos q
      → q < fuel
      → ejecutar_programa lib string_substring analizador_linea tamanio_pagina fuel m
        ≡ quantum_over lib string_substring analizador_linea tamanio_pagina m'
  unfolding ejecutar_programa ejecutar_loop keeps_running
  ejecutar_programa-quantum q fuel m m' some_turn turns e enough =
      let f : fuel ≡ q + suc (fuel - q - 1) = omega arith in
      let t : leb_ℤ (pos (1 + q)) (pos q) ≡ false = ground arith in
      let u : eq_ℤ (pos q) (pos 0) ≡ false = ground arith in
      rw f (
        loop-Turns q q (suc (fuel - q - 1)) 1 (record m { proceso_bloqueado = false }) m' turns
          (inl (omega arith))
        ∙ (rw (e, t, u) refl))

  -- For a quantum of 0, which stands for first come first served, or turns fewer than the quantum,
  -- and then a turn that ends the run: ejecutarPrograma stops there, with fuel for that many rounds.
  pub ejecutar_programa-ends :
      (q n fuel : ℕ) (m m' m'' : Machine)
      → Turns q n (record m { proceso_bloqueado = false }) m'
      → quantum_of m' ≡ pos q
      → turn lib string_substring analizador_linea tamanio_pagina m' ≡ some (false, m'')
      → (n < q) ⊎ (q ≡ 0)
      → n < fuel
      → ejecutar_programa lib string_substring analizador_linea tamanio_pagina fuel m ≡ some m''
  unfolding ejecutar_programa ejecutar_loop
  ejecutar_programa-ends q n fuel m m' m'' turns e last h enough =
      let f : fuel ≡ n + suc (fuel - n - 1) = omega arith in
      let before : (1 + n ≤ suc q) ⊎ (q ≡ 0) = elim h [
        | inl l ↦ inl (omega arith)
        | inr z ↦ inr z
      ] in
      let now : (1 + n ≤ q) ⊎ (q ≡ 0) = elim h [ inl l ↦ inl (omega arith) | inr z ↦ inr z ] in
      rw f (
        loop-Turns q n (suc (fuel - n - 1)) 1 (record m { proceso_bloqueado = false }) m' turns
          before
        ∙ (rw (runs_on q (1 + n) m' e now, last) refl))
