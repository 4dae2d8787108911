-- ===== src/Kernel/Planificador/Colas.antt =====
-- The moves to and from the ready and exit queues, in soporte/ConexionConCPU.c and
-- plp/PlanificadorPLP.c.
use tp_sistemas_operativos_u.Base.{
  ℕ, suc, ◌-◌, ◌≡◌, ◌<◌, refl, ap, ◌∙◌, true, ltb, some, List, [], ◌∷◌, ◌++◌, length, length-append,
  arith, inl, inr, Bool-cases, ltb→lt,
}
use tp_sistemas_operativos_u.Commons.{ListLib}
use tp_sistemas_operativos_u.Kernel.{Kernel, Prog}
use tp_sistemas_operativos_u.Kernel.Planificador.{
  al_final_de_ready, sacar_de_ready, poner_en_ready_programas, terminar_programa,
}
use tp_sistemas_operativos_u.Kernel.Planificador.Invariante.{IsKernel, al_final_de_ready-IsKernel}

module _ (lib : (A : Type 0) → ListLib A) where
  -- Under the invariant of the queues a CPU's thread that `productorConsumidor` lets through finds a
  -- program that is ready; it goes to the end of the execution list, the exit queue and its semaphore
  -- do not change, and the invariant is kept.
  pub sacar_de_ready-IsKernel :
      (n : ℕ) (k : Kernel)
      → IsKernel n k
      → 0 < k.productor_consumidor
      → (r : Kernel × ℕ) × (sacar_de_ready lib k ≡ some r)
        × (r.0.lista_exec ≡ k.lista_exec ++ r.1 ∷ [])
        × (r.0.exit_procesos ≡ k.exit_procesos)
        × (r.0.semaforo_exit ≡ k.semaforo_exit)
        × IsKernel n r.0
  unfolding sacar_de_ready
  sacar_de_ready-IsKernel n k i pos = sale k.lista_ready refl
    where
      sale :
          (ps : List ℕ)
          → k.lista_ready ≡ ps
          → (r : Kernel × ℕ) × (sacar_de_ready lib k ≡ some r)
            × (r.0.lista_exec ≡ k.lista_exec ++ r.1 ∷ [])
            × (r.0.exit_procesos ≡ k.exit_procesos)
            × (r.0.semaforo_exit ≡ k.semaforo_exit)
            × IsKernel n r.0
      sale [] e =
          let l : length k.lista_ready ≡ 0 = ap length e in absurd (omega (arith, l, i.listos, pos))
      sale (p ∷ ps) e =
          let q : (lib ℕ).list_remove 0 k.lista_ready ≡ (some p, ps) =
            ap ((lib ℕ).list_remove 0) e ∙ (lib ℕ).list_remove-zero (p ∷ ps) in
          let l : length k.lista_ready ≡ suc (length ps) = ap length e in
          let a = length-append k.lista_exec (p ∷ []) in
          let hay : ltb 0 k.productor_consumidor ≡ true = ground (arith, pos) in
          (
            (
              record k {
                lista_ready = ps;
                lista_exec = k.lista_exec ++ p ∷ [];
                productor_consumidor = k.productor_consumidor - 1;
              },
              p,
            ),
            rw (sacar_de_ready, hay, q, (lib ℕ).list_add_lem k.lista_exec p) refl,
            refl,
            refl,
            refl,
            record {
              listos = omega (arith, l, i.listos);
              salidas = i.salidas;
              semaforos = i.semaforos;
              dispositivos = i.dispositivos;
              nivel = omega (arith, l, a, i.nivel);
            },
          )

  -- Where some program is new, `ponerEnReadyProgramas` has a result, whether or not a place is left, and
  -- keeps the invariant of the queues.
  pub poner_en_ready_programas-IsKernel :
      (n : ℕ) (k : Kernel)
      → IsKernel n k
      → 0 < length k.new_procesos
      → (k' : Kernel) × (poner_en_ready_programas lib k ≡ some k') × IsKernel n k'
  unfolding poner_en_ready_programas
  poner_en_ready_programas-IsKernel n k i pos = entra k.new_procesos refl
    where
      entra :
          (ps : List Prog)
          → k.new_procesos ≡ ps
          → (k' : Kernel) × (poner_en_ready_programas lib k ≡ some k') × IsKernel n k'
      entra [] e = let l : length k.new_procesos ≡ 0 = ap length e in absurd (omega (arith, l, pos))
      entra (p ∷ ps) e =
          let q : (lib Prog).list_remove 0 k.new_procesos ≡ (some p, ps) =
            ap ((lib Prog).list_remove 0) e ∙ (lib Prog).list_remove-zero (p ∷ ps) in
          let k1 = record k {
            estado_multiprogramacion = k.estado_multiprogramacion - 1;
            new_procesos = ps;
          } in
          elim (Bool-cases (ltb 0 k.estado_multiprogramacion)) [
            | inr lleno ↦ (k, rw (poner_en_ready_programas, lleno) refl, i)
            | inl libre ↦ (
              al_final_de_ready lib k1 p.programa,
              rw (poner_en_ready_programas, libre, q) refl,
              al_final_de_ready-IsKernel lib n k1 p.programa i.listos i.salidas i.semaforos
                  i.dispositivos (omega (arith, ltb→lt _ _ libre, i.nivel)),
            )
          ]

  -- Under the invariant of the queues the thread that ends programs, once its semaphore lets it
  -- through, takes the first program of the exit queue, and the invariant is kept.
  pub terminar_programa-IsKernel :
      (n : ℕ) (k : Kernel)
      → IsKernel n k
      → 0 < k.semaforo_exit
      → (r : Kernel × ℕ) × (terminar_programa lib k ≡ some r)
        × (k.exit_procesos ≡ r.1 ∷ r.0.exit_procesos)
        × IsKernel n r.0
  unfolding terminar_programa
  terminar_programa-IsKernel n k i pos = sale k.exit_procesos refl
    where
      sale :
          (ps : List ℕ)
          → k.exit_procesos ≡ ps
          → (r : Kernel × ℕ) × (terminar_programa lib k ≡ some r)
            × (k.exit_procesos ≡ r.1 ∷ r.0.exit_procesos)
            × IsKernel n r.0
      sale [] e =
          let l : length k.exit_procesos ≡ 0 = ap length e in
          absurd (omega (arith, l, i.salidas, pos))
      sale (p ∷ ps) e =
          let q : (lib ℕ).list_remove 0 k.exit_procesos ≡ (some p, ps) =
            ap ((lib ℕ).list_remove 0) e ∙ (lib ℕ).list_remove-zero (p ∷ ps) in
          let l : length k.exit_procesos ≡ suc (length ps) = ap length e in
          let hay : ltb 0 k.semaforo_exit ≡ true = ground (arith, pos) in
          (
            (record k { exit_procesos = ps; semaforo_exit = k.semaforo_exit - 1 }, p),
            rw (terminar_programa, hay, q) refl,
            e,
            record {
              listos = i.listos;
              salidas = omega (arith, l, i.salidas);
              semaforos = i.semaforos;
              dispositivos = i.dispositivos;
              nivel = i.nivel;
            },
          )
