-- ===== src/Kernel/Planificador/Invariante.antt =====
-- The invariant of the queues, `moverAExit` and `recargarReady` of pcp/PlanificadorPCP_th.c.
use tp_sistemas_operativos_u.Base.{
  ℕ, suc, ◌+◌, ◌≡◌, refl, ap, ◌∙◌, true, ◌==◌, some, [], ◌∷◌, ◌++◌, length, length-append,
  erase_first, any, arith, All,
}
use tp_sistemas_operativos_u.Commons.{ListLib}
use tp_sistemas_operativos_u.Protocolo.{Pcb}
use tp_sistemas_operativos_u.Kernel.{Kernel}
use tp_sistemas_operativos_u.Kernel.Planificador.{
  busca_prog, con_pcb, al_final_de_ready, mover_a_exit, recargar_ready,
}
use tp_sistemas_operativos_u.Kernel.Planificador.Cuentas.{
  en_semaforos, en_dispositivos, EstaSaldado, EstaContado, find-any, length-erase_first,
  length-insert_at,
}

-- The semaphores of the threads count their queues, a semaphore of the programs owes one value for
-- each program in its queue, and the programs that the kernel has let in, together with the places
-- that are left, are the level of multiprogramming `n`.
pub record IsKernel (n : ℕ) (k : Kernel) : Type 0 where
  pub listos : k.productor_consumidor ≡ length k.lista_ready
  pub salidas : k.semaforo_exit ≡ length k.exit_procesos
  pub semaforos : All EstaSaldado k.list_smfrs
  pub dispositivos : All EstaContado k.list_dispos
  pub nivel :
      k.estado_multiprogramacion
        + length k.lista_ready
        + length k.lista_exec
        + en_semaforos k.list_smfrs
        + en_dispositivos k.list_dispos
      ≡ n

-- Some program in execution has this number.
unfoldable pub EnEjecucion : Kernel → ℕ → Type 0
EnEjecucion k pid = any (busca_prog k pid) k.lista_exec ≡ true

pub con_pcb-IsKernel :
    (n : ℕ) (k : Kernel) (programa : ℕ) (pcb : Pcb)
    → IsKernel n k
    → IsKernel n (con_pcb k programa pcb)
unfolding con_pcb
con_pcb-IsKernel n k programa pcb i = record {
  listos = i.listos;
  salidas = i.salidas;
  semaforos = i.semaforos;
  dispositivos = i.dispositivos;
  nivel = i.nivel;
}

module _ (lib : (A : Type 0) → ListLib A) where
  -- Where some program in execution has the number of the one that ends, `moverAExit` finds one to
  -- move, and the invariant of the queues is kept.
  pub mover_a_exit-IsKernel :
      (n : ℕ) (k : Kernel) (programa : ℕ)
      → IsKernel n k
      → EnEjecucion k (k.programas programa).pcb.pid
      → (k' : Kernel) × (mover_a_exit lib k programa ≡ some k') × IsKernel n k'
  unfolding mover_a_exit EnEjecucion
  mover_a_exit-IsKernel n k programa i h =
      let pid = (k.programas programa).pcb.pid in
      let p = busca_prog k pid in
      let r = find-any p k.lista_exec h in
      let mismo : (pid == (k.programas r.0).pcb.pid) ≡ true =
        unfold busca_prog in ground (arith, r.2) in
      let l = length-erase_first p k.lista_exec h in
      (
        record k {
          lista_exec = erase_first p k.lista_exec;
          exit_procesos = k.exit_procesos ++ r.0 ∷ [];
          estado_multiprogramacion = suc k.estado_multiprogramacion;
          semaforo_exit = suc k.semaforo_exit;
          nuevo_programa_sem = suc k.nuevo_programa_sem;
        },
        rw
            (
              (lib ℕ).list_remove_by_condition_lem p k.lista_exec,
              r.1,
              mismo,
              (lib ℕ).list_add_lem k.exit_procesos r.0,
            )
            refl,
        record {
          listos = i.listos;
          salidas = ground (arith, i.salidas, length-append k.exit_procesos (r.0 ∷ []));
          semaforos = i.semaforos;
          dispositivos = i.dispositivos;
          nivel = omega (arith, i.nivel, l);
        },
      )

  -- One more program is ready, where one left another queue.
  pub al_final_de_ready-IsKernel :
      (n : ℕ) (k : Kernel) (programa : ℕ)
      → k.productor_consumidor ≡ length k.lista_ready
      → k.semaforo_exit ≡ length k.exit_procesos
      → All EstaSaldado k.list_smfrs
      → All EstaContado k.list_dispos
      → suc (
          k.estado_multiprogramacion
          + length k.lista_ready
          + length k.lista_exec
          + en_semaforos k.list_smfrs
          + en_dispositivos k.list_dispos)
        ≡ n
      → IsKernel n (al_final_de_ready lib k programa)
  unfolding al_final_de_ready
  al_final_de_ready-IsKernel n k programa a b c d e =
      let l : length ((lib ℕ).list_add_in_index (length k.lista_ready) programa k.lista_ready)
          ≡ suc (length k.lista_ready) =
        ap length ((lib ℕ).list_add_in_index_lem _ programa k.lista_ready (omega arith))
        ∙ length-insert_at programa k.lista_ready in
      record {
        listos = omega (arith, l, a);
        salidas = b;
        semaforos = c;
        dispositivos = d;
        nivel = omega (arith, l, e);
      }

  -- Where some program in execution has the number in the PCB, `recargarReady` finds one to move, and
  -- the invariant of the queues is kept.
  pub recargar_ready-IsKernel :
      (n : ℕ) (k : Kernel) (pcb : Pcb)
      → IsKernel n k
      → EnEjecucion k pcb.pid
      → (k' : Kernel) × (recargar_ready lib k pcb ≡ some k') × IsKernel n k'
  unfolding recargar_ready EnEjecucion
  recargar_ready-IsKernel n k pcb i h =
      let p = busca_prog k pcb.pid in
      let r = find-any p k.lista_exec h in
      let l = length-erase_first p k.lista_exec h in
      (
        al_final_de_ready lib
            (con_pcb (record k { lista_exec = erase_first p k.lista_exec }) r.0 pcb) r.0,
        rw ((lib ℕ).list_remove_by_condition_lem p k.lista_exec, r.1) refl,
        unfold con_pcb in
            al_final_de_ready-IsKernel n
              (con_pcb (record k { lista_exec = erase_first p k.lista_exec }) r.0 pcb) r.0 i.listos
              i.salidas i.semaforos i.dispositivos (omega (arith, i.nivel, l)),
      )
