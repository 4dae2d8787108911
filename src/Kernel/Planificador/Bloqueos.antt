-- ===== src/Kernel/Planificador/Bloqueos.antt =====
-- `fnLock` of pcp/PlanificadorPCP_th.c and the queues.
use tp_sistemas_operativos_u.Base.{
  ◌⊎◌, ℕ, zero, suc, ◌+◌, ◌≡◌, refl, ap, ◌∙◌, inl, inr, true, false, ltb, none, some, List, [], ◌∷◌,
  Bytes, length, length-append, find, erase_first, arith, Bool-cases, Option-cases,
}
use tp_sistemas_operativos_u.Commons.{ListLib}
use tp_sistemas_operativos_u.Protocolo.{MsjWait}
use tp_sistemas_operativos_u.Kernel.{
  Kernel, Semaforo, ℤ, pos, negsuc, suc_int, pred_int, es_negativo, no_es_positivo,
}
use tp_sistemas_operativos_u.Kernel.Planificador.{mismo_texto, busca_prog, con_semaforo, fn_lock}
use tp_sistemas_operativos_u.Kernel.Planificador.Cuentas.{
  deuda, EstaSaldado, length-erase_first, cambiar_primero-All, find-All, cambiar-en_semaforos,
}
use tp_sistemas_operativos_u.Kernel.Planificador.Invariante.{
  IsKernel, EnEjecucion, con_pcb-IsKernel,
}

-- What a wait and a signal do to the debt.
deuda-pred : (i : ℤ) → es_negativo (pred_int i) ≡ true → deuda (pred_int i) ≡ suc (deuda i)
unfolding deuda pred_int es_negativo
deuda-pred (pos zero) h = refl
deuda-pred (pos (suc n)) h = absurd (ground arith)
deuda-pred (negsuc n) h = refl

deuda-pred_alta : (i : ℤ) → es_negativo (pred_int i) ≡ false → deuda (pred_int i) ≡ deuda i
unfolding deuda pred_int es_negativo
deuda-pred_alta (pos zero) h = absurd (ground arith)
deuda-pred_alta (pos (suc n)) h = refl
deuda-pred_alta (negsuc n) h = absurd (ground arith)

pub deuda-suc :
    (i : ℤ) → deuda i ≡ suc (deuda (suc_int i)) ⊎ (deuda i ≡ 0) × (deuda (suc_int i) ≡ 0)
unfolding deuda suc_int
deuda-suc (pos n) = inr (refl, refl)
deuda-suc (negsuc zero) = inl refl
deuda-suc (negsuc (suc n)) = inl refl

-- A debt is left to pay exactly where the test of a signal holds and somebody waits.
pub deuda-no_es_positivo : (i : ℤ) (m : ℕ) → deuda i ≡ suc m → no_es_positivo (suc_int i) ≡ true
unfolding deuda suc_int no_es_positivo
deuda-no_es_positivo (pos n) m h = absurd (ground arith)
deuda-no_es_positivo (negsuc zero) m h = refl
deuda-no_es_positivo (negsuc (suc n)) m h = refl

module _ (lib : (A : Type 0) → ListLib A) where
  -- A change to the semaphore that was found, which moves as many programs into its queue as leave
  -- the other ones.
  pub con_semaforo-IsKernel :
      (n : ℕ) (k : Kernel) (nombre : Bytes) (f : Semaforo → Semaforo) (s : Semaforo) (exec : List ℕ)
      → find (λ s. mismo_texto s.sz_semaforo nombre) k.list_smfrs ≡ some s
      → EstaSaldado (f s)
      → length exec + length (f s).prog_encolados ≡ length k.lista_exec + length s.prog_encolados
      → IsKernel n k
      → IsKernel n (con_semaforo (record k { lista_exec = exec }) nombre f)
  unfolding con_semaforo
  con_semaforo-IsKernel n k nombre f s exec e b l i = record {
    listos = i.listos;
    salidas = i.salidas;
    semaforos = cambiar_primero-All EstaSaldado _ f k.list_smfrs s e b i.semaforos;
    dispositivos = i.dispositivos;
    nivel = omega (arith, i.nivel, l, cambiar-en_semaforos _ f k.list_smfrs s e);
  }

  -- A wait by a program in execution, which blocks it, goes on or finds no semaphore, keeps the
  -- invariant of the queues: the semaphore still owes one value for each program in its queue.
  pub fn_lock-IsKernel :
      (n : ℕ) (k : Kernel) (w : MsjWait) (programa : ℕ)
      → IsKernel n k
      → EnEjecucion k (k.programas programa).pcb.pid
      → IsKernel n (fn_lock lib k w programa).0
  unfolding fn_lock EnEjecucion
  fn_lock-IsKernel n k w programa i h =
      let q = λ (s : Semaforo). mismo_texto s.sz_semaforo w.semaforo in
      let p = busca_prog k (k.programas programa).pcb.pid in
      let l = length-erase_first p k.lista_exec h in
      elim (Option-cases (find q k.list_smfrs)) [
        | inl nada ↦ rw (fn_lock, (lib Semaforo).list_find_lem q k.list_smfrs, nada) i
        | inr (s, hay) ↦
            let b = find-All EstaSaldado q k.list_smfrs s hay i.semaforos in
            elim (Bool-cases (es_negativo (pred_int s.i_semaforo))) [
              | inl neg ↦
                  let lleno : ltb 0 (length k.lista_exec) ≡ true = ground (arith, l) in
                  let a =
                    ap length ((lib ℕ).list_add_lem s.prog_encolados programa)
                    ∙ length-append s.prog_encolados (programa ∷ []) in
                  let d = deuda-pred s.i_semaforo neg in
                  let f = λ (s : Semaforo). record s {
                    i_semaforo = pred_int s.i_semaforo;
                    prog_encolados = (lib ℕ).list_add s.prog_encolados programa;
                  } in
                  rw
                    (
                      fn_lock,
                      (lib Semaforo).list_find_lem q k.list_smfrs,
                      hay,
                      neg,
                      lleno,
                      (lib ℕ).list_remove_by_condition_lem p k.lista_exec,
                    )
                    (con_pcb-IsKernel n _ programa w.pcb (
                      con_semaforo-IsKernel n k w.semaforo f s (erase_first p k.lista_exec) hay
                        (unfold EstaSaldado in omega (arith, d, a, b)) (omega (arith, l, a)) i))
              | inr alta ↦
                  let d = deuda-pred_alta s.i_semaforo alta in
                  let f = λ (s : Semaforo). record s { i_semaforo = pred_int s.i_semaforo } in
                  rw (fn_lock, (lib Semaforo).list_find_lem q k.list_smfrs, hay, alta)
                    (con_semaforo-IsKernel n k w.semaforo f s k.lista_exec hay
                      (unfold EstaSaldado in omega (arith, d, b)) refl i)
            ]
      ]

  -- An unknown semaphore changes nothing, and is answered by "exit".
  pub fn_lock-none :
      (k : Kernel) (w : MsjWait) (programa : ℕ)
      → find (λ s. mismo_texto s.sz_semaforo w.semaforo) k.list_smfrs ≡ none
      → fn_lock lib k w programa ≡ (k, none)
  unfolding fn_lock
  fn_lock-none k w programa nada =
      rw
        (
          fn_lock,
          (lib Semaforo).list_find_lem (λ s. mismo_texto s.sz_semaforo w.semaforo) k.list_smfrs,
          nada,
        )
        refl
