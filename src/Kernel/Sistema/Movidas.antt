-- ===== src/Kernel/Sistema/Movidas.antt =====
-- What `fnLock` and `fnUnlock` of pcp/PlanificadorPCP_th.c do to the addresses in the queues.
use tp_sistemas_operativos_u.Base.{
  ℕ, ◌+◌, ◌≡◌, refl, sym, ap, ◌∙◌, ◌&&◌, ltb, Option, none, some, List, length, find, erase_first,
  arith, Bool-cases, Option-cases, some_inj, inl, inr, Bytes,
}
use mathlib.Core.Path.{subst}
use mathlib.Core.Option.{none-ne-some}
use tp_sistemas_operativos_u.Commons.{ListLib}
use tp_sistemas_operativos_u.Protocolo.{MsjWait, MensajeKernel, continuar, bloquear}
use tp_sistemas_operativos_u.Kernel.{
  Kernel, Semaforo, suc_int, pred_int, es_negativo, no_es_positivo,
}
use tp_sistemas_operativos_u.Kernel.Planificador.{
  mismo_texto, busca_prog, con_pcb, con_semaforo, al_final_de_ready, fn_lock, fn_unlock,
}
use tp_sistemas_operativos_u.Kernel.Sistema.Sumas.{
  uno, suma, suma-erase_first, suma-cambiar_primero, suma-cambiar_igual,
}
use tp_sistemas_operativos_u.Kernel.Sistema.Cuenta.{
  SeEncuentra, quita_primero, Conserva-refl, con_pcb-Conserva, Conserva-Mueve, Conserva,
  en_semaforo, en_ejecucion, en_colas, pid_de, Mueve, Mueve-trans, sale-otros, list_add-uno_mas,
  al_final_de_ready-en_colas,
}

-- A semaphore whose queue changes, where as many leave another queue: what is left to say of `p`.
con_semaforo-en_colas :
    (k : Kernel) (nombre : Bytes) (f : Semaforo → Semaforo) (s : Semaforo) (exec : List ℕ) (p : ℕ)
    → find (λ s. mismo_texto s.sz_semaforo nombre) k.list_smfrs ≡ some s
    → en_colas p (con_semaforo (record k { lista_exec = exec }) nombre f)
        + en_semaforo p s
        + en_ejecucion p k
      ≡ en_colas p k + en_semaforo p (f s) + suma (uno p) exec
unfolding con_semaforo en_colas en_ejecucion
con_semaforo-en_colas k nombre f s exec p e = omega (
  arith,
  suma-cambiar_primero (en_semaforo p) (λ s. mismo_texto s.sz_semaforo nombre) f k.list_smfrs s e,
)

module _ (lib : (A : Type 0) → ListLib A) where
  -- The program leaves the execution list for the queue of a semaphore.
  bloquea-Mueve :
      (k : Kernel) (programa : ℕ) (w : MsjWait) (s : Semaforo)
      → SeEncuentra k programa
      → w.pcb.pid ≡ pid_de k programa
      → find (λ s. mismo_texto s.sz_semaforo w.semaforo) k.list_smfrs ≡ some s
      → Mueve k programa (
          con_pcb
            (con_semaforo
              (record k {
                lista_exec = erase_first (busca_prog k (pid_de k programa)) k.lista_exec;
              })
              w.semaforo
              (λ s. record s {
                i_semaforo = pred_int s.i_semaforo;
                prog_encolados = (lib ℕ).list_add s.prog_encolados programa;
              }))
            programa
            w.pcb)
  unfolding SeEncuentra
  bloquea-Mueve k programa w s hay suyo sem =
      let exec = erase_first (busca_prog k (pid_de k programa)) k.lista_exec in
      let f : Semaforo → Semaforo = λ s. record s {
        i_semaforo = pred_int s.i_semaforo;
        prog_encolados = (lib ℕ).list_add s.prog_encolados programa;
      } in
      let k1 : Kernel = con_semaforo (record k { lista_exec = exec }) w.semaforo f in
      let m : Mueve k programa k1 = record {
        pids = λ p. unfold con_semaforo in refl;
        cuenta = λ p.
            let a = con_semaforo-en_colas k w.semaforo f s exec p sem in
            let b : en_semaforo p (f s) ≡ en_semaforo p s + uno p programa =
              unfold en_semaforo in list_add-uno_mas lib (uno p) s.prog_encolados programa in
            let c : uno p programa + suma (uno p) exec ≡ en_ejecucion p k =
              unfold en_ejecucion in suma-erase_first (uno p) _ k.lista_exec programa hay in
            omega (arith, a, b, c);
        otros = λ p o.
            unfold con_semaforo en_ejecucion in
            (sale-otros k (pid_de k programa) programa p hay o ∙ (unfold en_ejecucion in refl));
      } in
      Mueve-trans k programa k1 _ m (
        Conserva-Mueve k1 programa _
          (con_pcb-Conserva k1 programa w.pcb (unfold con_semaforo in suyo)))

  -- Only the value of the semaphore changes.
  valor-Conserva :
      (k : Kernel) (nombre : Bytes) (f : Semaforo → Semaforo)
      → ((s : Semaforo) → (f s).prog_encolados ≡ s.prog_encolados)
      → Conserva k (con_semaforo k nombre f)
  valor-Conserva k nombre f h = record {
    pids = λ p. unfold con_semaforo in refl;
    cuenta = λ p.
        let e =
          suma-cambiar_igual (en_semaforo p) (λ s. mismo_texto s.sz_semaforo nombre) f k.list_smfrs
            (λ s. unfold en_semaforo in ap (suma (uno p)) (h s)) in
        unfold con_semaforo en_colas en_ejecucion in omega (arith, e);
    ejecucion = λ p. unfold con_semaforo en_ejecucion in refl;
  }

  -- A wait, on every branch.
  pub fn_lock-Mueve :
      (k : Kernel) (programa : ℕ) (w : MsjWait)
      → SeEncuentra k programa
      → w.pcb.pid ≡ pid_de k programa
      → Mueve k programa (fn_lock lib k w programa).0
  unfolding fn_lock
  fn_lock-Mueve k programa w hay suyo =
      let q = λ (s : Semaforo). mismo_texto s.sz_semaforo w.semaforo in
      elim (Option-cases (find q k.list_smfrs)) [
        | inl nada ↦
            rw (fn_lock, (lib Semaforo).list_find_lem q k.list_smfrs, nada)
              (Conserva-Mueve k programa _ (Conserva-refl k))
        | inr (s, sem) ↦
            elim (Bool-cases (es_negativo (pred_int s.i_semaforo) && ltb 0 (length k.lista_exec))) [
              | inl si ↦
                  rw
                    (
                      fn_lock,
                      (lib Semaforo).list_find_lem q k.list_smfrs,
                      sem,
                      si,
                      (lib ℕ).list_remove_by_condition_lem (busca_prog k (pid_de k programa))
                          k.lista_exec,
                    )
                    (bloquea-Mueve k programa w s hay suyo sem)
              | inr otro ↦
                  rw (fn_lock, (lib Semaforo).list_find_lem q k.list_smfrs, sem, otro)
                    (Conserva-Mueve k programa _ (
                      valor-Conserva k w.semaforo
                        (λ s. record s { i_semaforo = pred_int s.i_semaforo }) (λ s. refl)))
            ]
      ]

  despierta_a : Semaforo → Semaforo
  despierta_a s = record s {
    i_semaforo = suc_int s.i_semaforo;
    prog_encolados = ((lib ℕ).list_remove 0 s.prog_encolados).1;
  }

  -- The first program of the queue of a semaphore goes to ready.
  despierta-Conserva :
      (k : Kernel) (nombre : Bytes) (s : Semaforo) (x : ℕ)
      → find (λ s. mismo_texto s.sz_semaforo nombre) k.list_smfrs ≡ some s
      → ((lib ℕ).list_remove 0 s.prog_encolados).0 ≡ some x
      → Conserva k (al_final_de_ready lib (con_semaforo k nombre despierta_a) x)
  unfolding despierta_a
  despierta-Conserva k nombre s x sem sale =
      let k1 : Kernel = con_semaforo k nombre despierta_a in
      record {
        pids = λ p. unfold al_final_de_ready con_semaforo in refl;
        cuenta = λ p.
            let a = al_final_de_ready-en_colas lib k1 x p in
            let b : en_colas p k1 + en_semaforo p s + en_ejecucion p k
                ≡ en_colas p k + en_semaforo p (despierta_a s) + suma (uno p) k.lista_exec =
              con_semaforo-en_colas k nombre despierta_a s k.lista_exec p sem in
            let c : uno p x + en_semaforo p (despierta_a s) ≡ en_semaforo p s =
              unfold en_semaforo in quita_primero lib (uno p) s.prog_encolados x sale in
            let d : en_ejecucion p k ≡ suma (uno p) k.lista_exec = unfold en_ejecucion in refl in
            omega (arith, a, b, c, d);
        ejecucion = λ p. unfold al_final_de_ready con_semaforo en_ejecucion in refl;
      }

  -- A signal, on every branch that has a result.
  pub fn_unlock-Conserva :
      (k : Kernel) (nombre : Bytes) (r : Kernel × Option MensajeKernel)
      → fn_unlock lib k nombre ≡ some r
      → Conserva k r.0
  unfolding fn_unlock despierta_a
  fn_unlock-Conserva k nombre r h =
      let q = λ (s : Semaforo). mismo_texto s.sz_semaforo nombre in
      let P = λ (r : Kernel × Option MensajeKernel). Conserva k r.0 in
      elim (Option-cases (find q k.list_smfrs)) [
        | inl nada ↦
            let e : fn_unlock lib k nombre ≡ some (k, none) =
              rw (fn_unlock, (lib Semaforo).list_find_lem q k.list_smfrs, nada) refl in
            subst P (some_inj (sym e ∙ h)) (Conserva-refl k)
        | inr (s, sem) ↦
            elim (Bool-cases
              (no_es_positivo (suc_int s.i_semaforo) && ltb 0 (length s.prog_encolados))) [
                | inl si ↦ elim (Option-cases ((lib ℕ).list_remove 0 s.prog_encolados).0) [
                  | inl vacia ↦
                      let e : fn_unlock lib k nombre ≡ none =
                        rw (fn_unlock, (lib Semaforo).list_find_lem q k.list_smfrs, sem, si, vacia)
                          refl in
                      absurd (none-ne-some r (sym e ∙ h))
                  | inr (x, sale) ↦
                      let e : fn_unlock lib k nombre
                          ≡ some (
                            al_final_de_ready lib (con_semaforo k nombre despierta_a) x,
                            some continuar,
                          ) =
                        rw (fn_unlock, (lib Semaforo).list_find_lem q k.list_smfrs, sem, si, sale)
                          refl in
                      subst P (some_inj (sym e ∙ h)) (despierta-Conserva k nombre s x sem sale)
                ]
                | inr otro ↦
                    let f : Semaforo → Semaforo =
                      λ s. record s { i_semaforo = suc_int s.i_semaforo } in
                    let e : fn_unlock lib k nombre
                        ≡ some (con_semaforo k nombre f, some continuar) =
                      rw (fn_unlock, (lib Semaforo).list_find_lem q k.list_smfrs, sem, otro) refl in
                    subst P (some_inj (sym e ∙ h)) (valor-Conserva k nombre f (λ s. refl))
              ]
      ]

  -- Where a wait lets the program go on, the execution list is the one before.
  pub fn_lock-continuar :
      (k : Kernel) (programa : ℕ) (w : MsjWait) (p : ℕ)
      → (fn_lock lib k w programa).1 ≡ some continuar
      → en_ejecucion p (fn_lock lib k w programa).0 ≡ en_ejecucion p k
  unfolding fn_lock
  fn_lock-continuar k programa w p h =
      let q = λ (s : Semaforo). mismo_texto s.sz_semaforo w.semaforo in
      elim (Option-cases (find q k.list_smfrs)) [
        | inl nada ↦ rw (fn_lock, (lib Semaforo).list_find_lem q k.list_smfrs, nada) refl
        | inr (s, sem) ↦
            elim (Bool-cases (es_negativo (pred_int s.i_semaforo) && ltb 0 (length k.lista_exec))) [
              | inl si ↦
                  let e : (fn_lock lib k w programa).1 ≡ some bloquear =
                    rw (fn_lock, (lib Semaforo).list_find_lem q k.list_smfrs, sem, si) refl in
                  absurd (ground (arith, sym e ∙ h))
              | inr otro ↦
                  rw (fn_lock, (lib Semaforo).list_find_lem q k.list_smfrs, sem, otro)
                    ((valor-Conserva k w.semaforo
                        (λ s. record s { i_semaforo = pred_int s.i_semaforo })
                        (λ s. refl)).ejecucion
                      p)
            ]
      ]
