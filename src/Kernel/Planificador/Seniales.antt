-- ===== src/Kernel/Planificador/Seniales.antt =====
-- `fnUnlock` of pcp/PlanificadorPCP_th.c and the queues.
use tp_sistemas_operativos_u.Base.{
  ◌⊎◌, if◌then◌else◌, ℕ, suc, ◌≡◌, refl, ap, ◌∙◌, inl, inr, true, false, ◌&&◌, ltb, ◌>>=◌, Option,
  none, some, List, [], ◌∷◌, Bytes, length, find, arith, Option-cases,
}
use tp_sistemas_operativos_u.Commons.{ListLib}
use tp_sistemas_operativos_u.Protocolo.{MensajeKernel, continuar}
use tp_sistemas_operativos_u.Kernel.{Kernel, Semaforo, suc_int, no_es_positivo}
use tp_sistemas_operativos_u.Kernel.Planificador.{
  mismo_texto, al_final_de_ready, con_semaforo, fn_unlock,
}
use tp_sistemas_operativos_u.Kernel.Planificador.Cuentas.{
  deuda, EstaSaldado, cambiar_primero-All, find-All, cambiar-en_semaforos,
}
use tp_sistemas_operativos_u.Kernel.Planificador.Invariante.{IsKernel, al_final_de_ready-IsKernel}
use tp_sistemas_operativos_u.Kernel.Planificador.Bloqueos.{
  deuda-suc, deuda-no_es_positivo, con_semaforo-IsKernel,
}

module _ (lib : (A : Type 0) → ListLib A) where
  -- A program that has left a queue is ready.
  despertar :
      (n : ℕ) (k : Kernel) (nombre : Bytes) (f : Semaforo → Semaforo) (s : Semaforo) (programa : ℕ)
      → find (λ s. mismo_texto s.sz_semaforo nombre) k.list_smfrs ≡ some s
      → EstaSaldado (f s)
      → suc (length (f s).prog_encolados) ≡ length s.prog_encolados
      → IsKernel n k
      → IsKernel n (al_final_de_ready lib (con_semaforo k nombre f) programa)
  unfolding con_semaforo
  despertar n k nombre f s programa e b l i =
      al_final_de_ready-IsKernel lib n (con_semaforo k nombre f) programa i.listos i.salidas
        (cambiar_primero-All EstaSaldado _ f k.list_smfrs s e b i.semaforos) i.dispositivos
        (omega (arith, i.nivel, l, cambiar-en_semaforos _ f k.list_smfrs s e))

  -- A signal always has a result, whether it wakes a program, finds nobody waiting or no semaphore, and
  -- keeps the invariant of the queues.
  pub fn_unlock-IsKernel :
      (n : ℕ) (k : Kernel) (nombre : Bytes)
      → IsKernel n k
      → (r : Kernel × Option MensajeKernel) × (fn_unlock lib k nombre ≡ some r) × IsKernel n r.0
  unfolding fn_unlock
  fn_unlock-IsKernel n k nombre i =
      let q = λ (s : Semaforo). mismo_texto s.sz_semaforo nombre in
      elim (Option-cases (find q k.list_smfrs)) [
        | inl nada ↦
            ((k, none), rw (fn_unlock, (lib Semaforo).list_find_lem q k.list_smfrs, nada) refl, i)
        | inr (s, hay) ↦
            let v =
              senial s (deuda-suc s.i_semaforo) s.prog_encolados refl hay
                (find-All EstaSaldado q k.list_smfrs s hay i.semaforos) in
            (v.0, rw (fn_unlock, (lib Semaforo).list_find_lem q k.list_smfrs, hay) v.1, v.2)
      ]
    where
      despierta : Semaforo → Semaforo
      despierta s = record s {
        i_semaforo = suc_int s.i_semaforo;
        prog_encolados = ((lib ℕ).list_remove 0 s.prog_encolados).1;
      }

      sube : Semaforo → Semaforo
      sube s = record s { i_semaforo = suc_int s.i_semaforo }

      senial :
          (s : Semaforo)
          → deuda s.i_semaforo ≡ suc (deuda (suc_int s.i_semaforo))
            ⊎ (deuda s.i_semaforo ≡ 0) × (deuda (suc_int s.i_semaforo) ≡ 0)
          → (ps : List ℕ) → s.prog_encolados ≡ ps
          → find (λ s. mismo_texto s.sz_semaforo nombre) k.list_smfrs ≡ some s
          → EstaSaldado s
          → (r : Kernel × Option MensajeKernel) × ((if no_es_positivo (suc_int s.i_semaforo)
                  && ltb 0 (length s.prog_encolados)
                then (((lib ℕ).list_remove 0 s.prog_encolados).0 >>= λ programa. some (
                  al_final_de_ready lib (con_semaforo k nombre despierta) programa,
                  some continuar,
                ))
                else some (con_semaforo k nombre sube, some continuar))
              ≡ some r)
            × IsKernel n r.0
      senial s d [] e hay b =
          let l : length s.prog_encolados ≡ 0 = ap length e in
          let cero : deuda s.i_semaforo ≡ length s.prog_encolados = unfold EstaSaldado in b in
          let c : (no_es_positivo (suc_int s.i_semaforo) && ltb 0 (length s.prog_encolados))
              ≡ false =
            ground (arith, l) in
          (
            (con_semaforo k nombre sube, some continuar),
            rw c refl,
            con_semaforo-IsKernel lib n k nombre sube s k.lista_exec hay
                (unfold EstaSaldado in ground (arith, l, cero, d)) refl i,
          )
      senial s d (p ∷ ps) e hay b =
          let l : length s.prog_encolados ≡ suc (length ps) = ap length e in
          let debe : deuda s.i_semaforo ≡ length s.prog_encolados = unfold EstaSaldado in b in
          let c : (no_es_positivo (suc_int s.i_semaforo) && ltb 0 (length s.prog_encolados))
              ≡ true =
            ground (arith, l, deuda-no_es_positivo s.i_semaforo (length ps) (debe ∙ l)) in
          let q : (lib ℕ).list_remove 0 s.prog_encolados ≡ (some p, ps) =
            ap ((lib ℕ).list_remove 0) e ∙ (lib ℕ).list_remove-zero (p ∷ ps) in
          let m : length ((lib ℕ).list_remove 0 s.prog_encolados).1 ≡ length ps =
            ap (λ (x : Option ℕ × List ℕ). length x.1) q in
          (
            (al_final_de_ready lib (con_semaforo k nombre despierta) p, some continuar),
            rw (c, ap (λ (x : Option ℕ × List ℕ). x.0) q) refl,
            despertar n k nombre despierta s p hay
                (unfold EstaSaldado in ground (arith, l, debe, d, m)) (omega (arith, m, l)) i,
          )
