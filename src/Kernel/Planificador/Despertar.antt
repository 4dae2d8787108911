-- ===== src/Kernel/Planificador/Despertar.antt =====
-- A wait that blocks a program, and the signals that wake it, in pcp/PlanificadorPCP_th.c.
use tp_sistemas_operativos_u.Base.{
  length-append, ℕ, zero, suc, ◌≡◌, ◌≢◌, ◌<◌, ◌>>=◌, refl, sym, ap, ◌∙◌, true, false, Option, some,
  List, [], ◌∷◌, ◌++◌, Bytes, length, append_assoc, append-nil, All, erase_first, arith,
}
use tp_sistemas_operativos_u.Commons.{ListLib}
use tp_sistemas_operativos_u.Protocolo.{MsjWait, bloquear}
use tp_sistemas_operativos_u.Kernel.{
  Programa, ℤ, pos, negsuc, Kernel, Semaforo, suc_int, pred_int, no_es_positivo, es_negativo,
}
use tp_sistemas_operativos_u.Kernel.Planificador.{busca_prog, fn_lock, fn_unlock}
use tp_sistemas_operativos_u.Kernel.Planificador.Cuentas.{EstaSaldado, deuda}
use tp_sistemas_operativos_u.Kernel.Planificador.Orden.{
  semaforo_de, fn_lock-encola, fn_unlock-despierta,
}

-- The value of a semaphore that owes `n` programs.
unfoldable pub opuesto : ℕ → ℤ
opuesto zero = pos 0
opuesto (suc n) = negsuc n

deuda-opuesto : (n : ℕ) → deuda (opuesto n) ≡ n
unfolding deuda opuesto
deuda-opuesto zero = refl
deuda-opuesto (suc n) = refl

suc_int-opuesto : (n : ℕ) → suc_int (opuesto (suc n)) ≡ opuesto n
unfolding suc_int opuesto
suc_int-opuesto zero = refl
suc_int-opuesto (suc n) = refl

-- A value of at most 0 that owes its queue, and one less.
opuesto-deuda :
    (i : ℤ) (n : ℕ) → no_es_positivo i ≡ true → deuda i ≡ n → pred_int i ≡ opuesto (suc n)
unfolding no_es_positivo deuda pred_int opuesto
opuesto-deuda (pos zero) n h e = ap negsuc e
opuesto-deuda (pos (suc m)) n h e = absurd (ground (arith, h))
opuesto-deuda (negsuc m) n h e = ap negsuc e

es_negativo-opuesto : (n : ℕ) → es_negativo (opuesto (suc n)) ≡ true
unfolding es_negativo opuesto
es_negativo-opuesto n = refl

-- The search by a number takes out the one that has it.
erase_first-entre :
    (k : Kernel) (pid : ℕ) (antes despues : List ℕ) (p : ℕ)
    → All (λ q. (k.programas q).pcb.pid ≢ pid) antes
    → (k.programas p).pcb.pid ≡ pid
    → erase_first (busca_prog k pid) (antes ++ p ∷ despues) ≡ antes ++ despues
unfolding busca_prog
erase_first-entre k pid [] despues p a e = ground (arith, e)
erase_first-entre k pid (x ∷ xs) despues p a e =
    let otro : busca_prog k pid x ≡ false = ground (arith, a.0) in
    rw otro (ap (◌∷◌ x) (erase_first-entre k pid xs despues p a.1 e))

-- The program is put where it is found in the queue of the semaphore.
length-uno_mas : (ps : List ℕ) (p : ℕ) → length (ps ++ p ∷ []) ≡ suc (length ps)
length-uno_mas [] p = refl
length-uno_mas (q ∷ ps) p = ap suc (length-uno_mas ps p)

module _ (lib : (A : Type 0) → ListLib A) where
  -- `n` signals one after the other.
  unfoldable pub senales : (n : ℕ) → Kernel → (nombre : Bytes) → Option Kernel
  senales zero k nombre = some k
  senales (suc n) k nombre = do (k', respuesta) ← fn_unlock lib k nombre; senales n k' nombre

  -- As many signals as programs are blocked wake all of them, in their order.
  senales-despiertan :
      (ps : List ℕ) (k : Kernel) (nombre : Bytes) (s : Semaforo)
      → semaforo_de k nombre ≡ some s
      → s.i_semaforo ≡ opuesto (length ps)
      → s.prog_encolados ≡ ps
      → (k' : Kernel) × (senales (length ps) k nombre ≡ some k')
        × (k'.lista_ready ≡ k.lista_ready ++ ps)
        × (semaforo_de k' nombre ≡ some (record s { i_semaforo = pos 0; prog_encolados = [] }))
        × (k'.lista_exec ≡ k.lista_exec)
        × (k'.programas ≡ k.programas)
  unfolding senales opuesto
  senales-despiertan [] k nombre s hay v e = (
    k,
    refl,
    sym (append-nil k.lista_ready),
    hay ∙ (λ j. some (record s { i_semaforo = v j; prog_encolados = e j })),
    refl,
    refl,
  )
  senales-despiertan (p ∷ ps) k nombre s hay v e =
      let b : EstaSaldado s =
        unfold EstaSaldado in (ap deuda v ∙ deuda-opuesto (suc (length ps)) ∙ sym (ap length e)) in
      let u = fn_unlock-despierta lib k nombre s p ps hay b e in
      let s' : Semaforo = record s { i_semaforo = suc_int s.i_semaforo; prog_encolados = ps } in
      let r =
        senales-despiertan ps u.0 nombre s' u.4 (ap suc_int v ∙ suc_int-opuesto (length ps)) refl in
      (
        r.0,
        rw (u.1, r.1) refl,
        r.2 ∙ ap (λ x. x ++ ps) u.2 ∙ append_assoc k.lista_ready (p ∷ []) ps,
        r.3,
        r.4 ∙ u.5,
        r.5 ∙ u.6,
      )

  -- A running program, whose number no other in front of it has, waits on a semaphore whose value is
  -- at most 0 and owes its queue: it is told to block, and leaves execution alone. As many signals as
  -- programs are then in the queue wake those that were there before it, in their order, and then the
  -- program, with the PCB of its message; after that the queue is empty and the value is 0.
  pub fn_lock-senales :
      (k : Kernel) (w : MsjWait) (programa : ℕ) (s : Semaforo) (antes despues : List ℕ)
      → semaforo_de k w.semaforo ≡ some s
      → EstaSaldado s
      → no_es_positivo s.i_semaforo ≡ true
      → k.lista_exec ≡ antes ++ programa ∷ despues
      → All (λ q. (k.programas q).pcb.pid ≢ (k.programas programa).pcb.pid) antes
      → ((fn_lock lib k w programa).1 ≡ some bloquear)
        × (k' : Kernel) × (senales
              (suc (length s.prog_encolados))
              (fn_lock lib k w programa).0
              w.semaforo
            ≡ some k')
        × (k'.lista_exec ≡ antes ++ despues)
        × (k'.lista_ready ≡ k.lista_ready ++ (s.prog_encolados ++ programa ∷ []))
        × ((k'.programas programa).pcb ≡ w.pcb)
        × (semaforo_de k' w.semaforo ≡ some (record s { i_semaforo = pos 0; prog_encolados = [] }))
  fn_lock-senales k w programa s antes despues hay b cero e a =
      let n = length s.prog_encolados in
      let menos : pred_int s.i_semaforo ≡ opuesto (suc n) =
        opuesto-deuda s.i_semaforo n cero (unfold EstaSaldado in b) in
      let neg : es_negativo (pred_int s.i_semaforo) ≡ true =
        ap es_negativo menos ∙ es_negativo-opuesto n in
      let lleno : 0 < length k.lista_exec =
        omega (arith, ap length e, length-append antes (programa ∷ despues)) in
      let f = fn_lock-encola lib k w programa s hay neg lleno in
      let l = length-uno_mas s.prog_encolados programa in
      let s' : Semaforo = record s {
        i_semaforo = pred_int s.i_semaforo;
        prog_encolados = s.prog_encolados ++ programa ∷ [];
      } in
      let d =
        senales-despiertan (s.prog_encolados ++ programa ∷ []) (fn_lock lib k w programa).0
          w.semaforo s' f.1 (menos ∙ ap opuesto (sym l)) refl in
      let pid = (k.programas programa).pcb.pid in
      (
        f.0,
        d.0,
        ap (λ m. senales m (fn_lock lib k w programa).0 w.semaforo) (sym l) ∙ d.1,
        d.4
            ∙ f.3
            ∙ ap (erase_first (busca_prog k pid)) e
            ∙ erase_first-entre k pid antes despues programa a refl,
        d.2 ∙ ap (λ x. x ++ (s.prog_encolados ++ programa ∷ [])) f.4,
        ap (λ (g : ℕ → Programa). (g programa).pcb) d.5 ∙ f.2,
        d.3,
      )
