-- ===== src/Kernel/Planificador/Orden.antt =====
-- The order in which a semaphore blocks programs and wakes them.
use tp_sistemas_operativos_u.Base.{
  erase_first, ℕ, suc, ◌≡◌, ◌<◌, refl, ap, ◌∙◌, inl, inr, true, ◌&&◌, ◌==◌, ltb, Option, some, List,
  [], ◌∷◌, ◌++◌, Bytes, length, find, insert_at, arith, Bool-cases, some_inj,
}
use tp_sistemas_operativos_u.Commons.{ListLib}
use tp_sistemas_operativos_u.Protocolo.{MsjWait, continuar, bloquear}
use tp_sistemas_operativos_u.Kernel.{
  Kernel, Semaforo, suc_int, pred_int, es_negativo, no_es_positivo,
}
use tp_sistemas_operativos_u.Kernel.Planificador.{
  busca_prog, cambiar_primero, mismo_texto, con_pcb, al_final_de_ready, con_semaforo, fn_lock,
  fn_unlock,
}
use tp_sistemas_operativos_u.Kernel.Planificador.Cuentas.{EstaSaldado}
use tp_sistemas_operativos_u.Kernel.Planificador.Bloqueos.{deuda-no_es_positivo}

-- The semaphore that `list_find` gives for a name.
abbrev pub semaforo_de : Kernel → Bytes → Option Semaforo
semaforo_de k nombre = find (λ s. mismo_texto s.sz_semaforo nombre) k.list_smfrs

insert_at-length : (a : ℕ) (xs : List ℕ) → insert_at (length xs) a xs ≡ xs ++ a ∷ []
insert_at-length a [] = refl
insert_at-length a (x ∷ xs) = ap (λ ys. x ∷ ys) (insert_at-length a xs)

-- A change that keeps the name is found under it.
pub find-cambiar_primero :
    (nombre : Bytes) (f : Semaforo → Semaforo) (ss : List Semaforo) (s : Semaforo)
    → ((t : Semaforo) → (f t).sz_semaforo ≡ t.sz_semaforo)
    → find (λ s. mismo_texto s.sz_semaforo nombre) ss ≡ some s
    → find
        (λ s. mismo_texto s.sz_semaforo nombre)
        (cambiar_primero (λ s. mismo_texto s.sz_semaforo nombre) f ss)
      ≡ some (f s)
unfolding cambiar_primero
find-cambiar_primero nombre f [] s g e = absurd (ground arith)
find-cambiar_primero nombre f (t ∷ ts) s g e =
    elim (Bool-cases (mismo_texto t.sz_semaforo nombre)) [
      | inl si ↦
          let igual = ap (λ x. mismo_texto x nombre) (g t) ∙ si in
          let mismo : t ≡ s = some_inj (rw si at e) in rw (si, igual) (ap (λ x. some (f x)) mismo)
      | inr otro ↦ rw (otro, otro) (find-cambiar_primero nombre f ts s g (rw otro at e))
    ]

module _ (lib : (A : Type 0) → ListLib A) where
  -- A wait that takes the value below 0, while some program is in execution, is answered
  -- `bloquear`; the program leaves execution, found by its number, and is the last of the semaphore's
  -- queue, with the PCB of the message.
  pub fn_lock-encola :
      (k : Kernel) (w : MsjWait) (programa : ℕ) (s : Semaforo)
      → semaforo_de k w.semaforo ≡ some s
      → es_negativo (pred_int s.i_semaforo) ≡ true
      → 0 < length k.lista_exec
      → ((fn_lock lib k w programa).1 ≡ some bloquear)
        × (semaforo_de (fn_lock lib k w programa).0 w.semaforo
            ≡ some (record s {
              i_semaforo = pred_int s.i_semaforo;
              prog_encolados = s.prog_encolados ++ programa ∷ [];
            }))
        × (((fn_lock lib k w programa).0.programas programa).pcb ≡ w.pcb)
        × ((fn_lock lib k w programa).0.lista_exec
            ≡ erase_first (busca_prog k (k.programas programa).pcb.pid) k.lista_exec)
        × ((fn_lock lib k w programa).0.lista_ready ≡ k.lista_ready)
  unfolding fn_lock con_pcb con_semaforo
  fn_lock-encola k w programa s hay neg exec =
      let q = λ (s : Semaforo). mismo_texto s.sz_semaforo w.semaforo in
      let lleno : ltb 0 (length k.lista_exec) ≡ true = ground (arith, exec) in
      let f = λ (s : Semaforo). record s {
        i_semaforo = pred_int s.i_semaforo;
        prog_encolados = (lib ℕ).list_add s.prog_encolados programa;
      } in
      let si : (programa == programa) ≡ true = ground arith in
      (
        rw (fn_lock, (lib Semaforo).list_find_lem q k.list_smfrs, hay, neg, lleno) refl,
        rw (fn_lock, (lib Semaforo).list_find_lem q k.list_smfrs, hay, neg, lleno)
            (find-cambiar_primero w.semaforo f k.list_smfrs s (λ t. refl) hay
              ∙ rw ((lib ℕ).list_add_lem s.prog_encolados programa) refl),
        rw (fn_lock, (lib Semaforo).list_find_lem q k.list_smfrs, hay, neg, lleno, si) refl,
        rw (fn_lock, (lib Semaforo).list_find_lem q k.list_smfrs, hay, neg, lleno)
            (ap (λ (x : Option ℕ × List ℕ). x.1)
              ((lib ℕ).list_remove_by_condition_lem (busca_prog k (k.programas programa).pcb.pid)
                k.lista_exec)),
        rw (fn_lock, (lib Semaforo).list_find_lem q k.list_smfrs, hay, neg, lleno) refl,
      )

  -- A signal to a semaphore that owes its queue wakes the first program of the queue, which is then
  -- the last that is ready; the others keep their order, the programs in execution and all the PCBs
  -- stay.
  pub fn_unlock-despierta :
      (k : Kernel) (nombre : Bytes) (s : Semaforo) (programa : ℕ) (resto : List ℕ)
      → semaforo_de k nombre ≡ some s
      → EstaSaldado s
      → s.prog_encolados ≡ programa ∷ resto
      → (k' : Kernel) × (fn_unlock lib k nombre ≡ some (k', some continuar))
        × (k'.lista_ready ≡ k.lista_ready ++ programa ∷ [])
        × (k'.productor_consumidor ≡ suc k.productor_consumidor)
        × (semaforo_de k' nombre
            ≡ some (record s { i_semaforo = suc_int s.i_semaforo; prog_encolados = resto }))
        × (k'.lista_exec ≡ k.lista_exec)
        × (k'.programas ≡ k.programas)
  unfolding fn_unlock EstaSaldado con_semaforo al_final_de_ready
  fn_unlock-despierta k nombre s programa resto hay b e =
      let t = λ (s : Semaforo). mismo_texto s.sz_semaforo nombre in
      let l : length s.prog_encolados ≡ suc (length resto) = ap length e in
      let c : (no_es_positivo (suc_int s.i_semaforo) && ltb 0 (length s.prog_encolados)) ≡ true =
        ground (arith, l, deuda-no_es_positivo s.i_semaforo (length resto) (b ∙ l)) in
      let q : (lib ℕ).list_remove 0 s.prog_encolados ≡ (some programa, resto) =
        ap ((lib ℕ).list_remove 0) e ∙ (lib ℕ).list_remove-zero (programa ∷ resto) in
      let f = λ (s : Semaforo). record s {
        i_semaforo = suc_int s.i_semaforo;
        prog_encolados = ((lib ℕ).list_remove 0 s.prog_encolados).1;
      } in
      (
        al_final_de_ready lib (con_semaforo k nombre f) programa,
        rw
            (
              fn_unlock,
              (lib Semaforo).list_find_lem t k.list_smfrs,
              hay,
              c,
              ap (λ (x : Option ℕ × List ℕ). x.0) q,
            )
            refl,
        (lib ℕ).list_add_in_index_lem _ programa k.lista_ready (omega arith)
            ∙ insert_at-length programa k.lista_ready,
        refl,
        find-cambiar_primero nombre f k.list_smfrs s (λ t. refl) hay
            ∙ rw (ap (λ (x : Option ℕ × List ℕ). x.1) q) refl,
        refl,
        refl,
      )
