-- ===== src/Kernel/Sistema/Cuenta.antt =====
-- How often an address stands in the queues of the kernel, and what the functions of
-- pcp/PlanificadorPCP_th.c do to that.
use tp_sistemas_operativos_u.Base.{
  ℕ, suc, ◌+◌, ◌≡◌, ◌≢◌, refl, sym, ap, ◌∙◌, ◌==◌, Bool, true, Option, none, some, List, [], ◌∷◌,
  length, find, erase_first, arith, Bool-cases, Option-cases, some_inj, inl, inr,
}
use mathlib.Core.Path.{subst}
use mathlib.Core.Option.{none-ne-some}
use tp_sistemas_operativos_u.Commons.{ListLib}
use tp_sistemas_operativos_u.Protocolo.{Pcb}
use tp_sistemas_operativos_u.Kernel.{Kernel, Semaforo, Dispositivo, Prog, ProgramaRetardo}
use tp_sistemas_operativos_u.Kernel.Planificador.{
  busca_prog, con_pcb, al_final_de_ready, mover_a_exit, recargar_ready,
}
use tp_sistemas_operativos_u.Kernel.Sistema.Sumas.{
  uno, suma, suma-uno_mas, suma-insert_at, suma-erase_first,
}

unfoldable pub en_semaforo : ℕ → Semaforo → ℕ
en_semaforo p s = suma (uno p) s.prog_encolados

unfoldable pub en_dispositivo : ℕ → Dispositivo → ℕ
en_dispositivo p d = suma (λ (r : ProgramaRetardo). uno p r.programa) d.prog_encolados

unfoldable pub en_nuevos : ℕ → List Prog → ℕ
en_nuevos p = suma (λ (r : Prog). uno p r.programa)

unfoldable pub en_ejecucion : ℕ → Kernel → ℕ
en_ejecucion p k = suma (uno p) k.lista_exec

-- In all the queues together: new, ready, in execution, blocked, and on the way out.
unfoldable pub en_colas : ℕ → Kernel → ℕ
en_colas p k =
    en_nuevos p k.new_procesos
    + suma (uno p) k.lista_ready
    + en_ejecucion p k
    + suma (en_semaforo p) k.list_smfrs
    + suma (en_dispositivo p) k.list_dispos
    + suma (uno p) k.exit_procesos

abbrev pub pid_de : Kernel → ℕ → ℕ
pid_de k p = (k.programas p).pcb.pid

-- `programa` is in execution, and the search by its number finds it and not another program.
unfoldable pub SeEncuentra : Kernel → ℕ → Type 0
SeEncuentra k programa = find (busca_prog k (pid_de k programa)) k.lista_exec ≡ some programa

-- No address is lost or put in twice, no program changes its number, and of the programs in execution
-- only those with the number of `programa` are touched.
pub record Mueve (k : Kernel) (programa : ℕ) (k' : Kernel) : Type 0 where
  pub pids : (p : ℕ) → pid_de k' p ≡ pid_de k p
  pub cuenta : (p : ℕ) → en_colas p k' ≡ en_colas p k
  pub otros : (p : ℕ) → pid_de k p ≢ pid_de k programa → en_ejecucion p k' ≡ en_ejecucion p k

-- The same, where no program leaves the execution list or joins it.
pub record Conserva (k : Kernel) (k' : Kernel) : Type 0 where
  pub pids : (p : ℕ) → pid_de k' p ≡ pid_de k p
  pub cuenta : (p : ℕ) → en_colas p k' ≡ en_colas p k
  pub ejecucion : (p : ℕ) → en_ejecucion p k' ≡ en_ejecucion p k

pub Conserva-Mueve : (k : Kernel) (programa : ℕ) (k' : Kernel) → Conserva k k' → Mueve k programa k'
Conserva-Mueve k programa k' c = record {
  pids = c.pids;
  cuenta = c.cuenta;
  otros = λ p o. c.ejecucion p;
}

pub Conserva-refl : (k : Kernel) → Conserva k k
Conserva-refl k = record { pids = λ p. refl; cuenta = λ p. refl; ejecucion = λ p. refl }

pub Mueve-trans :
    (k : Kernel) (programa : ℕ) (k' k'' : Kernel)
    → Mueve k programa k'
    → Mueve k' programa k''
    → Mueve k programa k''
Mueve-trans k programa k' k'' a b = record {
  pids = λ p. b.pids p ∙ a.pids p;
  cuenta = λ p. b.cuenta p ∙ a.cuenta p;
  otros = λ p h. b.otros p (λ e. h (sym (a.pids p) ∙ e ∙ a.pids programa)) ∙ a.otros p h;
}

pub uno-mismo : (p : ℕ) → uno p p ≡ 1
unfolding uno
uno-mismo p = ground arith

pub uno-otro : (p q : ℕ) → p ≢ q → uno p q ≡ 0
unfolding uno
uno-otro p q h = ground (arith, h)

pub find-true : {A : Type 0} (p : A → Bool) (xs : List A) (x : A) → find p xs ≡ some x → p x ≡ true
find-true p [] x e = absurd (ground arith)
find-true p (y ∷ xs) x e = elim (Bool-cases (p y)) [
  | inl si ↦ ap p (sym (some_inj (rw si at e))) ∙ si
  | inr otro ↦ find-true p xs x (rw otro at e)
]

pub busca_prog-pid :
    (k : Kernel) (pid x : ℕ) → find (busca_prog k pid) k.lista_exec ≡ some x → pid_de k x ≡ pid
busca_prog-pid k pid x e =
    let t = find-true (busca_prog k pid) k.lista_exec x e in
    unfold busca_prog in (let u : (pid_de k x == pid) ≡ true = t in ground (arith, u))

-- The program that is taken out has the number that was asked for: the others stay.
pub sale-otros :
    (k : Kernel) (pid x p : ℕ)
    → find (busca_prog k pid) k.lista_exec ≡ some x
    → pid_de k p ≢ pid
    → suma (uno p) (erase_first (busca_prog k pid) k.lista_exec) ≡ en_ejecucion p k
unfolding en_ejecucion
sale-otros k pid x p e h =
    let otro : uno p x ≡ 0 = uno-otro p x (λ m. h (ap (pid_de k) m ∙ busca_prog-pid k pid x e)) in
    let s = suma-erase_first (uno p) (busca_prog k pid) k.lista_exec x e in omega (arith, otro, s)

pub con_pcb-pids :
    (k : Kernel) (programa : ℕ) (pcb : Pcb) (p : ℕ)
    → pcb.pid ≡ pid_de k programa
    → pid_de (con_pcb k programa pcb) p ≡ pid_de k p
unfolding con_pcb
con_pcb-pids k programa pcb p e = elim (Bool-cases (p == programa)) [
  | inl si ↦ let m : p ≡ programa = ground arith in rw (pid_de, si) (e ∙ ap (pid_de k) (sym m))
  | inr otro ↦ rw (pid_de, otro) refl
]

pub con_pcb-Conserva :
    (k : Kernel) (programa : ℕ) (pcb : Pcb)
    → pcb.pid ≡ pid_de k programa
    → Conserva k (con_pcb k programa pcb)
con_pcb-Conserva k programa pcb e = record {
  pids = λ p. con_pcb-pids k programa pcb p e;
  cuenta = λ p. unfold con_pcb en_colas en_ejecucion in refl;
  ejecucion = λ p. unfold con_pcb en_ejecucion in refl;
}

module _ (lib : (A : Type 0) → ListLib A) where
  pub ready-uno_mas :
      (w : ℕ → ℕ) (xs : List ℕ) (x : ℕ)
      → suma w ((lib ℕ).list_add_in_index (length xs) x xs) ≡ w x + suma w xs
  ready-uno_mas w xs x =
      ap (suma w) ((lib ℕ).list_add_in_index_lem (length xs) x xs (omega arith))
      ∙ suma-insert_at w x xs

  pub list_add-uno_mas :
      {A : Type 0} (w : A → ℕ) (xs : List A) (x : A)
      → suma w ((lib A).list_add xs x) ≡ suma w xs + w x
  list_add-uno_mas {A} w xs x = ap (suma w) ((lib A).list_add_lem xs x) ∙ suma-uno_mas w xs x

  -- One more in ready.
  pub al_final_de_ready-en_colas :
      (k : Kernel) (programa p : ℕ)
      → en_colas p (al_final_de_ready lib k programa) ≡ uno p programa + en_colas p k
  unfolding en_colas al_final_de_ready en_ejecucion
  al_final_de_ready-en_colas k programa p =
      omega (arith, ready-uno_mas (uno p) k.lista_ready programa)

  -- Where `moverAExit` has a result, no address is lost or put in twice.
  pub mover_a_exit-Mueve :
      (k : Kernel) (programa : ℕ) (k' : Kernel)
      → mover_a_exit lib k programa ≡ some k'
      → Mueve k programa k'
  unfolding mover_a_exit en_ejecucion suma
  mover_a_exit-Mueve k programa k' h =
      let b = busca_prog k (pid_de k programa) in
      let quita = (lib ℕ).list_remove_by_condition_lem b k.lista_exec in
      elim (Option-cases (find b k.lista_exec)) [
        | inl nada ↦
            let e : mover_a_exit lib k programa ≡ none = rw (mover_a_exit, quita, nada) refl in
            absurd (none-ne-some k' (sym e ∙ h))
        | inr (x, hay) ↦
            let mismo : (pid_de k programa == pid_de k x) ≡ true =
              ground (arith, busca_prog-pid k (pid_de k programa) x hay) in
            let k1 : Kernel = record k {
              lista_exec = erase_first b k.lista_exec;
              exit_procesos = (lib ℕ).list_add k.exit_procesos x;
              estado_multiprogramacion = suc k.estado_multiprogramacion;
              semaforo_exit = suc k.semaforo_exit;
              nuevo_programa_sem = suc k.nuevo_programa_sem;
            } in
            let e : mover_a_exit lib k programa ≡ some k1 =
              rw (mover_a_exit, quita, hay, mismo) refl in
            let m : Mueve k programa k1 = record {
              pids = λ p. refl;
              cuenta = λ p.
                  unfold en_colas en_ejecucion in
                  omega (
                    arith,
                    list_add-uno_mas (uno p) k.exit_procesos x,
                    suma-erase_first (uno p) b k.lista_exec x hay,
                  );
              otros = λ p d. sale-otros k (pid_de k programa) x p hay d;
            } in
            subst (Mueve k programa) (some_inj (sym e ∙ h)) m
      ]

  pub recargar_ready-Mueve :
      (k : Kernel) (programa : ℕ) (pcb : Pcb) (k' : Kernel)
      → pcb.pid ≡ pid_de k programa
      → recargar_ready lib k pcb ≡ some k'
      → Mueve k programa k'
  unfolding recargar_ready en_ejecucion suma
  recargar_ready-Mueve k programa pcb k' d h =
      let b = busca_prog k pcb.pid in
      let quita = (lib ℕ).list_remove_by_condition_lem b k.lista_exec in
      elim (Option-cases (find b k.lista_exec)) [
        | inl nada ↦
            let e : recargar_ready lib k pcb ≡ none = rw (recargar_ready, quita, nada) refl in
            absurd (none-ne-some k' (sym e ∙ h))
        | inr (x, hay) ↦
            let k0 : Kernel = record k { lista_exec = erase_first b k.lista_exec } in
            let k1 : Kernel = al_final_de_ready lib (con_pcb k0 x pcb) x in
            let suyo : pcb.pid ≡ pid_de k0 x = sym (busca_prog-pid k pcb.pid x hay) in
            let e : recargar_ready lib k pcb ≡ some k1 = rw (recargar_ready, quita, hay) refl in
            let m : Mueve k programa k1 = record {
              pids = λ p. unfold al_final_de_ready in con_pcb-pids k0 x pcb p suyo;
              cuenta = λ p.
                  let a = al_final_de_ready-en_colas (con_pcb k0 x pcb) x p in
                  let c = (con_pcb-Conserva k0 x pcb suyo).cuenta p in
                  let s = suma-erase_first (uno p) b k.lista_exec x hay in
                  a ∙ ap (λ z. uno p x + z) c ∙ (unfold en_colas en_ejecucion in omega (arith, s));
              otros = λ p o.
                  unfold al_final_de_ready con_pcb in sale-otros k pcb.pid x p hay (λ r. o (r ∙ d));
            } in
            subst (Mueve k programa) (some_inj (sym e ∙ h)) m
      ]

  -- The program in front of a queue, and the rest of the queue.
  pub quita_primero :
      {A : Type 0} (w : A → ℕ) (xs : List A) (x : A)
      → ((lib A).list_remove 0 xs).0 ≡ some x
      → w x + suma w ((lib A).list_remove 0 xs).1 ≡ suma w xs
  unfolding suma
  quita_primero {A} w [] x e =
      absurd (
        none-ne-some x
          (sym (ap (λ (y : Option A × List A). y.0) ((lib A).list_remove-zero [])) ∙ e))
  quita_primero {A} w (y ∷ ys) x e =
      let z = (lib A).list_remove-zero (y ∷ ys) in
      let a : w y ≡ w x = ap w (some_inj (sym (ap (λ (y : Option A × List A). y.0) z) ∙ e)) in
      let b : suma w ((lib A).list_remove 0 (y ∷ ys)).1 ≡ suma w ys =
        ap (λ (y : Option A × List A). suma w y.1) z in
      omega (arith, a, b)
