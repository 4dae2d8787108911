-- ===== src/Kernel/Sistema/Pasos.antt =====
-- Each step of the threads of the kernel (kernelMain.c, plp/, soporte/ConexionConCPU.c), from a state
-- that the steps before have left.
use tp_sistemas_operativos_u.Kernel.Sistema.Llegada.{IsKernel-avisado}
use tp_sistemas_operativos_u.Base.{
  SiSale-some, ℕ, ◌+◌, ◌-◌, ◌≡◌, ◌≤◌, refl, sym, ◌∙◌, ltb, ltb→lt, none, some, List, [], ◌∷◌, Bytes,
  find, arith, Bool-cases, Option-cases, some_inj, inl, inr,
}
use mathlib.Core.Path.{subst}
use mathlib.Core.Option.{none-ne-some}
use tp_sistemas_operativos_u.Commons.{ListLib, SortLib}
use tp_sistemas_operativos_u.Mensajes.{Conexion}
use tp_sistemas_operativos_u.Umv.{Umv}
use tp_sistemas_operativos_u.Kernel.{Kernel, Prog, Dispositivo}
use tp_sistemas_operativos_u.Kernel.Planificador.{terminar_programa, fn_dispositivos, mismo_texto}
use tp_sistemas_operativos_u.Kernel.Planificador.Invariante.{IsKernel}
use tp_sistemas_operativos_u.Kernel.Planificador.Colas.{terminar_programa-IsKernel}
use tp_sistemas_operativos_u.Kernel.Planificador.Dispositivos.{fn_dispositivos-IsKernel}
use tp_sistemas_operativos_u.Kernel.Carga.{NuevoProg, planificar}
use tp_sistemas_operativos_u.Kernel.Sistema.{Sistema, planificar_programas}
use tp_sistemas_operativos_u.Kernel.Sistema.Sumas.{uno, suma}
use tp_sistemas_operativos_u.Kernel.Sistema.Cuenta.{en_ejecucion, en_colas, quita_primero}
use tp_sistemas_operativos_u.Kernel.Sistema.Salidas.{fn_dispositivos-Conserva}
use tp_sistemas_operativos_u.Kernel.Sistema.Entrada.{Entra, del_tomado, planificar-Entra}
use tp_sistemas_operativos_u.Kernel.Sistema.Invariante.{apariciones, EsSistema, sin_hilos-EsSistema}

module _ (lib : (A : Type 0) → ListLib A) where
  -- The program of `plp/PlanificadorPLP.c` that ends leaves the exit queue.
  pub termina-EsSistema :
      (n : ℕ) (s : Sistema) (k : Kernel) (programa : ℕ)
      → EsSistema n s
      → terminar_programa lib s.kernel ≡ some (k, programa)
      → EsSistema n (record s { kernel = k })
  unfolding terminar_programa
  termina-EsSistema n s k programa h e = elim (Bool-cases (ltb 0 s.kernel.semaforo_exit)) [
    | inr cerrado ↦
        let f : terminar_programa lib s.kernel ≡ none = rw (terminar_programa, cerrado) refl in
        absurd (none-ne-some (k, programa) (sym f ∙ e))
    | inl abierto ↦ elim (Option-cases ((lib ℕ).list_remove 0 s.kernel.exit_procesos).0) [
      | inl vacia ↦
          let f : terminar_programa lib s.kernel ≡ none =
            rw (terminar_programa, abierto, vacia) refl in
          absurd (none-ne-some (k, programa) (sym f ∙ e))
      | inr (x, primero) ↦
          let k1 : Kernel = record s.kernel {
            exit_procesos = ((lib ℕ).list_remove 0 s.kernel.exit_procesos).1;
            semaforo_exit = s.kernel.semaforo_exit - 1;
          } in
          let f : terminar_programa lib s.kernel ≡ some (k1, x) =
            rw (terminar_programa, abierto, primero) refl in
          let r = terminar_programa-IsKernel lib n s.kernel h.colas (ltb→lt _ _ abierto) in
          let c : IsKernel n k1 =
            subst (λ (z : Kernel × ℕ). IsKernel n z.0) (some_inj (sym r.1 ∙ f)) r.3 in
          subst (λ (z : Kernel × ℕ). EsSistema n (record s { kernel = z.0 })) (some_inj (sym f ∙ e))
            (sin_hilos-EsSistema n s k1 s.lista_de_programas h c (λ p. refl)
              (λ p.
                let q = quita_primero lib (uno p) s.kernel.exit_procesos x primero in
                unfold apariciones en_colas en_ejecucion in omega (arith, q))
              (λ p. unfold en_ejecucion in refl))
    ]
  ]

  -- A device gives its first program back.
  pub vuelve-EsSistema :
      (n : ℕ) (s : Sistema) (k : Kernel) (nombre : Bytes)
      → EsSistema n s
      → fn_dispositivos lib s.kernel nombre ≡ some k
      → EsSistema n (record s { kernel = k })
  unfolding fn_dispositivos
  vuelve-EsSistema n s k nombre h e =
      let q = λ (d : Dispositivo). mismo_texto d.sz_dispositivo nombre in
      let busca = (lib Dispositivo).list_find_lem q s.kernel.list_dispos in
      let c = fn_dispositivos-Conserva lib s.kernel nombre k e in
      elim (Option-cases (find q s.kernel.list_dispos)) [
        | inl nada ↦
            let f : fn_dispositivos lib s.kernel nombre ≡ none =
              rw (fn_dispositivos, busca, nada) refl in
            absurd (none-ne-some k (sym f ∙ e))
        | inr (d, hay) ↦ elim (Bool-cases (ltb 0 d.semaforo)) [
          | inr cero ↦
              let f : fn_dispositivos lib s.kernel nombre ≡ none =
                rw (fn_dispositivos, busca, hay, cero) refl in
              absurd (none-ne-some k (sym f ∙ e))
          | inl si ↦
              let r =
                fn_dispositivos-IsKernel lib n s.kernel nombre d h.colas hay (ltb→lt _ _ si) in
              sin_hilos-EsSistema n s k s.lista_de_programas h
                (subst (IsKernel n) (some_inj (sym r.1 ∙ e)) r.2) c.pids
                (λ p. let g = c.cuenta p in unfold apariciones in omega (arith, g)) c.ejecucion
        ]
      ]

  quita_o_nada :
      (p : ℕ) (l : List NuevoProg)
      → suma (λ (x : NuevoProg). uno p x.programa) l
        ≡ suma (λ (x : NuevoProg). uno p x.programa) ((lib NuevoProg).list_remove 0 l).1
          + del_tomado ((lib NuevoProg).list_remove 0 l).0 p
  unfolding suma del_tomado
  quita_o_nada p [] = let z = (lib NuevoProg).list_remove-zero [] in rw z refl
  quita_o_nada p (x ∷ xs) = let z = (lib NuevoProg).list_remove-zero (x ∷ xs) in rw z (omega arith)

  module _ (sort : SortLib Prog) where
    -- The planner takes the first program that has arrived, if there is one.
    pub planifica-EsSistema :
        (n : ℕ) (s t : Sistema) (u u' : Umv) (nueva : Conexion) (stack : ℕ)
        → EsSistema n s
        → planificar_programas lib sort s u nueva stack ≡ some (t, u')
        → EsSistema n t
    unfolding planificar_programas
    planifica-EsSistema n s t u u' nueva stack h e =
        let l = s.lista_de_programas in
        let k0 : Kernel = record s.kernel {
          nuevo_programa_sem = s.kernel.nuevo_programa_sem - 1;
        } in
        let prog = ((lib NuevoProg).list_remove 0 l).0 in
        elim (Bool-cases (ltb 0 s.kernel.nuevo_programa_sem)) [
          | inr cerrado ↦
              let f : planificar_programas lib sort s u nueva stack ≡ none =
                rw (planificar_programas, cerrado) refl in
              absurd (none-ne-some (t, u') (sym f ∙ e))
          | inl abierto ↦ elim (Option-cases (planificar lib sort k0 u nueva prog stack)) [
            | inl nada ↦
                let f : planificar_programas lib sort s u nueva stack ≡ none =
                  rw (planificar_programas, abierto, nada) refl in
                absurd (none-ne-some (t, u') (sym f ∙ e))
            | inr (r, hay) ↦
                let resto = ((lib NuevoProg).list_remove 0 l).1 in
                let f : planificar_programas lib sort s u nueva stack
                    ≡ some (record s { kernel = r.0; lista_de_programas = resto }, r.1) =
                  rw (planificar_programas, abierto, hay) refl in
                let c : Entra n k0 (del_tomado prog) r.0 =
                  SiSale-some (λ (r : Kernel × Umv). Entra n k0 (del_tomado prog) r.0)
                    (planificar lib sort k0 u nueva prog stack) r hay
                    (planificar-Entra lib sort n k0 u nueva prog stack (
                      IsKernel-avisado n s.kernel s.kernel.programas
                        (s.kernel.nuevo_programa_sem - 1) h.colas)) in
                subst (λ (z : Sistema × Umv). EsSistema n z.0) (some_inj (sym f ∙ e))
                  (sin_hilos-EsSistema n s r.0 resto h c.colas (λ p. c.pids p)
                    (λ p. menos p r.0 (c.cuenta p))
                    (λ p. c.ejecucion p ∙ (unfold en_ejecucion in refl)))
          ]
        ]
      where
        menos :
            (p : ℕ) (k : Kernel)
            → en_colas p k
              ≤ en_colas p
                  (record s.kernel { nuevo_programa_sem = s.kernel.nuevo_programa_sem - 1 })
                + del_tomado ((lib NuevoProg).list_remove 0 s.lista_de_programas).0 p
            → apariciones p (record s {
              kernel = k;
              lista_de_programas = ((lib NuevoProg).list_remove 0 s.lista_de_programas).1;
            })
              ≤ apariciones p s
        menos p k c =
            let q = quita_o_nada p s.lista_de_programas in
            let d : en_colas p
                  (record s.kernel { nuevo_programa_sem = s.kernel.nuevo_programa_sem - 1 })
                ≡ en_colas p s.kernel =
              unfold en_colas en_ejecucion in refl in
            unfold apariciones in omega (arith, q, c, d)
