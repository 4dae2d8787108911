-- ===== src/Kernel/Sistema/Entrada.antt =====
-- The long-term planner (plp/PlanificadorPLP.c) and the addresses in the queues.
use tp_sistemas_operativos_u.Kernel.Sistema.Cargada.{conectar_umv-pid}
use tp_sistemas_operativos_u.Base.{
  SiSale, SiSale->>=, SiSale-if, siempre, sale, ℕ, ◌+◌, ◌-◌, ◌≡◌, ◌≤◌, refl, sym, ◌∙◌, ltb, Bool,
  if◌then◌else◌, ◌>>=◌, Option, none, some, ◌∷◌, length, arith, Bool-cases, Option-cases, some_inj,
  inl, inr, ltb→lt,
}
use mathlib.Core.Path.{subst}
use mathlib.Core.Option.{none-ne-some}
use tp_sistemas_operativos_u.Commons.{ListLib, SortLib}
use tp_sistemas_operativos_u.Mensajes.{Conexion}
use tp_sistemas_operativos_u.Protocolo.{Pcb}
use tp_sistemas_operativos_u.Umv.{Segmento, Umv}
use tp_sistemas_operativos_u.Kernel.{Kernel, Prog}
use tp_sistemas_operativos_u.Kernel.Planificador.{
  con_pcb, al_final_de_ready, poner_en_ready_programas,
}
use tp_sistemas_operativos_u.Kernel.Planificador.Invariante.{IsKernel, con_pcb-IsKernel}
use tp_sistemas_operativos_u.Kernel.Planificador.Colas.{poner_en_ready_programas-IsKernel}
use tp_sistemas_operativos_u.Kernel.Carga.{
  NuevoProg, conectar_umv, aceptar_programa, rechazar_programa, guardar_programa, planificar,
  calcular_peso,
}
use tp_sistemas_operativos_u.Kernel.Carga.Orden.{aceptar_programa-EnOrden}
use tp_sistemas_operativos_u.Kernel.Sistema.Sumas.{uno, suma, suma-Perm}
use tp_sistemas_operativos_u.Kernel.Sistema.Cuenta.{
  en_nuevos, en_ejecucion, en_colas, pid_de, Conserva, Conserva-refl, con_pcb-Conserva,
  quita_primero, al_final_de_ready-en_colas,
}

-- The addresses of the program that is taken, if there is one.
unfoldable pub del_tomado : Option NuevoProg → ℕ → ℕ
del_tomado none p = 0
del_tomado (some prog) p = uno p prog.programa

-- What the planner's round leaves: some addresses may have entered, no program has changed its number,
-- and the execution list and the invariant of the queues are kept.
pub record Entra (n : ℕ) (k : Kernel) (entran : ℕ → ℕ) (k' : Kernel) : Type 0 where
  pub pids : (p : ℕ) → pid_de k' p ≡ pid_de k p
  pub cuenta : (p : ℕ) → en_colas p k' ≤ en_colas p k + entran p
  pub ejecucion : (p : ℕ) → en_ejecucion p k' ≡ en_ejecucion p k
  pub colas : IsKernel n k'

module _ (lib : (A : Type 0) → ListLib A) (sort : SortLib Prog) where
  con_pcb-Entra :
      (n : ℕ) (k : Kernel) (programa : ℕ) (pcb : Pcb)
      → pcb.pid ≡ pid_de k programa
      → IsKernel n k
      → Entra n k (λ p. 0) (con_pcb k programa pcb)
  con_pcb-Entra n k programa pcb e i =
      let c = con_pcb-Conserva k programa pcb e in
      record {
        pids = c.pids;
        cuenta = λ p. omega (arith, c.cuenta p);
        ejecucion = c.ejecucion;
        colas = con_pcb-IsKernel n k programa pcb i;
      }

  Entra-mas :
      (n : ℕ) (k : Kernel) (entran : ℕ → ℕ) (k' : Kernel)
      → Entra n k (λ p. 0) k'
      → Entra n k entran k'
  Entra-mas n k entran k' c = record {
    pids = c.pids;
    cuenta = λ p. omega (arith, c.cuenta p);
    ejecucion = c.ejecucion;
    colas = c.colas;
  }

  -- What a round leaves, where a place may then be taken.
  Entra-Conserva :
      (n : ℕ) (k : Kernel) (entran : ℕ → ℕ) (k' k'' : Kernel)
      → Entra n k entran k'
      → Conserva k' k''
      → IsKernel n k''
      → Entra n k entran k''
  Entra-Conserva n k entran k' k'' c d i = record {
    pids = λ p. d.pids p ∙ c.pids p;
    cuenta = λ p. omega (arith, c.cuenta p, d.cuenta p);
    ejecucion = λ p. d.ejecucion p ∙ c.ejecucion p;
    colas = i;
  }

  -- An accepted program joins the new ones.
  aceptar_programa-Entra :
      (n : ℕ) (k k0 : Kernel) (p : NuevoProg)
      → Entra n k0 (λ q. 0) k
      → Entra n k0 (λ q. uno q p.programa) (aceptar_programa lib sort k p)
  aceptar_programa-Entra n k k0 p c =
      let a = aceptar_programa-EnOrden lib sort n k p c.colas in
      let prog : Prog = record {
        peso = calcular_peso p (k.programas p.programa).pcb;
        programa = p.programa;
      } in
      record {
        pids = λ q. unfold aceptar_programa in c.pids q;
        cuenta = λ q.
            let m : en_nuevos q (aceptar_programa lib sort k p).new_procesos
                ≡ uno q p.programa + en_nuevos q k.new_procesos =
              unfold en_nuevos in
              (suma-Perm (λ (r : Prog). uno q r.programa)
                  (aceptar_programa lib sort k p).new_procesos (prog ∷ k.new_procesos) a.1
                ∙ (unfold suma in refl)) in
            let e : en_colas q (aceptar_programa lib sort k p) ≡ uno q p.programa + en_colas q k =
              unfold en_colas en_ejecucion aceptar_programa in omega (arith, m) in
            omega (arith, e, c.cuenta q);
        ejecucion = λ q.
            let e : en_ejecucion q (aceptar_programa lib sort k p) ≡ en_ejecucion q k =
              unfold aceptar_programa en_ejecucion in refl in
            e ∙ c.ejecucion q;
        colas = a.2;
      }

  guardar_programa-Entra :
      (n : ℕ) (k : Kernel) (u : Umv) (nueva : Conexion) (p : NuevoProg) (stack : ℕ)
      → IsKernel n k
      → SiSale
          (λ (r : Kernel × Umv). Entra n k (λ q. uno q p.programa) r.0)
          (guardar_programa lib sort k u nueva p stack)
  unfolding guardar_programa
  guardar_programa-Entra n k u nueva p stack i =
      let P = λ (r : Kernel × Umv). Entra n k (λ q. uno q p.programa) r.0 in
      SiSale->>= (λ (r : Umv × Pcb × Bool). r.1.pid ≡ pid_de k p.programa) P
        (conectar_umv (lib Segmento) u nueva p stack (k.programas p.programa).pcb) _
        (conectar_umv-pid (lib Segmento) u nueva p stack (k.programas p.programa).pcb)
        (λ r e.
          let c = con_pcb-Entra n k p.programa r.1 e i in
          SiSale-if P r.2 _ _ (sale P _ (aceptar_programa-Entra n (con_pcb k p.programa r.1) k p c))
            (SiSale->>= (λ x. Unit) P (rechazar_programa (lib Segmento) r.0 nueva r.1) _ (siempre _)
              (λ v h.
                sale P (con_pcb k p.programa r.1, v)
                  (Entra-mas n k (λ q. uno q p.programa) (con_pcb k p.programa r.1) c))))

  poner_en_ready_programas-Conserva :
      (k : Kernel) (k' : Kernel) → poner_en_ready_programas lib k ≡ some k' → Conserva k k'
  unfolding poner_en_ready_programas
  poner_en_ready_programas-Conserva k k' h = elim (Bool-cases (ltb 0 k.estado_multiprogramacion)) [
    | inr lleno ↦
        let e : poner_en_ready_programas lib k ≡ some k =
          rw (poner_en_ready_programas, lleno) refl in
        subst (Conserva k) (some_inj (sym e ∙ h)) (Conserva-refl k)
    | inl libre ↦ elim (Option-cases ((lib Prog).list_remove 0 k.new_procesos).0) [
      | inl vacia ↦
          let e : poner_en_ready_programas lib k ≡ none =
            rw (poner_en_ready_programas, libre, vacia) refl in
          absurd (none-ne-some k' (sym e ∙ h))
      | inr (x, primero) ↦
          let k0 : Kernel = record k {
            estado_multiprogramacion = k.estado_multiprogramacion - 1;
            new_procesos = ((lib Prog).list_remove 0 k.new_procesos).1;
          } in
          let k1 : Kernel = al_final_de_ready lib k0 x.programa in
          let e : poner_en_ready_programas lib k ≡ some k1 =
            rw (poner_en_ready_programas, libre, primero) refl in
          let c : Conserva k k1 = record {
            pids = λ p. unfold al_final_de_ready in refl;
            cuenta = λ p.
                let a = al_final_de_ready-en_colas lib k0 x.programa p in
                let b =
                  quita_primero lib (λ (r : Prog). uno p r.programa) k.new_procesos x primero in
                let d : uno p x.programa + en_colas p k0 ≡ en_colas p k =
                  unfold en_colas en_ejecucion en_nuevos in omega (arith, b) in
                a ∙ d;
            ejecucion = λ p. unfold al_final_de_ready en_ejecucion in refl;
          } in
          subst (Conserva k) (some_inj (sym e ∙ h)) c
    ]
  ]

  Entra-en_ready :
      (n : ℕ) (k : Kernel) (entran : ℕ → ℕ) (k' : Kernel) (u : Umv)
      → Entra n k entran k'
      → SiSale
          (λ (r : Kernel × Umv). Entra n k entran r.0)
          (if ltb 0 (length k'.new_procesos)
            then (poner_en_ready_programas lib k' >>= λ k''. some (k'', u))
            else some (k', u))
  Entra-en_ready n k entran k' u c =
      let P = λ (r : Kernel × Umv). Entra n k entran r.0 in
      elim (Bool-cases (ltb 0 (length k'.new_procesos))) [
        | inr ninguno ↦ rw ninguno (sale P (k', u) c)
        | inl hay ↦
            let r = poner_en_ready_programas-IsKernel lib n k' c.colas (ltb→lt _ _ hay) in
            let d = poner_en_ready_programas-Conserva k' r.0 r.1 in
            rw (hay, r.1) (sale P (r.0, u) (Entra-Conserva n k entran k' r.0 c d r.2))
      ]

  -- One round of the planner, whether or not a program has arrived, the memory server has room for
  -- it, and a place is left.
  pub planificar-Entra :
      (n : ℕ) (k : Kernel) (u : Umv) (nueva : Conexion) (prog : Option NuevoProg) (stack : ℕ)
      → IsKernel n k
      → SiSale
          (λ (r : Kernel × Umv). Entra n k (del_tomado prog) r.0)
          (planificar lib sort k u nueva prog stack)
  unfolding planificar del_tomado
  planificar-Entra n k u nueva none stack i =
      Entra-en_ready n k (λ p. 0) k u
        (record { pids = λ p. refl; cuenta = λ p. omega arith; ejecucion = λ p. refl; colas = i })
  planificar-Entra n k u nueva (some prog) stack i =
      let entran : ℕ → ℕ = λ q. uno q prog.programa in
      SiSale->>= (λ (r : Kernel × Umv). Entra n k entran r.0)
        (λ (r : Kernel × Umv). Entra n k entran r.0)
        (guardar_programa lib sort k u nueva prog stack) _
        (guardar_programa-Entra n k u nueva prog stack i)
        (λ r c. Entra-en_ready n k entran r.0 r.1 c)
