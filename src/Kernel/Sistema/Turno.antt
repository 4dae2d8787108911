-- ===== src/Kernel/Sistema/Turno.antt =====
-- A message of a CPU (soporte/ConexionConCPU.c) and the addresses in the queues.
use tp_sistemas_operativos_u.Base.{
  ℕ, ◌≡◌, refl, sym, ap, ◌∙◌, Bool, true, false, Option, none, some, Bytes, arith, List, [], ◌∷◌,
  ◌==◌, fun_ext, find, Option-cases, some_inj, inl, inr,
}
use mathlib.Core.Path.{subst}
use mathlib.Core.Option.{none-ne-some}
use tp_sistemas_operativos_u.Commons.{ListLib}
use tp_sistemas_operativos_u.Protocolo.{
  Pcb, VariableCompartida, MensajeCpu, MensajeKernel, continuar, terminar, valor_compartida,
  obtener_valor_var_compartida, asignar_valor_var_compartida, imprimir_kernel,
  imprimir_texto_kernel, entrada_salida_kernel, wait_kernel, signal_kernel,
  notificar_por_fin_rafaga, notificar_por_fin_programa, exception, ok_cpu,
}
use tp_sistemas_operativos_u.Kernel.{Kernel}
use tp_sistemas_operativos_u.Kernel.Planificador.{
  busca_prog, con_pcb, obtener_variable, asignar_variable, fn_lock, fn_unlock, mandar_a_dispositivo,
  mover_a_exit, recargar_ready,
}
use tp_sistemas_operativos_u.Kernel.Planificador.Dispositivos.{mandar_a_dispositivo-cases}
use tp_sistemas_operativos_u.Kernel.Conexion.{
  Vuelta, atendiendo, esperando, controlar, terminar_y_esperar, imprimir, o_terminar,
  seguir_tras_wait,
}
use tp_sistemas_operativos_u.Kernel.Sistema.{TraeSuPid}
use tp_sistemas_operativos_u.Kernel.Sistema.Cuenta.{
  en_ejecucion, en_colas, pid_de, SeEncuentra, Mueve, Mueve-trans, Conserva, Conserva-Mueve,
  Conserva-refl, con_pcb-Conserva, con_pcb-pids, mover_a_exit-Mueve, recargar_ready-Mueve,
}
use tp_sistemas_operativos_u.Kernel.Sistema.Movidas.{
  fn_lock-Mueve, fn_lock-continuar, fn_unlock-Conserva,
}
use tp_sistemas_operativos_u.Kernel.Sistema.Salidas.{mandar_a_dispositivo-Mueve}

-- What a turn of the thread that serves `programa` gives: no address is lost or put in twice, and
-- where the thread goes on with a program, it is the same one and the execution list holds what it
-- held.
pub record EsTurno (k : Kernel) (programa : ℕ) (v : Vuelta) : Type 0 where
  pub mueve : Mueve k programa v.0
  pub sigue :
      (q : ℕ)
      → v.1 ≡ atendiendo q
      → (q ≡ programa) × ((p : ℕ) → en_ejecucion p v.0 ≡ en_ejecucion p k)

atendiendo-inj : (p q : ℕ) → atendiendo p ≡ atendiendo q → q ≡ p
atendiendo-inj p q e = ap (λ h. elim h [ atendiendo x ↦ x | _ ↦ p ]) (sym e)

-- Nothing leaves the execution list, and the thread goes on.
se_queda :
    (k : Kernel) (programa : ℕ) (k' : Kernel) (ms : List MensajeKernel)
    → Conserva k k'
    → EsTurno k programa (k', atendiendo programa, ms)
se_queda k programa k' ms c = record {
  mueve = Conserva-Mueve k programa k' c;
  sigue = λ q e. (atendiendo-inj programa q e, λ p. c.ejecucion p);
}

-- The thread goes for another program.
se_va :
    (k : Kernel) (programa : ℕ) (k' : Kernel) (ms : List MensajeKernel)
    → Mueve k programa k'
    → EsTurno k programa (k', esperando, ms)
se_va k programa k' ms m = record { mueve = m; sigue = λ q e. absurd (ground (arith, e)) }

sigue-wait :
    (programa q : ℕ) (r : Option MensajeKernel)
    → seguir_tras_wait programa (o_terminar r) ≡ atendiendo q
    → (r ≡ some continuar) × (q ≡ programa)
unfolding seguir_tras_wait o_terminar
sigue-wait programa q none e = absurd (ground (arith, e))
sigue-wait programa q (some continuar) e = (refl, atendiendo-inj programa q e)
sigue-wait programa q (some m) e = absurd (ground (arith, e))

SeEncuentra-con_pcb :
    (k : Kernel) (programa : ℕ) (pcb : Pcb)
    → pcb.pid ≡ pid_de k programa
    → SeEncuentra k programa
    → SeEncuentra (con_pcb k programa pcb) programa
unfolding SeEncuentra con_pcb
SeEncuentra-con_pcb k programa pcb e h =
    let k1 = con_pcb k programa pcb in
    let mismo : pid_de k1 programa ≡ pid_de k programa = con_pcb-pids k programa pcb programa e in
    let busca : busca_prog k1 (pid_de k programa) ≡ busca_prog k (pid_de k programa) = fun_ext (λ q.
      unfold busca_prog in ap (λ x. x == pid_de k programa) (con_pcb-pids k programa pcb q e)) in
    ap (λ pid. find (busca_prog k1 pid) k.lista_exec) mismo
    ∙ ap (λ f. find f k.lista_exec) busca
    ∙ h

module _ (lib : (A : Type 0) → ListLib A) (dictionary_get : Bytes → Option ℕ) where
  espera :
      (k k0 : Kernel) (programa : ℕ) (v : Vuelta)
      → Mueve k0 programa k
      → terminar_y_esperar lib dictionary_get k programa ≡ some v
      → EsTurno k0 programa v
  unfolding terminar_y_esperar
  espera k k0 programa v m h = elim (Option-cases (mover_a_exit lib k programa)) [
    | inl nada ↦
        let e : terminar_y_esperar lib dictionary_get k programa ≡ none =
          rw (terminar_y_esperar, nada) refl in
        absurd (none-ne-some v (sym e ∙ h))
    | inr (k', hay) ↦
        let e : terminar_y_esperar lib dictionary_get k programa ≡ some (k', esperando, []) =
          rw (terminar_y_esperar, hay) refl in
        subst (EsTurno k0 programa) (some_inj (sym e ∙ h)) (
          se_va k0 programa k' []
            (Mueve-trans k0 programa k k' m (mover_a_exit-Mueve lib k programa k' hay)))
  ]

  imprime :
      (k : Kernel) (programa : ℕ) (enviado : Bool) (v : Vuelta)
      → imprimir k programa enviado ≡ some v
      → EsTurno k programa v
  unfolding imprimir
  imprime k programa true v h =
      subst (EsTurno k programa) (some_inj h)
        (se_queda k programa k (continuar ∷ []) (Conserva-refl k))
  imprime k programa false v h = absurd (none-ne-some v h)

  asignar_variable-Conserva :
      (k : Kernel) (x : VariableCompartida) → Conserva k (asignar_variable dictionary_get k x).0
  unfolding asignar_variable
  asignar_variable-Conserva k x = elim (Option-cases (dictionary_get x.nombre)) [
    | inl nada ↦ rw (asignar_variable, nada) (Conserva-refl k)
    | inr (w, esta) ↦
        rw (asignar_variable, esta)
          (record {
            pids = λ p. refl;
            cuenta = λ p. unfold en_colas en_ejecucion in refl;
            ejecucion = λ p. unfold en_ejecucion in refl;
          })
  ]

  -- Where the program is found in execution and the message brings its own number, each message that
  -- has a step keeps the addresses.
  pub controlar-EsTurno :
      (k : Kernel) (programa : ℕ) (enviado : Bool) (m : MensajeCpu) (v : Vuelta)
      → SeEncuentra k programa
      → TraeSuPid k programa m
      → controlar lib dictionary_get k programa enviado m ≡ some v
      → EsTurno k programa v
  unfolding controlar TraeSuPid imprimir
  controlar-EsTurno k programa enviado (obtener_valor_var_compartida x) v hay suyo h =
      elim (Option-cases (obtener_variable dictionary_get k x)) [
        | inl nada ↦
            subst (EsTurno k programa) (some_inj (rw (controlar, nada) at h))
              (se_queda k programa k (terminar ∷ []) (Conserva-refl k))
        | inr (w, esta) ↦
            subst (EsTurno k programa) (some_inj (rw (controlar, esta) at h))
              (se_queda k programa k (valor_compartida w ∷ []) (Conserva-refl k))
      ]
  controlar-EsTurno k programa enviado (asignar_valor_var_compartida x) v hay suyo h =
      let k1 = (asignar_variable dictionary_get k x).0 in
      let c = asignar_variable-Conserva k x in
      elim (Option-cases (asignar_variable dictionary_get k x).1) [
        | inl nada ↦
            subst (EsTurno k programa) (some_inj (rw (controlar, nada) at h))
              (se_queda k programa k1 (terminar ∷ []) c)
        | inr (w, esta) ↦
            subst (EsTurno k programa) (some_inj (rw (controlar, esta) at h))
              (se_queda k programa k1 (continuar ∷ []) c)
      ]
  controlar-EsTurno k programa enviado (imprimir_kernel x) v hay suyo h =
      imprime k programa enviado v h
  controlar-EsTurno k programa enviado (imprimir_texto_kernel x) v hay suyo h =
      imprime k programa enviado v h
  controlar-EsTurno k programa enviado (entrada_salida_kernel x) v hay suyo h =
      let k1 = con_pcb k programa x.pcb in
      let c = Conserva-Mueve k programa k1 (con_pcb-Conserva k programa x.pcb suyo) in
      let m =
        mandar_a_dispositivo-Mueve lib k1 programa x
          (SeEncuentra-con_pcb k programa x.pcb suyo hay) in
      elim (mandar_a_dispositivo-cases lib k1 x programa) [
        | inl r ↦
            let e : controlar lib dictionary_get k programa enviado (entrada_salida_kernel x)
                ≡ terminar_y_esperar lib dictionary_get k1 programa =
              rw
                (
                  controlar,
                  ap (λ (y : Kernel × MensajeKernel). y.1) r,
                  ap (λ (y : Kernel × MensajeKernel). y.0) r,
                )
                refl in
            espera k1 k programa v c (sym e ∙ h)
        | inr r ↦
            let k2 = (mandar_a_dispositivo lib k1 x programa).0 in
            subst (EsTurno k programa) (some_inj (rw (controlar, r) at h))
              (se_va k programa k2 [] (Mueve-trans k programa k1 k2 c m))
      ]
  controlar-EsTurno k programa enviado (wait_kernel w) v hay suyo h =
      subst (EsTurno k programa) (some_inj h) (record {
        mueve = fn_lock-Mueve lib k programa w hay suyo;
        sigue = λ q e.
            let s = sigue-wait programa q (fn_lock lib k w programa).1 e in
            (s.1, λ p. fn_lock-continuar lib k programa w p s.0);
      })
  controlar-EsTurno k programa enviado (signal_kernel s) v hay suyo h =
      elim (Option-cases (fn_unlock lib k s)) [
        | inl nada ↦ absurd (none-ne-some v (rw (controlar, nada) at h))
        | inr (r, esta) ↦
            subst (EsTurno k programa) (some_inj (rw (controlar, esta) at h))
              (se_queda k programa r.0 (o_terminar r.1 ∷ []) (fn_unlock-Conserva lib k s r esta))
      ]
  controlar-EsTurno k programa enviado (notificar_por_fin_rafaga pcb) v hay suyo h =
      elim (Option-cases (recargar_ready lib k pcb)) [
        | inl nada ↦ absurd (none-ne-some v (rw (controlar, nada) at h))
        | inr (k', esta) ↦
            subst (EsTurno k programa) (some_inj (rw (controlar, esta) at h))
              (se_va k programa k' [] (recargar_ready-Mueve lib k programa pcb k' suyo esta))
      ]
  controlar-EsTurno k programa enviado (notificar_por_fin_programa pcb) v hay suyo h =
      espera k k programa v (Conserva-Mueve k programa k (Conserva-refl k)) h
  controlar-EsTurno k programa enviado (exception texto) v hay suyo h =
      espera k k programa v (Conserva-Mueve k programa k (Conserva-refl k)) h
  controlar-EsTurno k programa enviado ok_cpu v hay suyo h =
      subst (EsTurno k programa) (some_inj h) (record {
        mueve = Conserva-Mueve k programa k (Conserva-refl k);
        sigue = λ q e. absurd (ground (arith, e));
      })
