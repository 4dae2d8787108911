-- ===== src/Kernel/Conexion/Invariante.antt =====
-- A message of a CPU (soporte/ConexionConCPU.c) and the queues of the kernel.
use tp_sistemas_operativos_u.Base.{
  ℕ, ◌≡◌, refl, sym, ap, ◌∙◌, inl, inr, Bool, true, ◌==◌, Option, some, List, [], ◌∷◌, Bytes, any,
  arith, Option-cases, Bool-cases,
}
use mathlib.Core.Path.{subst}
use tp_sistemas_operativos_u.Commons.{ListLib}
use tp_sistemas_operativos_u.Protocolo.{
  Pcb, EntradaSalida, VariableCompartida, valor_compartida, MensajeCpu, MensajeKernel, continuar,
  terminar, obtener_valor_var_compartida, asignar_valor_var_compartida, imprimir_kernel,
  imprimir_texto_kernel, entrada_salida_kernel, wait_kernel, signal_kernel,
  notificar_por_fin_rafaga, notificar_por_fin_programa, exception, ok_cpu,
}
use tp_sistemas_operativos_u.Kernel.{Kernel}
use tp_sistemas_operativos_u.Kernel.Planificador.{
  busca_prog, con_pcb, obtener_variable, asignar_variable, mandar_a_dispositivo,
}
use tp_sistemas_operativos_u.Kernel.Planificador.Invariante.{
  IsKernel, EnEjecucion, con_pcb-IsKernel, mover_a_exit-IsKernel, recargar_ready-IsKernel,
}
use tp_sistemas_operativos_u.Kernel.Planificador.Bloqueos.{fn_lock-IsKernel}
use tp_sistemas_operativos_u.Kernel.Planificador.Seniales.{fn_unlock-IsKernel}
use tp_sistemas_operativos_u.Kernel.Planificador.Dispositivos.{
  mandar_a_dispositivo-cases, mandar_a_dispositivo-IsKernel,
}
use tp_sistemas_operativos_u.Kernel.Conexion.{
  Vuelta, Hilo, controlar, terminar_y_esperar, imprimir, o_terminar,
}

-- The PCB that comes with a message has the number of the program that the thread serves.
unfoldable pub EsDelPrograma : Kernel → ℕ → MensajeCpu → Type 0
EsDelPrograma k programa (entrada_salida_kernel e) = e.pcb.pid ≡ (k.programas programa).pcb.pid
EsDelPrograma k programa (notificar_por_fin_rafaga pcb) = pcb.pid ≡ (k.programas programa).pcb.pid
EsDelPrograma k programa _ = Unit

-- What a step must give.
unfoldable pub TieneVuelta : ℕ → Option Vuelta → Type 0
TieneVuelta n o = (v : Vuelta) × (o ≡ some v) × IsKernel n v.0

-- The write of a PCB that keeps the program's number keeps every program's number.
busca_prog-con_pcb :
    (k : Kernel) (programa : ℕ) (pcb : Pcb) (pid q : ℕ)
    → pcb.pid ≡ (k.programas programa).pcb.pid
    → busca_prog (con_pcb k programa pcb) pid q ≡ busca_prog k pid q
unfolding busca_prog con_pcb
busca_prog-con_pcb k programa pcb pid q e = elim (Bool-cases (q == programa)) [
  | inl si ↦
      let mismo : q ≡ programa = ground arith in
      rw si (ap (λ x. x == pid) (e ∙ ap (λ p. (k.programas p).pcb.pid) (sym mismo)))
  | inr otro ↦ rw otro refl
]

any-igual : (f g : ℕ → Bool) (xs : List ℕ) → ((q : ℕ) → f q ≡ g q) → any f xs ≡ any g xs
any-igual f g [] h = refl
any-igual f g (x ∷ xs) h = rw (h x, any-igual f g xs h) refl

EnEjecucion-con_pcb :
    (k : Kernel) (programa : ℕ) (pcb : Pcb)
    → pcb.pid ≡ (k.programas programa).pcb.pid
    → EnEjecucion k (k.programas programa).pcb.pid
    → EnEjecucion (con_pcb k programa pcb) ((con_pcb k programa pcb).programas programa).pcb.pid
unfolding EnEjecucion
EnEjecucion-con_pcb k programa pcb e h =
    let mismo : ((con_pcb k programa pcb).programas programa).pcb.pid
        ≡ (k.programas programa).pcb.pid =
      unfold con_pcb in (let si : (programa == programa) ≡ true = ground arith in rw si e) in
    rw mismo (
      unfold con_pcb in
      any-igual (busca_prog (con_pcb k programa pcb) (k.programas programa).pcb.pid)
        (busca_prog k (k.programas programa).pcb.pid) k.lista_exec
        (λ q. busca_prog-con_pcb k programa pcb _ q e)
      ∙ h)

module _ (lib : (A : Type 0) → ListLib A) (dictionary_get : Bytes → Option ℕ) where
  sale_y_espera :
      (n : ℕ) (k : Kernel) (programa : ℕ)
      → IsKernel n k
      → EnEjecucion k (k.programas programa).pcb.pid
      → TieneVuelta n (terminar_y_esperar lib dictionary_get k programa)
  unfolding TieneVuelta terminar_y_esperar
  sale_y_espera n k programa i h =
      let m = mover_a_exit-IsKernel lib n k programa i h in
      ((m.0, Hilo.esperando, []), rw m.1 refl, m.2)

  asignar_variable-IsKernel :
      (n : ℕ) (k : Kernel) (v : VariableCompartida)
      → IsKernel n k
      → IsKernel n (asignar_variable dictionary_get k v).0
  unfolding asignar_variable
  asignar_variable-IsKernel n k v i = elim (Option-cases (dictionary_get v.nombre)) [
    | inl nada ↦ rw (asignar_variable, nada) i
    | inr (x, hay) ↦
        rw (asignar_variable, hay)
          (record {
            listos = i.listos;
            salidas = i.salidas;
            semaforos = i.semaforos;
            dispositivos = i.dispositivos;
            nivel = i.nivel;
          })
  ]

  a_dispositivo :
      (n : ℕ) (k : Kernel) (programa : ℕ) (enviado : Bool) (e : EntradaSalida)
      → IsKernel n k
      → EnEjecucion k (k.programas programa).pcb.pid
      → e.pcb.pid ≡ (k.programas programa).pcb.pid
      → TieneVuelta n (controlar lib dictionary_get k programa enviado (entrada_salida_kernel e))
  unfolding controlar
  a_dispositivo n k programa enviado e i h mismo =
      let k1 = con_pcb k programa e.pcb in
      let i1 = con_pcb-IsKernel n k programa e.pcb i in
      let h1 = EnEjecucion-con_pcb k programa e.pcb mismo h in
      let m = mandar_a_dispositivo-IsKernel lib n k1 e programa i1 h1 in
      unfold TieneVuelta in
      elim (mandar_a_dispositivo-cases lib k1 e programa) [
        | inl r ↦
            rw
              (
                controlar,
                ap (λ (x : Kernel × MensajeKernel). x.1) r,
                ap (λ (x : Kernel × MensajeKernel). x.0) r,
              )
              (sale_y_espera n k1 programa i1 h1)
        | inr r ↦ (
          ((mandar_a_dispositivo lib k1 e programa).0, Hilo.esperando, []),
          rw (controlar, r) refl,
          m,
        )
      ]

  -- Where the program that the thread serves is in execution, its PCB comes back under its own
  -- number and its console can be reached, every message has a step, and the step keeps the
  -- invariant of the queues.
  pub controlar-IsKernel :
      (n : ℕ) (k : Kernel) (programa : ℕ) (m : MensajeCpu)
      → IsKernel n k
      → EnEjecucion k (k.programas programa).pcb.pid
      → EsDelPrograma k programa m
      → TieneVuelta n (controlar lib dictionary_get k programa true m)
  unfolding TieneVuelta controlar EsDelPrograma imprimir
  controlar-IsKernel n k programa (obtener_valor_var_compartida v) i h t =
      elim (Option-cases (obtener_variable dictionary_get k v)) [
        | inl nada ↦ ((k, Hilo.atendiendo programa, terminar ∷ []), rw (controlar, nada) refl, i)
        | inr (x, hay) ↦
            ((k, Hilo.atendiendo programa, valor_compartida x ∷ []), rw (controlar, hay) refl, i)
      ]
  controlar-IsKernel n k programa (asignar_valor_var_compartida v) i h t =
      let a = asignar_variable-IsKernel n k v i in
      elim (Option-cases (asignar_variable dictionary_get k v).1) [
        | inl nada ↦ (
          ((asignar_variable dictionary_get k v).0, Hilo.atendiendo programa, terminar ∷ []),
          rw (controlar, nada) refl,
          a,
        )
        | inr (x, hay) ↦ (
          ((asignar_variable dictionary_get k v).0, Hilo.atendiendo programa, continuar ∷ []),
          rw (controlar, hay) refl,
          a,
        )
      ]
  controlar-IsKernel n k programa (imprimir_kernel v) i h t =
      ((k, Hilo.atendiendo programa, continuar ∷ []), refl, i)
  controlar-IsKernel n k programa (imprimir_texto_kernel v) i h t =
      ((k, Hilo.atendiendo programa, continuar ∷ []), refl, i)
  controlar-IsKernel n k programa (entrada_salida_kernel e) i h t =
      a_dispositivo n k programa true e i h t
  controlar-IsKernel n k programa (wait_kernel w) i h t =
      (_, refl, fn_lock-IsKernel lib n k w programa i h)
  controlar-IsKernel n k programa (signal_kernel s) i h t =
      let u = fn_unlock-IsKernel lib n k s i in
      ((u.0.0, Hilo.atendiendo programa, o_terminar u.0.1 ∷ []), rw (controlar, u.1) refl, u.2)
  controlar-IsKernel n k programa (notificar_por_fin_rafaga pcb) i h t =
      let r = recargar_ready-IsKernel lib n k pcb i (subst (EnEjecucion k) (sym t) h) in
      ((r.0, Hilo.esperando, []), rw (controlar, r.1) refl, r.2)
  controlar-IsKernel n k programa (notificar_por_fin_programa pcb) i h t =
      sale_y_espera n k programa i h
  controlar-IsKernel n k programa (exception texto) i h t = sale_y_espera n k programa i h
  controlar-IsKernel n k programa ok_cpu i h t = (_, refl, i)
