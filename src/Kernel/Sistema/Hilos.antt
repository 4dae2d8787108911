-- ===== src/Kernel/Sistema/Hilos.antt =====
-- The threads that serve a CPU (soporte/ConexionConCPU.c), among the others.
use tp_sistemas_operativos_u.Base.{
  ℕ, ◌-◌, ◌≡◌, refl, sym, ◌∙◌, ltb, ltb→lt, Bool, true, false, Option, none, some, [], ◌∷◌, Bytes,
  arith, Bool-cases, Option-cases, some_inj, inl, inr,
}
use mathlib.Core.Path.{subst}
use mathlib.Core.Option.{none-ne-some}
use tp_sistemas_operativos_u.Commons.{ListLib}
use tp_sistemas_operativos_u.Protocolo.{
  MensajeCpu, imprimir_kernel, imprimir_texto_kernel, entrada_salida_kernel,
  notificar_por_fin_rafaga, atende_proceso,
}
use tp_sistemas_operativos_u.Kernel.{Kernel}
use tp_sistemas_operativos_u.Kernel.Planificador.{sacar_de_ready}
use tp_sistemas_operativos_u.Kernel.Planificador.Invariante.{IsKernel, mover_a_exit-IsKernel}
use tp_sistemas_operativos_u.Kernel.Planificador.Colas.{sacar_de_ready-IsKernel}
use tp_sistemas_operativos_u.Kernel.Conexion.{
  Vuelta, atendiendo, terminado, controlar, atender_siguiente, desconectar, imprimir,
}
use tp_sistemas_operativos_u.Kernel.Conexion.Invariante.{
  TieneVuelta, EsDelPrograma, controlar-IsKernel,
}
use tp_sistemas_operativos_u.Kernel.Sistema.{Sistema, TraeSuPid, con_vuelta}
use tp_sistemas_operativos_u.Kernel.Sistema.Sumas.{uno}
use tp_sistemas_operativos_u.Kernel.Sistema.Cuenta.{
  en_ejecucion, en_colas, uno-mismo, mover_a_exit-Mueve, list_add-uno_mas, quita_primero,
}
use tp_sistemas_operativos_u.Kernel.Sistema.Turno.{EsTurno, controlar-EsTurno}
use tp_sistemas_operativos_u.Kernel.Sistema.Invariante.{
  apariciones, EsSistema, EsSistema-SeEncuentra, con_vuelta-EsSistema, toma-EsSistema,
}

TraeSuPid-EsDelPrograma :
    (k : Kernel) (programa : ℕ) (m : MensajeCpu)
    → TraeSuPid k programa m
    → EsDelPrograma k programa m
unfolding TraeSuPid EsDelPrograma
TraeSuPid-EsDelPrograma k programa (entrada_salida_kernel e) h = h
TraeSuPid-EsDelPrograma k programa (notificar_por_fin_rafaga pcb) h = h
TraeSuPid-EsDelPrograma k programa m h = tt

controlar-enviado :
    (lib : (A : Type 0) → ListLib A) (dictionary_get : Bytes → Option ℕ) (k : Kernel) (programa : ℕ)
    (enviado : Bool) (m : MensajeCpu) (v : Vuelta)
    → controlar lib dictionary_get k programa enviado m ≡ some v
    → controlar lib dictionary_get k programa true m ≡ some v
unfolding controlar imprimir
controlar-enviado lib dictionary_get k programa true m v e = e
controlar-enviado lib dictionary_get k programa false (imprimir_kernel x) v e =
    absurd (none-ne-some v e)
controlar-enviado lib dictionary_get k programa false (imprimir_texto_kernel x) v e =
    absurd (none-ne-some v e)
controlar-enviado lib dictionary_get k programa false m v e = e

module _ (lib : (A : Type 0) → ListLib A) (dictionary_get : Bytes → Option ℕ) where
  -- Under the invariant of the system a message has a step.
  pub EsSistema-vuelta :
      (n : ℕ) (s : Sistema) (i programa : ℕ) (m : MensajeCpu)
      → EsSistema n s
      → s.hilos i ≡ atendiendo programa
      → TraeSuPid s.kernel programa m
      → (v : Vuelta) × (controlar lib dictionary_get s.kernel programa true m ≡ some v)
        × IsKernel n v.0
  unfolding TieneVuelta
  EsSistema-vuelta n s i programa m h sirve suyo =
      controlar-IsKernel lib dictionary_get n s.kernel programa m h.colas
        (EsSistema-SeEncuentra n s programa h (h.servidos i programa sirve)).0
        (TraeSuPid-EsDelPrograma s.kernel programa m suyo)

  pub recibe_de_cpu-EsSistema :
      (n : ℕ) (s : Sistema) (i programa : ℕ) (enviado : Bool) (m : MensajeCpu) (v : Vuelta)
      → EsSistema n s
      → s.hilos i ≡ atendiendo programa
      → TraeSuPid s.kernel programa m
      → controlar lib dictionary_get s.kernel programa enviado m ≡ some v
      → EsSistema n (con_vuelta s i v)
  recibe_de_cpu-EsSistema n s i programa enviado m v h sirve suyo e =
      let f = EsSistema-SeEncuentra n s programa h (h.servidos i programa sirve) in
      let r = EsSistema-vuelta n s i programa m h sirve suyo in
      let c : IsKernel n v.0 =
        subst (λ (z : Vuelta). IsKernel n z.0)
          (some_inj
            (sym r.1 ∙ controlar-enviado lib dictionary_get s.kernel programa enviado m v e))
          r.2 in
      con_vuelta-EsSistema n s i programa v h sirve
        (controlar-EsTurno lib dictionary_get s.kernel programa enviado m v f.1 suyo e) c

  pub desconecta-EsSistema :
      (n : ℕ) (s : Sistema) (i programa : ℕ) (v : Vuelta)
      → EsSistema n s
      → s.hilos i ≡ atendiendo programa
      → desconectar lib dictionary_get s.kernel programa ≡ some v
      → EsSistema n (con_vuelta s i v)
  unfolding desconectar
  desconecta-EsSistema n s i programa v h sirve e =
      let f = EsSistema-SeEncuentra n s programa h (h.servidos i programa sirve) in
      let r = mover_a_exit-IsKernel lib n s.kernel programa h.colas f.0 in
      let w : Vuelta = (r.0, terminado, []) in
      let g : desconectar lib dictionary_get s.kernel programa ≡ some w =
        rw (desconectar, r.1) refl in
      let t : EsTurno s.kernel programa w = record {
        mueve = mover_a_exit-Mueve lib s.kernel programa r.0 r.1;
        sigue = λ q x. absurd (ground (arith, x));
      } in
      subst (λ (z : Vuelta). EsSistema n (con_vuelta s i z)) (some_inj (sym g ∙ e))
        (con_vuelta-EsSistema n s i programa w h sirve t r.2)

  pub atiende-EsSistema :
      (n : ℕ) (s : Sistema) (i : ℕ) (v : Vuelta)
      → EsSistema n s
      → atender_siguiente lib dictionary_get s.kernel ≡ some v
      → EsSistema n (con_vuelta s i v)
  unfolding atender_siguiente sacar_de_ready
  atiende-EsSistema n s i v h e = elim (Bool-cases (ltb 0 s.kernel.productor_consumidor)) [
    | inr cerrado ↦
        let f : atender_siguiente lib dictionary_get s.kernel ≡ none =
          rw (atender_siguiente, sacar_de_ready, cerrado) refl in
        absurd (none-ne-some v (sym f ∙ e))
    | inl abierto ↦ elim (Option-cases ((lib ℕ).list_remove 0 s.kernel.lista_ready).0) [
      | inl vacia ↦
          let f : atender_siguiente lib dictionary_get s.kernel ≡ none =
            rw (atender_siguiente, sacar_de_ready, abierto, vacia) refl in
          absurd (none-ne-some v (sym f ∙ e))
      | inr (x, primero) ↦
          let k1 : Kernel = record s.kernel {
            lista_ready = ((lib ℕ).list_remove 0 s.kernel.lista_ready).1;
            lista_exec = (lib ℕ).list_add s.kernel.lista_exec x;
            productor_consumidor = s.kernel.productor_consumidor - 1;
          } in
          let f : sacar_de_ready lib s.kernel ≡ some (k1, x) =
            rw (sacar_de_ready, abierto, primero) refl in
          let w : Vuelta = (k1, atendiendo x, atende_proceso (s.kernel.programas x).pcb ∷ []) in
          let g : atender_siguiente lib dictionary_get s.kernel ≡ some w =
            rw (atender_siguiente, f) refl in
          let r = sacar_de_ready-IsKernel lib n s.kernel h.colas (ltb→lt _ _ abierto) in
          let c : IsKernel n k1 =
            subst (λ (z : Kernel × ℕ). IsKernel n z.0) (some_inj (sym r.1 ∙ f)) r.5 in
          subst (λ (z : Vuelta). EsSistema n (con_vuelta s i z)) (some_inj (sym g ∙ e))
            (unfold con_vuelta in
              toma-EsSistema n s i x k1 h c (λ p. refl)
                (λ p.
                  let q = quita_primero lib (uno p) s.kernel.lista_ready x primero in
                  let a = list_add-uno_mas lib (uno p) s.kernel.lista_exec x in
                  unfold en_colas en_ejecucion in omega (arith, q, a))
                (λ p. unfold en_ejecucion in list_add-uno_mas lib (uno p) s.kernel.lista_exec x)
                (let q = quita_primero lib (uno x) s.kernel.lista_ready x primero in
                  let v = h.una_vez x in
                  unfold apariciones en_colas in omega (arith, q, uno-mismo x, v)))
    ]
  ]
