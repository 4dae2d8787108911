-- ===== src/Kernel/Sistema/Perdida.antt =====
-- A wait on a semaphore that the configuration does not name, in soporte/ConexionConCPU.c, among all the
-- threads of the kernel.
use tp_sistemas_operativos_u.Base.{
  ℕ, ◌+◌, ◌≡◌, ◌≢◌, ◌<◌, refl, sym, ap, ◌∙◌, Bool, Option, none, some, [], ◌∷◌, ◌++◌, Bytes, find,
  arith, inl, inr,
}
use mathlib.Core.Path.{subst}
use tp_sistemas_operativos_u.Commons.{ListLib}
use tp_sistemas_operativos_u.Protocolo.{MsjWait, terminar, atende_proceso, wait_kernel}
use tp_sistemas_operativos_u.Kernel.Planificador.{mismo_texto}
use tp_sistemas_operativos_u.Kernel.Conexion.{
  Vuelta, esperando, atendiendo, controlar, atender_siguiente,
}
use tp_sistemas_operativos_u.Kernel.Conexion.Perdida.{wait-perdido}
use tp_sistemas_operativos_u.Kernel.Sistema.{Sistema, con_hilo, con_vuelta, TraeSuPid}
use tp_sistemas_operativos_u.Kernel.Sistema.Sumas.{uno, suma, suma-uno_mas}
use tp_sistemas_operativos_u.Kernel.Sistema.Cuenta.{en_ejecucion, uno-mismo}
use tp_sistemas_operativos_u.Kernel.Sistema.Invariante.{
  EsSistema, ejecucion-apariciones, con_hilo-cases, atendiendo-inj,
}
use tp_sistemas_operativos_u.Kernel.Sistema.Hilos.{recibe_de_cpu-EsSistema, atiende-EsSistema}

module _ (lib : (A : Type 0) → ListLib A) (dictionary_get : Bytes → Option ℕ) where
  -- Where the threads keep the invariant of the system and some program is ready, a program that a
  -- thread serves waits, with its own number, on a name that no semaphore has: the CPU is told to end
  -- it, the thread takes another program, and the invariant is kept; but the first one is still in
  -- execution, once, neither the queue of those that end nor its semaphore has changed, and no thread
  -- serves it.
  pub wait-sin_hilo :
      (n : ℕ) (s : Sistema) (i programa : ℕ) (enviado : Bool) (w : MsjWait)
      → EsSistema n s
      → s.hilos i ≡ atendiendo programa
      → TraeSuPid s.kernel programa (wait_kernel w)
      → find (λ x. mismo_texto x.sz_semaforo w.semaforo) s.kernel.list_smfrs ≡ none
      → 0 < s.kernel.productor_consumidor
      → (v v' : Vuelta) × (controlar lib dictionary_get s.kernel programa enviado (wait_kernel w)
          ≡ some v)
        × (v.2 ≡ terminar ∷ [])
        × (atender_siguiente lib dictionary_get (con_vuelta s i v).kernel ≡ some v')
        × (let t = con_vuelta (con_vuelta s i v) i v' in
            EsSistema n t
            × (en_ejecucion programa t.kernel ≡ 1)
            × (t.kernel.exit_procesos ≡ s.kernel.exit_procesos)
            × (t.kernel.semaforo_exit ≡ s.kernel.semaforo_exit)
            × ((j : ℕ) → t.hilos j ≢ atendiendo programa))
  unfolding con_hilo
  wait-sin_hilo n s i programa enviado w h sirve suyo nada hay =
      let p = wait-perdido lib dictionary_get n s.kernel programa enviado w h.colas hay nada in
      let v : Vuelta = (s.kernel, esperando, terminar ∷ []) in
      let v' : Vuelta = (p.0, atendiendo p.1, atende_proceso (p.0.programas p.1).pcb ∷ []) in
      let h1 =
        recibe_de_cpu-EsSistema lib dictionary_get n s i programa enviado (wait_kernel w) v h sirve
          suyo p.2 in
      let a : atender_siguiente lib dictionary_get (con_vuelta s i v).kernel ≡ some v' =
        unfold con_vuelta in p.3 in
      let h2 = atiende-EsSistema lib dictionary_get n (con_vuelta s i v) i v' h1 a in
      let t = con_vuelta (con_vuelta s i v) i v' in
      let k : t.kernel.lista_exec ≡ s.kernel.lista_exec ++ p.1 ∷ [] = unfold con_vuelta in p.4 in
      let una : en_ejecucion programa t.kernel ≡ en_ejecucion programa s.kernel + uno programa p.1 =
        unfold en_ejecucion in
        (ap (suma (uno programa)) k ∙ suma-uno_mas (uno programa) s.kernel.lista_exec p.1) in
      let esta = h.servidos i programa sirve in
      let tope = h2.una_vez programa in
      let menos = ejecucion-apariciones t programa in
      (
        v,
        v',
        p.2,
        refl,
        a,
        (
          h2,
          omega (arith, una, esta, tope, menos),
          unfold con_vuelta in p.5,
          unfold con_vuelta in p.6,
          λ j e.
              elim (con_hilo-cases (con_vuelta s i v) i j (atendiendo p.1) (atendiendo programa)
                (unfold con_vuelta in e)) [
                  | inl (m, x) ↦
                      let mismo : p.1 ≡ programa = atendiendo-inj p.1 programa x in
                      let doble : uno programa p.1 ≡ 1 =
                        subst (λ (z : ℕ). uno programa z ≡ 1) (sym mismo) (uno-mismo programa) in
                      absurd (omega (arith, una, esta, tope, menos, doble))
                  | inr (m, x) ↦
                      elim (con_hilo-cases s i j esperando (atendiendo programa)
                        (unfold con_vuelta in x)) [
                          | inl (q, y) ↦ absurd (m q)
                          | inr (q, y) ↦ absurd (m (h.exclusivos j i programa y sirve))
                        ]
                ],
        ),
      )
