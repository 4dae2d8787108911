-- ===== src/Kernel/Sistema/Alcanzable.antt =====
-- Every state that the threads of the kernel (kernelMain.c) reach, in any order of their steps, where
-- no thread comes into a step of another.
use tp_sistemas_operativos_u.Kernel.Sistema.Llegada.{recibe-EsSistema}
use tp_sistemas_operativos_u.Base.{
  ℕ, ◌≡◌, ◌≤◌, sym, ◌∙◌, true, some_inj, Option, some, Bytes, arith,
}
use mathlib.Core.Path.{subst}
use tp_sistemas_operativos_u.Commons.{ListLib, SortLib, DictLib}
use tp_sistemas_operativos_u.Protocolo.{MensajeCpu}
use tp_sistemas_operativos_u.Kernel.{Kernel, Programa, Prog, ℤ}
use tp_sistemas_operativos_u.Kernel.Planificador.Invariante.{IsKernel}
use tp_sistemas_operativos_u.Kernel.Conexion.{Vuelta, atendiendo, controlar}
use tp_sistemas_operativos_u.Kernel.Sistema.Turno.{controlar-EsTurno}
use tp_sistemas_operativos_u.Kernel.Sistema.{
  Metadata, Sistema, Paso, recibe, planifica, termina, vuelve, conecta, atiende, recibe_de_cpu,
  desconecta, Alcanza, inicio, sigue, arranque, TraeSuPid,
}
use tp_sistemas_operativos_u.Kernel.Configuracion.{Configuracion, inicializador}
use tp_sistemas_operativos_u.Kernel.Sistema.Cuenta.{en_ejecucion, en_colas, pid_de}
use tp_sistemas_operativos_u.Kernel.Sistema.Invariante.{
  EsSistema, EsSistema-SeEncuentra, apariciones, ejecucion-apariciones, conecta-EsSistema,
}
use tp_sistemas_operativos_u.Kernel.Sistema.Pasos.{
  termina-EsSistema, vuelve-EsSistema, planifica-EsSistema,
}
use tp_sistemas_operativos_u.Kernel.Sistema.Hilos.{
  EsSistema-vuelta, recibe_de_cpu-EsSistema, desconecta-EsSistema, atiende-EsSistema,
}
use tp_sistemas_operativos_u.Kernel.Sistema.Inicio.{EsConfiguracion, inicializador-EsSistema}

module _ (lib : (A : Type 0) → ListLib A) (sort : SortLib Prog) (dictionary_get : Bytes → Option ℕ)
    (metadata_desde_literal : Bytes → Metadata) (stack : ℕ) where
  -- A step of any thread keeps the invariant of the system.
  pub Paso-EsSistema :
      (n : ℕ) (s t : Sistema)
      → EsSistema n s
      → Paso lib sort dictionary_get metadata_desde_literal stack s t
      → EsSistema n t
  Paso-EsSistema n s t h (recibe basura archivo socket e) =
      recibe-EsSistema lib metadata_desde_literal basura n s t archivo socket h e
  Paso-EsSistema n s t h (planifica u u' nueva e) =
      planifica-EsSistema lib sort n s t u u' nueva stack h e
  Paso-EsSistema n s t h (termina k programa e f) =
      subst (EsSistema n) (sym f) (termina-EsSistema lib n s k programa h e)
  Paso-EsSistema n s t h (vuelve k nombre e f) =
      subst (EsSistema n) (sym f) (vuelve-EsSistema lib n s k nombre h e)
  Paso-EsSistema n s t h (conecta i e f) = subst (EsSistema n) (sym f) (conecta-EsSistema n s i h)
  Paso-EsSistema n s t h (atiende i v e g f) =
      subst (EsSistema n) (sym f) (atiende-EsSistema lib dictionary_get n s i v h g)
  Paso-EsSistema n s t h (recibe_de_cpu i programa enviado m v e suyo g f) =
      subst (EsSistema n) (sym f)
        (recibe_de_cpu-EsSistema lib dictionary_get n s i programa enviado m v h e suyo g)
  Paso-EsSistema n s t h (desconecta i programa v e g f) =
      subst (EsSistema n) (sym f) (desconecta-EsSistema lib dictionary_get n s i programa v h e g)

  Alcanza-EsSistema :
      (n : ℕ) {s t : Sistema}
      → EsSistema n s
      → Alcanza lib sort dictionary_get metadata_desde_literal stack s t
      → EsSistema n t
  Alcanza-EsSistema n h inicio = h
  Alcanza-EsSistema n h (sigue {t} {u} r p) = Paso-EsSistema n t u (Alcanza-EsSistema n h r) p

-- What the states have in common that the threads reach from the start that a configuration gives.
module _ {D : Type 0} (dict : DictLib D) (atoi : Bytes → ℤ) (vacio : D)
    (lib : (A : Type 0) → ListLib A) (sort : SortLib Prog)
    (metadata_desde_literal : Bytes → Metadata) (stack : ℕ) where
  desde_el_inicio :
      (c : Configuracion) (programas : ℕ → Programa) (r : Kernel × D) (t : Sistema)
      → EsConfiguracion atoi c
      → inicializador dict atoi vacio c programas ≡ some r
      → Alcanza lib sort (dict.dictionary_get r.1) metadata_desde_literal stack (arranque r.0) t
      → EsSistema c.multiprogramacion t
  desde_el_inicio c programas r t h e a =
      let i = inicializador-EsSistema dict atoi vacio c programas h in
      Alcanza-EsSistema lib sort (dict.dictionary_get r.1) metadata_desde_literal stack
        c.multiprogramacion
        (subst (λ (z : Kernel × D). EsSistema c.multiprogramacion (arranque z.0))
          (some_inj (sym i.1 ∙ e)) i.2)
        a

  -- From the state that a configuration gives, whose names fit, with a value for each and no
  -- semaphore below 0, where CPUs send their program's own number, and where the threads come one
  -- after the other in any order, but no thread comes between two waits or messages of another
  -- (which the code does not prevent in `fnLock` and `fnUnlock`): the semaphores count the queues,
  -- and the programs let in and the places left are the configured level of multiprogramming; no
  -- program stands twice among those that have arrived and the queues; and one that a thread serves
  -- is in execution once, and no other thread serves it.
  pub Alcanza-exclusivos :
      (c : Configuracion) (programas : ℕ → Programa) (r : Kernel × D) (t : Sistema)
      → EsConfiguracion atoi c
      → inicializador dict atoi vacio c programas ≡ some r
      → Alcanza lib sort (dict.dictionary_get r.1) metadata_desde_literal stack (arranque r.0) t
      → IsKernel c.multiprogramacion t.kernel
        × ((p : ℕ) → apariciones p t ≤ 1)
        × ((i j p : ℕ)
            → t.hilos i ≡ atendiendo p
            → t.hilos j ≡ atendiendo p
            → (i ≡ j) × (en_ejecucion p t.kernel ≡ 1))
  Alcanza-exclusivos c programas r t h e a =
      let g = desde_el_inicio c programas r t h e a in
      (
        g.colas,
        g.una_vez,
        λ i j p x y. (
          g.exclusivos i j p x y,
          omega (arith, g.servidos i p x, g.una_vez p, ejecucion-apariciones t p),
        ),
      )

  -- From the same start, in every state that the threads reach in such an order, of which none is in
  -- the middle of a step: a message that comes with its program's own number has a step in the thread
  -- that serves the program, where the program's console can be reached; and the step, taken without
  -- another thread in it, keeps the invariant of the queues, every program's number, and how often
  -- each address stands in the queues.
  pub Alcanza-vuelta :
      (c : Configuracion) (programas : ℕ → Programa) (r : Kernel × D) (t : Sistema) (i programa : ℕ)
      (m : MensajeCpu)
      → EsConfiguracion atoi c
      → inicializador dict atoi vacio c programas ≡ some r
      → Alcanza lib sort (dict.dictionary_get r.1) metadata_desde_literal stack (arranque r.0) t
      → t.hilos i ≡ atendiendo programa
      → TraeSuPid t.kernel programa m
      → (v : Vuelta) × (controlar lib (dict.dictionary_get r.1) t.kernel programa true m ≡ some v)
        × IsKernel c.multiprogramacion v.0
        × ((p : ℕ) → pid_de v.0 p ≡ pid_de t.kernel p)
        × ((p : ℕ) → en_colas p v.0 ≡ en_colas p t.kernel)
  Alcanza-vuelta c programas r t i programa m h e a sirve suyo =
      let g = desde_el_inicio c programas r t h e a in
      let f =
        EsSistema-SeEncuentra c.multiprogramacion t programa g (g.servidos i programa sirve) in
      let w =
        EsSistema-vuelta lib (dict.dictionary_get r.1) c.multiprogramacion t i programa m g sirve
          suyo in
      let u =
        controlar-EsTurno lib (dict.dictionary_get r.1) t.kernel programa true m w.0 f.1 suyo w.1 in
      (w.0, w.1, w.2, u.mueve.pids, u.mueve.cuenta)
