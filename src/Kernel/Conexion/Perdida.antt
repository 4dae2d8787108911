-- ===== src/Kernel/Conexion/Perdida.antt =====
-- A wait on a semaphore that the configuration does not name.
use tp_sistemas_operativos_u.Base.{
  ℕ, ◌≡◌, ◌<◌, refl, Bool, Option, none, some, [], ◌∷◌, ◌++◌, Bytes, find,
}
use tp_sistemas_operativos_u.Commons.{ListLib}
use tp_sistemas_operativos_u.Protocolo.{MsjWait, terminar, atende_proceso, wait_kernel}
use tp_sistemas_operativos_u.Kernel.{Kernel}
use tp_sistemas_operativos_u.Kernel.Planificador.{mismo_texto}
use tp_sistemas_operativos_u.Kernel.Planificador.Invariante.{IsKernel}
use tp_sistemas_operativos_u.Kernel.Planificador.Bloqueos.{fn_lock-none}
use tp_sistemas_operativos_u.Kernel.Planificador.Colas.{sacar_de_ready-IsKernel}
use tp_sistemas_operativos_u.Kernel.Conexion.{
  Hilo, controlar, atender_siguiente, seguir_tras_wait, o_terminar,
}

module _ (lib : (A : Type 0) → ListLib A) (dictionary_get : Bytes → Option ℕ) where
  -- Under the invariant of the queues, where no semaphore has the name and some program is ready: the
  -- CPU is told to end its program while the queues stay as they are, and the thread takes another
  -- one, at which neither the exit queue nor its semaphore changes.
  pub wait-perdido :
      (n : ℕ) (k : Kernel) (programa : ℕ) (enviado : Bool) (w : MsjWait)
      → IsKernel n k
      → 0 < k.productor_consumidor
      → find (λ s. mismo_texto s.sz_semaforo w.semaforo) k.list_smfrs ≡ none
      → (k' : Kernel) × (otro : ℕ) × (controlar lib dictionary_get k programa enviado
            (wait_kernel w)
          ≡ some (k, Hilo.esperando, terminar ∷ []))
        × (atender_siguiente lib dictionary_get k
            ≡ some (k', Hilo.atendiendo otro, atende_proceso (k'.programas otro).pcb ∷ []))
        × (k'.lista_exec ≡ k.lista_exec ++ otro ∷ [])
        × (k'.exit_procesos ≡ k.exit_procesos)
        × (k'.semaforo_exit ≡ k.semaforo_exit)
  unfolding controlar atender_siguiente seguir_tras_wait o_terminar
  wait-perdido n k programa enviado w i hay nada =
      let s = sacar_de_ready-IsKernel lib n k i hay in
      (
        s.0.0,
        s.0.1,
        rw (controlar, fn_lock-none lib k w programa nada) refl,
        rw (atender_siguiente, s.1) refl,
        s.2,
        s.3,
        s.4,
      )
