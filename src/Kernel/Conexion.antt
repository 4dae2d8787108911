-- ===== src/Kernel/Conexion.antt =====
-- `pfnControladorConexion` of kernel/src/soporte/ConexionConCPU.c: the thread that serves one CPU,
-- one message at a time. The texts for the program's own console and the logs are left out.
pub mod Invariante
pub mod Perdida
use tp_sistemas_operativos_u.Base.{
  ℕ, Bool, true, false, if◌then◌else◌, ◌>>=◌, Option, none, some, List, [], ◌∷◌, Bytes,
}
use tp_sistemas_operativos_u.Commons.{ListLib}
use tp_sistemas_operativos_u.Protocolo.{
  MensajeCpu, MensajeKernel, EntradaSalida, MsjWait, Pcb, continuar, bloquear, terminar,
  atende_proceso, valor_compartida, obtener_valor_var_compartida, asignar_valor_var_compartida,
  imprimir_kernel, imprimir_texto_kernel, entrada_salida_kernel, wait_kernel, signal_kernel,
  notificar_por_fin_rafaga, notificar_por_fin_programa, exception, ok_cpu,
}
use tp_sistemas_operativos_u.Kernel.{Kernel}
use tp_sistemas_operativos_u.Kernel.Planificador.{
  con_pcb, obtener_variable, asignar_variable, mover_a_exit, recargar_ready, fn_lock, fn_unlock,
  mandar_a_dispositivo, sacar_de_ready,
}

-- The thread serves the program at an address, waits for one that is ready, or has ended.
pub data Hilo : Type 0 where
  atendiendo : ℕ → Hilo
  esperando : Hilo
  terminado : Hilo

-- The state, the thread, and what was sent to the CPU.
abbrev pub Vuelta : Type 0
Vuelta = Kernel × Hilo × List MensajeKernel

-- `imrpimirTexto` and `imrpimirVariable` answer with a literal where `send` to the program fails,
-- and the thread then frees it, which C leaves undefined.
unfoldable pub imprimir : Kernel → ℕ → Bool → Option Vuelta
imprimir k programa enviado =
    if enviado then some (k, atendiendo programa, continuar ∷ []) else none

unfoldable pub o_terminar : Option MensajeKernel → MensajeKernel
o_terminar (some m) = m
o_terminar none = terminar

-- Where a wait ends, `iOperacion != continuar` sends the thread for another program.
unfoldable pub seguir_tras_wait : ℕ → MensajeKernel → Hilo
seguir_tras_wait programa continuar = atendiendo programa
seguir_tras_wait programa _ = esperando

module _ (lib : (A : Type 0) → ListLib A) (dictionary_get : Bytes → Option ℕ) where
  -- The program leaves, and the thread goes for another one.
  unfoldable pub terminar_y_esperar : Kernel → ℕ → Option Vuelta
  terminar_y_esperar k programa = do k' ← mover_a_exit lib k programa; some (k', esperando, [])

  -- One message. `enviado` is whether `send` to the program's console succeeds.
  unfoldable pub controlar : Kernel → ℕ → Bool → MensajeCpu → Option Vuelta
  controlar k programa enviado (obtener_valor_var_compartida nombre) =
      elim (obtener_variable dictionary_get k nombre) [
        | none ↦ some (k, atendiendo programa, terminar ∷ [])
        | some valor ↦ some (k, atendiendo programa, valor_compartida valor ∷ [])
      ]
  controlar k programa enviado (asignar_valor_var_compartida v) =
      let r = asignar_variable dictionary_get k v in
      elim r.1 [
        | none ↦ some (r.0, atendiendo programa, terminar ∷ [])
        | some valor ↦ some (r.0, atendiendo programa, continuar ∷ [])
      ]
  controlar k programa enviado (imprimir_kernel valor) = imprimir k programa enviado
  controlar k programa enviado (imprimir_texto_kernel texto) = imprimir k programa enviado
  controlar k programa enviado (entrada_salida_kernel e) =
      let r = mandar_a_dispositivo lib (con_pcb k programa e.pcb) e programa in
      elim r.1 [ terminar ↦ terminar_y_esperar r.0 programa | _ ↦ some (r.0, esperando, []) ]
  controlar k programa enviado (wait_kernel w) =
      let r = fn_lock lib k w programa in
      some (r.0, seguir_tras_wait programa (o_terminar r.1), o_terminar r.1 ∷ [])
  controlar k programa enviado (signal_kernel semaforo) = do
    (k', r) ← fn_unlock lib k semaforo
    some (k', atendiendo programa, o_terminar r ∷ [])
  controlar k programa enviado (notificar_por_fin_rafaga pcb) = do
    k' ← recargar_ready lib k pcb
    some (k', esperando, [])
  controlar k programa enviado (notificar_por_fin_programa pcb) = terminar_y_esperar k programa
  controlar k programa enviado (exception texto) = terminar_y_esperar k programa
  controlar k programa enviado ok_cpu = some (k, terminado, [])

  -- The thread takes the next program that is ready, and sends its PCB to the CPU.
  unfoldable pub atender_siguiente : Kernel → Option Vuelta
  atender_siguiente k = do
    (k', programa) ← sacar_de_ready lib k
    some (k', atendiendo programa, atende_proceso (k'.programas programa).pcb ∷ [])

  -- The CPU has closed its connection.
  unfoldable pub desconectar : Kernel → ℕ → Option Vuelta
  desconectar k programa = do k' ← mover_a_exit lib k programa; some (k', terminado, [])
