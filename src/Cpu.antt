-- ===== src/Cpu.antt =====
-- The state of a CPU: the globals of CPU/src/cpuMain2.h, and what lies at the other ends of its two
-- sockets. The memory server is the model of Umv, with what it keeps of this connection; the kernel
-- is the list of the messages that it is still to send. `none` is an outcome that C leaves undefined,
-- or a wait for a message that never comes.
pub mod Memoria
pub mod Llamadas
pub mod Nucleo
pub mod Rafaga
pub mod Acuerdo
pub mod Quantum
pub mod Vistas
pub mod Pila
pub mod Contexto
pub mod Marco
pub mod Retorno
pub mod Renombre
pub mod Locales
pub mod Subrutina
pub mod Funcion
pub mod Cambio
pub mod Codigo
pub mod Desborde
use tp_sistemas_operativos_u.Base.{ℕ, List, Bytes}
use tp_sistemas_operativos_u.Protocolo.{Pcb, MensajeCpu, MensajeKernel}
use tp_sistemas_operativos_u.Mensajes.{Conexion}
use tp_sistemas_operativos_u.Umv.{Umv}

-- The values of `estadoRafaga`, out of the enumeration in protocolo_kernel_cpu/protocolo.h.
abbrev pub rafaga_entrada_salida : ℕ
rafaga_entrada_salida = 4

abbrev pub rafaga_fin_rafaga : ℕ
rafaga_fin_rafaga = 7

abbrev pub rafaga_fin_programa : ℕ
rafaga_fin_programa = 8

abbrev pub rafaga_exception : ℕ
rafaga_exception = 9

abbrev pub rafaga_wait_bloqueado : ℕ
rafaga_wait_bloqueado = 11

-- `D` is the type of `diccionarioVariables`.
pub record Cpu (D : Type 0) : Type 0 where
  pub pcb : Pcb
  pub inicio_contexto : ℕ
  pub diccionario_variables : D
  pub bloque_etiquetas : Bytes
  pub estado_rafaga : ℕ
  pub umv : Umv
  pub conexion : Conexion
  pub enviados : List MensajeCpu
  pub recibidos : List MensajeKernel
