-- ===== src/Protocolo.antt =====
-- protocolo_kernel_cpu/protocolo.h: the messages between the kernel and the CPUs. Numbers are words,
-- texts are their bytes without the zero at the end.
pub mod Bloque
pub mod DeCpu
pub mod DeKernel
use tp_sistemas_operativos_u.Base.{ℕ, Bytes}

-- `t_pcb`
pub record Pcb : Type 0 where
  pub pid : ℕ
  pub segmento_codigo : ℕ
  pub segmento_stack : ℕ
  pub cursor_stack : ℕ
  pub indice_codigo : ℕ
  pub indice_etiqueta : ℕ
  pub program_counter : ℕ
  pub tamanio_contexto : ℕ
  pub tamanio_etiqueta : ℕ
  pub cantidad_de_funciones : ℕ
  pub cantidad_de_etiquetas : ℕ

-- `t_SaludoCpu`
pub record SaludoCpu : Type 0 where
  pub i_ejecuciones : ℕ
  pub i_delay : ℕ

-- `t_MsjWait`, without the length that the writer computes from the text.
pub record MsjWait : Type 0 where
  pub semaforo : Bytes
  pub pcb : Pcb

-- `t_entradaSalida`, likewise.
pub record EntradaSalida : Type 0 where
  pub dispositivo : Bytes
  pub tiempo : ℕ
  pub pcb : Pcb

-- `t_variable_compartida`
pub record VariableCompartida : Type 0 where
  pub nombre : Bytes
  pub valor : ℕ

-- The operations of a CPU, with their structures. An exception carries the text of its error.
pub data MensajeCpu : Type 0 where
  obtener_valor_var_compartida : Bytes → MensajeCpu
  asignar_valor_var_compartida : VariableCompartida → MensajeCpu
  imprimir_kernel : ℕ → MensajeCpu
  imprimir_texto_kernel : Bytes → MensajeCpu
  entrada_salida_kernel : EntradaSalida → MensajeCpu
  wait_kernel : MsjWait → MensajeCpu
  signal_kernel : Bytes → MensajeCpu
  notificar_por_fin_rafaga : Pcb → MensajeCpu
  notificar_por_fin_programa : Pcb → MensajeCpu
  exception : Bytes → MensajeCpu
  ok_cpu : MensajeCpu

-- The operations of the kernel, with their structures.
pub data MensajeKernel : Type 0 where
  continuar : MensajeKernel
  bloquear : MensajeKernel
  ok_kernel : MensajeKernel
  primer_msj : SaludoCpu → MensajeKernel
  atende_proceso : Pcb → MensajeKernel
  valor_compartida : ℕ → MensajeKernel
  terminar : MensajeKernel
