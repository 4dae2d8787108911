-- ===== src/Protocolo/DeKernel.antt =====
-- Messages of the kernel to a CPU: `serializar_kernel` and `deserializar_cpu` of
-- protocolo_kernel_cpu/protocolo.c.
use tp_sistemas_operativos_u.Base.{
  ℕ, ◌≡◌, Option, none, some, [], ◌++◌, Bytes, IsWord, ◌==◌, if◌then◌else◌, ◌>>=◌, arith,
  word_bytes, read_word, read_word-word_bytes, word_alone,
}
use tp_sistemas_operativos_u.Mensajes.{serializar_operacion}
use tp_sistemas_operativos_u.Protocolo.{
  SaludoCpu, MensajeKernel, continuar, bloquear, ok_kernel, primer_msj, atende_proceso,
  valor_compartida, terminar,
}
use tp_sistemas_operativos_u.Protocolo.Bloque.{
  IsPcb, serializar_pcb, deserializar_pcb, deserializar_pcb-serializar_pcb,
}
use tp_sistemas_operativos_u.Protocolo.DeCpu.{deserializar_valor_variable}

-- `buffer_new`, the structure of the answers that carry none.
unfoldable pub buffer_new : Bytes
buffer_new = []

unfoldable pub kernel_serializar_primer_msj : SaludoCpu → Bytes
kernel_serializar_primer_msj s = word_bytes s.i_ejecuciones ++ word_bytes s.i_delay

unfoldable pub kernel_serializar_valor_var_compartida : ℕ → Bytes
kernel_serializar_valor_var_compartida valor = word_bytes valor

unfoldable pub serializar_kernel : MensajeKernel → Bytes
serializar_kernel continuar = serializar_operacion 0 buffer_new
serializar_kernel bloquear = serializar_operacion 1 buffer_new
serializar_kernel ok_kernel = serializar_operacion 2 buffer_new
serializar_kernel (primer_msj s) = serializar_operacion 3 (kernel_serializar_primer_msj s)
serializar_kernel (atende_proceso pcb) = serializar_operacion 4 (serializar_pcb pcb)
serializar_kernel (valor_compartida n) =
    serializar_operacion 5 (kernel_serializar_valor_var_compartida n)
serializar_kernel terminar = serializar_operacion 6 buffer_new

-- `none` reads behind the buffer.
unfoldable pub cpu_deserializar_primer_msj : Bytes → Option SaludoCpu
cpu_deserializar_primer_msj buffer = do
  (i_ejecuciones, buffer) ← read_word buffer
  (i_delay, _) ← read_word buffer
  some (record { i_ejecuciones = i_ejecuciones; i_delay = i_delay })

-- The switch of `deserializar_cpu`; `none` also for a number that it has no case for.
unfoldable pub cpu_mensaje : ℕ → Bytes → Option MensajeKernel
cpu_mensaje id buffer =
    if id == 2
    then some ok_kernel
    else if id == 0
    then some continuar
    else if id == 6
    then some terminar
    else if id == 1
    then some bloquear
    else if id == 3
    then (do s ← cpu_deserializar_primer_msj buffer; some (primer_msj s))
    else if id == 4
    then (do p ← deserializar_pcb buffer; some (atende_proceso p))
    else if id == 5
    then (do n ← deserializar_valor_variable buffer; some (valor_compartida n))
    else none

unfoldable pub deserializar_cpu : Bytes → Option MensajeKernel
deserializar_cpu buffer = do (id, buffer) ← read_word buffer; cpu_mensaje id buffer

-- The numbers of a message are words.
abbrev pub IsMensaje : MensajeKernel → Type 0
IsMensaje (primer_msj s) = IsWord s.i_ejecuciones × IsWord s.i_delay
IsMensaje (atende_proceso pcb) = IsPcb pcb
IsMensaje (valor_compartida n) = IsWord n
IsMensaje _ = Unit {0}

operacion_vuelta :
    (id : ℕ) (buffer : Bytes)
    → IsWord id
    → deserializar_cpu (serializar_operacion id buffer) ≡ cpu_mensaje id buffer
unfolding deserializar_cpu serializar_operacion
operacion_vuelta id buffer h = rw (read_word-word_bytes id buffer h)

-- Every message that the kernel writes, its numbers being words, a CPU reads as it was meant.
pub deserializar_cpu-serializar_kernel :
    (m : MensajeKernel) → IsMensaje m → deserializar_cpu (serializar_kernel m) ≡ some m
unfolding serializar_kernel cpu_mensaje kernel_serializar_primer_msj cpu_deserializar_primer_msj
    kernel_serializar_valor_var_compartida deserializar_valor_variable
deserializar_cpu-serializar_kernel continuar h = rw (operacion_vuelta 0 buffer_new (omega arith))
deserializar_cpu-serializar_kernel bloquear h = rw (operacion_vuelta 1 buffer_new (omega arith))
deserializar_cpu-serializar_kernel ok_kernel h = rw (operacion_vuelta 2 buffer_new (omega arith))
deserializar_cpu-serializar_kernel (primer_msj s) h = rw (
  operacion_vuelta 3 _ (omega arith),
  read_word-word_bytes s.i_ejecuciones (word_bytes s.i_delay) h.0,
  word_alone s.i_delay h.1,
)
deserializar_cpu-serializar_kernel (atende_proceso pcb) h =
    rw (operacion_vuelta 4 _ (omega arith), deserializar_pcb-serializar_pcb pcb h)
deserializar_cpu-serializar_kernel (valor_compartida n) h =
    rw (operacion_vuelta 5 _ (omega arith), word_alone n h)
deserializar_cpu-serializar_kernel terminar h = rw (operacion_vuelta 6 buffer_new (omega arith))
