-- ===== src/Protocolo/DeCpu.antt =====
-- Messages of a CPU to the kernel: `serializar_cpu` and `deserializar_kernel` of
-- protocolo_kernel_cpu/protocolo.c.
pub mod Vuelta
use tp_sistemas_operativos_u.Base.{
  ℕ, ◌+◌, Option, none, some, [], ◌∷◌, ◌++◌, Bytes, ◌==◌, if◌then◌else◌, ◌>>=◌, length, word_bytes,
  read_word, read_block, read_text,
}
use tp_sistemas_operativos_u.Commons.{TextLib}
use tp_sistemas_operativos_u.Mensajes.{serializar_operacion}
use tp_sistemas_operativos_u.Protocolo.{
  Pcb, MsjWait, EntradaSalida, VariableCompartida, MensajeCpu, obtener_valor_var_compartida,
  asignar_valor_var_compartida, imprimir_kernel, imprimir_texto_kernel, entrada_salida_kernel,
  wait_kernel, signal_kernel, notificar_por_fin_rafaga, notificar_por_fin_programa, exception,
  ok_cpu,
}
use tp_sistemas_operativos_u.Protocolo.Bloque.{serializar_pcb, deserializar_pcb}

-- The bytes of a C string, its zero included.
unfoldable pub con_cero : Bytes → Bytes
con_cero texto = texto ++ 0 ∷ []

unfoldable pub cpu_serializar_wait : MsjWait → Bytes
cpu_serializar_wait w =
    word_bytes (length w.semaforo + 1) ++ (con_cero w.semaforo ++ serializar_pcb w.pcb)

unfoldable pub cpu_serializar_entrada_salida : EntradaSalida → Bytes
cpu_serializar_entrada_salida e =
    word_bytes (length e.dispositivo + 1)
    ++ (con_cero e.dispositivo ++ (word_bytes e.tiempo ++ serializar_pcb e.pcb))

unfoldable pub cpu_serializar_asignar_variable_compartida : VariableCompartida → Bytes
cpu_serializar_asignar_variable_compartida v = con_cero v.nombre ++ word_bytes v.valor

unfoldable pub cpu_serializar_valor_variable : ℕ → Bytes
cpu_serializar_valor_variable valor = word_bytes valor

-- Below, `none` reads behind the buffer, or a text with no zero byte.

-- A block that holds a C string.
unfoldable pub leer_texto : ℕ → Bytes → Option (Bytes × Bytes)
leer_texto n buffer = do
  (bloque, resto) ← read_block n buffer
  (texto, _) ← read_text bloque
  some (texto, resto)

unfoldable pub kernel_deserializar_wait : Bytes → Option MsjWait
kernel_deserializar_wait buffer = do
  (semaforo_long, buffer) ← read_word buffer
  (semaforo, buffer) ← leer_texto semaforo_long buffer
  pcb ← deserializar_pcb buffer
  some (record { semaforo = semaforo; pcb = pcb })

unfoldable pub kernel_deserializar_entrada_salida : Bytes → Option EntradaSalida
kernel_deserializar_entrada_salida buffer = do
  (dispositivo_long, buffer) ← read_word buffer
  (dispositivo, buffer) ← leer_texto dispositivo_long buffer
  (tiempo, buffer) ← read_word buffer
  pcb ← deserializar_pcb buffer
  some (record { dispositivo = dispositivo; tiempo = tiempo; pcb = pcb })

unfoldable pub deserializar_valor_variable : Bytes → Option ℕ
deserializar_valor_variable buffer = do (valor, _) ← read_word buffer; some valor

module _ (textos : TextLib) where
  unfoldable pub serializar_string : Bytes → Bytes
  serializar_string texto = con_cero (textos.string_duplicate texto)

  unfoldable pub serializar_cpu : MensajeCpu → Bytes
  serializar_cpu (obtener_valor_var_compartida v) = serializar_operacion 0 (serializar_string v)
  serializar_cpu (asignar_valor_var_compartida v) =
      serializar_operacion 1 (cpu_serializar_asignar_variable_compartida v)
  serializar_cpu (imprimir_kernel n) = serializar_operacion 2 (cpu_serializar_valor_variable n)
  serializar_cpu (imprimir_texto_kernel t) = serializar_operacion 3 (serializar_string t)
  serializar_cpu (entrada_salida_kernel e) =
      serializar_operacion 4 (cpu_serializar_entrada_salida e)
  serializar_cpu (wait_kernel w) = serializar_operacion 5 (cpu_serializar_wait w)
  serializar_cpu (signal_kernel s) = serializar_operacion 6 (serializar_string s)
  serializar_cpu (notificar_por_fin_rafaga pcb) = serializar_operacion 7 (serializar_pcb pcb)
  serializar_cpu (notificar_por_fin_programa pcb) = serializar_operacion 8 (serializar_pcb pcb)
  serializar_cpu (exception t) = serializar_operacion 9 (serializar_string t)
  serializar_cpu ok_cpu = serializar_operacion 10 []

  unfoldable pub deserializar_string : Bytes → Option Bytes
  deserializar_string buffer = do
    (texto, _) ← read_text buffer
    some (textos.string_duplicate texto)

  unfoldable pub kernel_deserializar_asignar_var_compartida : Bytes → Option VariableCompartida
  kernel_deserializar_asignar_var_compartida buffer = do
    (texto, resto) ← read_text buffer
    (valor, _) ← read_word resto
    some (record { nombre = textos.string_duplicate texto; valor = valor })

  -- The switch of `deserializar_kernel`. It has no case for `okCpu`, the answer to the greeting, which
  -- the kernel receives without reading it; `none` stands for any number without a case too.
  unfoldable pub kernel_mensaje : ℕ → Bytes → Option MensajeCpu
  kernel_mensaje id buffer =
      if id == 0
      then (do v ← deserializar_string buffer; some (obtener_valor_var_compartida v))
      else if id == 1
      then (do
        v ← kernel_deserializar_asignar_var_compartida buffer
        some (asignar_valor_var_compartida v))
      else if id == 2
      then (do n ← deserializar_valor_variable buffer; some (imprimir_kernel n))
      else if id == 3
      then (do t ← deserializar_string buffer; some (imprimir_texto_kernel t))
      else if id == 4
      then (do e ← kernel_deserializar_entrada_salida buffer; some (entrada_salida_kernel e))
      else if id == 5
      then (do w ← kernel_deserializar_wait buffer; some (wait_kernel w))
      else if id == 6
      then (do s ← deserializar_string buffer; some (signal_kernel s))
      else if id == 7
      then (do p ← deserializar_pcb buffer; some (notificar_por_fin_rafaga p))
      else if id == 8
      then (do p ← deserializar_pcb buffer; some (notificar_por_fin_programa p))
      else if id == 9
      then (do t ← deserializar_string buffer; some (exception t))
      else none

  unfoldable pub deserializar_kernel : Bytes → Option MensajeCpu
  deserializar_kernel buffer = do (id, buffer) ← read_word buffer; kernel_mensaje id buffer
