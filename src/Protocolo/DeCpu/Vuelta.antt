-- ===== src/Protocolo/DeCpu/Vuelta.antt =====
-- Round trip of the messages of a CPU.
use tp_sistemas_operativos_u.Base.{
  ℕ, ◌+◌, ◌<◌, ◌≡◌, some, [], ◌∷◌, ◌++◌, Bytes, IsText, IsWord, arith, length, length-append,
  append_assoc, word_bytes, read_word-word_bytes, word_alone, read_block-append, read_text-append,
}
use tp_sistemas_operativos_u.Commons.{TextLib}
use tp_sistemas_operativos_u.Mensajes.{serializar_operacion}
use tp_sistemas_operativos_u.Protocolo.{
  MsjWait, EntradaSalida, VariableCompartida, MensajeCpu, obtener_valor_var_compartida,
  asignar_valor_var_compartida, imprimir_kernel, imprimir_texto_kernel, entrada_salida_kernel,
  wait_kernel, signal_kernel, notificar_por_fin_rafaga, notificar_por_fin_programa, exception,
  ok_cpu,
}
use tp_sistemas_operativos_u.Protocolo.Bloque.{
  IsPcb, serializar_pcb, deserializar_pcb-serializar_pcb,
}
use tp_sistemas_operativos_u.Protocolo.DeCpu.{
  con_cero, leer_texto, cpu_serializar_wait, cpu_serializar_entrada_salida,
  cpu_serializar_asignar_variable_compartida, cpu_serializar_valor_variable,
  kernel_deserializar_wait, kernel_deserializar_entrada_salida, deserializar_valor_variable,
  serializar_string, serializar_cpu, deserializar_string,
  kernel_deserializar_asignar_var_compartida, kernel_mensaje, deserializar_kernel,
}

-- A name that is sent with its length.
pub record IsNombre (texto : Bytes) : Type 0 where
  pub sin_cero : IsText texto
  pub corto : length texto + 1 < 4294967296

-- The messages that the kernel reads: texts have no zero byte and numbers are words. The answer to the
-- greeting is not among them.
abbrev pub IsMensaje : MensajeCpu → Type 0
IsMensaje (obtener_valor_var_compartida v) = IsText v
IsMensaje (asignar_valor_var_compartida v) = IsText v.nombre × IsWord v.valor
IsMensaje (imprimir_kernel n) = IsWord n
IsMensaje (imprimir_texto_kernel t) = IsText t
IsMensaje (entrada_salida_kernel e) = IsNombre e.dispositivo × IsWord e.tiempo × IsPcb e.pcb
IsMensaje (wait_kernel w) = IsNombre w.semaforo × IsPcb w.pcb
IsMensaje (signal_kernel s) = IsText s
IsMensaje (notificar_por_fin_rafaga pcb) = IsPcb pcb
IsMensaje (notificar_por_fin_programa pcb) = IsPcb pcb
IsMensaje (exception t) = IsText t
IsMensaje ok_cpu = ⊥

leer_texto-con_cero :
    (texto resto : Bytes)
    → IsText texto
    → leer_texto (length texto + 1) (con_cero texto ++ resto) ≡ some (texto, resto)
unfolding leer_texto con_cero
leer_texto-con_cero texto resto h = rw (
  read_block-append (length texto + 1) (texto ++ 0 ∷ []) resto
      (omega (arith, length-append texto (0 ∷ []))),
  read_text-append texto [] h,
)

wait_vuelta :
    (w : MsjWait)
    → IsNombre w.semaforo
    → IsPcb w.pcb
    → kernel_deserializar_wait (cpu_serializar_wait w) ≡ some w
unfolding kernel_deserializar_wait cpu_serializar_wait
wait_vuelta w h p = rw (
  read_word-word_bytes (length w.semaforo + 1) _ h.corto,
  leer_texto-con_cero w.semaforo (serializar_pcb w.pcb) h.sin_cero,
  deserializar_pcb-serializar_pcb w.pcb p,
)

entrada_salida_vuelta :
    (e : EntradaSalida)
    → IsNombre e.dispositivo
    → IsWord e.tiempo
    → IsPcb e.pcb
    → kernel_deserializar_entrada_salida (cpu_serializar_entrada_salida e) ≡ some e
unfolding kernel_deserializar_entrada_salida cpu_serializar_entrada_salida
entrada_salida_vuelta e h t p = rw (
  read_word-word_bytes (length e.dispositivo + 1) _ h.corto,
  leer_texto-con_cero e.dispositivo _ h.sin_cero,
  read_word-word_bytes e.tiempo _ t,
  deserializar_pcb-serializar_pcb e.pcb p,
)

module _ (textos : TextLib) where
  string_vuelta :
      (t : Bytes) → IsText t → deserializar_string textos (serializar_string textos t) ≡ some t
  unfolding deserializar_string serializar_string con_cero
  string_vuelta t h =
      rw (textos.string_duplicate_lem t, read_text-append t [] h, textos.string_duplicate_lem t)

  asignar_vuelta :
      (v : VariableCompartida)
      → IsText v.nombre
      → IsWord v.valor
      → kernel_deserializar_asignar_var_compartida textos
          (cpu_serializar_asignar_variable_compartida v)
        ≡ some v
  unfolding kernel_deserializar_asignar_var_compartida cpu_serializar_asignar_variable_compartida
      con_cero
  asignar_vuelta v h w = rw (
    append_assoc v.nombre (0 ∷ []) (word_bytes v.valor),
    read_text-append v.nombre (word_bytes v.valor) h,
    word_alone v.valor w,
    textos.string_duplicate_lem v.nombre,
  )

  operacion_vuelta :
      (id : ℕ) (buffer : Bytes)
      → IsWord id
      → deserializar_kernel textos (serializar_operacion id buffer)
        ≡ kernel_mensaje textos id buffer
  unfolding deserializar_kernel serializar_operacion
  operacion_vuelta id buffer h = rw (read_word-word_bytes id buffer h)

  -- Every message that a CPU writes, but the answer to the greeting, the kernel reads as it was meant,
  -- where texts have no zero byte and numbers are words.
  pub deserializar_kernel-serializar_cpu :
      (m : MensajeCpu) → IsMensaje m → deserializar_kernel textos (serializar_cpu textos m) ≡ some m
  unfolding serializar_cpu kernel_mensaje cpu_serializar_valor_variable deserializar_valor_variable
  deserializar_kernel-serializar_cpu (obtener_valor_var_compartida v) h =
      rw (operacion_vuelta 0 _ (omega arith), string_vuelta v h)
  deserializar_kernel-serializar_cpu (asignar_valor_var_compartida v) h =
      rw (operacion_vuelta 1 _ (omega arith), asignar_vuelta v h.0 h.1)
  deserializar_kernel-serializar_cpu (imprimir_kernel n) h =
      rw (operacion_vuelta 2 _ (omega arith), word_alone n h)
  deserializar_kernel-serializar_cpu (imprimir_texto_kernel t) h =
      rw (operacion_vuelta 3 _ (omega arith), string_vuelta t h)
  deserializar_kernel-serializar_cpu (entrada_salida_kernel e) h =
      rw (operacion_vuelta 4 _ (omega arith), entrada_salida_vuelta e h.0 h.1 h.2)
  deserializar_kernel-serializar_cpu (wait_kernel w) h =
      rw (operacion_vuelta 5 _ (omega arith), wait_vuelta w h.0 h.1)
  deserializar_kernel-serializar_cpu (signal_kernel s) h =
      rw (operacion_vuelta 6 _ (omega arith), string_vuelta s h)
  deserializar_kernel-serializar_cpu (notificar_por_fin_rafaga p) h =
      rw (operacion_vuelta 7 _ (omega arith), deserializar_pcb-serializar_pcb p h)
  deserializar_kernel-serializar_cpu (notificar_por_fin_programa p) h =
      rw (operacion_vuelta 8 _ (omega arith), deserializar_pcb-serializar_pcb p h)
  deserializar_kernel-serializar_cpu (exception t) h =
      rw (operacion_vuelta 9 _ (omega arith), string_vuelta t h)
  deserializar_kernel-serializar_cpu ok_cpu h = absurd h
