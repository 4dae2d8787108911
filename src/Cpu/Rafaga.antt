-- ===== src/Cpu/Rafaga.antt =====
-- CPU/src/cpuMain2.c: the program that a CPU takes, the fetch of its lines and the loop of a burst.
-- `analizador_linea` is the parser library's interpreter of a line, which calls the primitives; it is
-- a parameter. The delay between lines is left out.
use tp_sistemas_operativos_u.Base.{
  ℕ, zero, suc, ◌-◌, ◌*◌, ◌%◌, ◌^◌, ◌==◌, ltb, not, ◌&&◌, Bool, true, false, if◌then◌else◌, ◌>>=◌,
  Option, none, some, [], ◌∷◌, ◌++◌, length, Bytes, add32, sub32, read_word, read_text,
}
use tp_sistemas_operativos_u.Commons.{ListLib, DictLib}
use tp_sistemas_operativos_u.Mensajes.{num_respuesta, TipoRespuesta}
use tp_sistemas_operativos_u.Mensajes.Pedidos.{solicitar, cambio_proceso_activo}
use tp_sistemas_operativos_u.Protocolo.{
  Pcb, SaludoCpu, atende_proceso, primer_msj, notificar_por_fin_rafaga, notificar_por_fin_programa,
  ok_cpu,
}
use tp_sistemas_operativos_u.Umv.{Segmento}
use tp_sistemas_operativos_u.Cpu.{
  Cpu, rafaga_entrada_salida, rafaga_fin_rafaga, rafaga_fin_programa, rafaga_exception,
  rafaga_wait_bloqueado,
}
use tp_sistemas_operativos_u.Cpu.Memoria.{
  pedir_umv, excepcion_solicitud, buffer_de, actualizar_contexto,
}
use tp_sistemas_operativos_u.Cpu.Nucleo.{enviar_a_kernel, recibir_de_kernel, con_estado}

-- The walk over a block of labels, each a text and a word behind its zero. It changes nothing; `none`
-- is a read behind the end of the block. The fuel is its length, of which a round takes five bytes at least.
unfoldable pub recorrer_etiquetas : (fuel : ℕ) → Bytes → Option (Unit {0})
recorrer_etiquetas fuel [] = some tt
recorrer_etiquetas zero (b ∷ bloque) = none
recorrer_etiquetas (suc fuel) (b ∷ bloque) = do
  (nombre, resto) ← read_text (b ∷ bloque)
  (pc, resto) ← read_word resto
  recorrer_etiquetas fuel resto

-- 5*tamanioContexto under the cursor.
unfoldable pub inicio_de_contexto : Pcb → ℕ
inicio_de_contexto pcb = sub32 pcb.cursor_stack ((pcb.tamanio_contexto * 5) % 2 ^ 32)

-- `lineaCodigo` without a line feed at its end; `none` where there is no last character.
unfoldable pub sin_fin_de_linea : Bytes → Option Bytes
sin_fin_de_linea [] = none
sin_fin_de_linea (c ∷ []) = some (if c == 10 then [] else c ∷ [])
sin_fin_de_linea (c ∷ (d ∷ cs)) = do r ← sin_fin_de_linea (d ∷ cs); some (c ∷ r)

-- Whether the main loop sends the PCB after the burst.
unfoldable pub avisa : ℕ → Bool
avisa estado =
    not (estado == rafaga_entrada_salida)
    && (not (estado == rafaga_wait_bloqueado) && not (estado == rafaga_exception))

module _ {D : Type 0} where
  -- What the CPU keeps of the kernel's greeting; it has answered.
  unfoldable pub recibir_primer_mensaje_kernel :
      (dictionary_create : D) → Cpu D → Option (Cpu D × Option SaludoCpu)
  recibir_primer_mensaje_kernel dictionary_create c = do
    (c', m) ← recibir_de_kernel c
    some (elim m [
      | primer_msj saludo ↦ (
        enviar_a_kernel (record c' { diccionario_variables = dictionary_create }) ok_cpu,
        some saludo,
      )
      | _ ↦ (c', none)
    ])

  unfoldable pub puede_seguir_ejecutando : Cpu D → (quantum i : ℕ) → Bool
  puede_seguir_ejecutando c quantum i =
      ltb i quantum
      && (not (c.estado_rafaga == rafaga_fin_programa)
          && (not (c.estado_rafaga == rafaga_entrada_salida)
              && (not (c.estado_rafaga == rafaga_exception)
                  && not (c.estado_rafaga == rafaga_wait_bloqueado))))

  -- No other operation is sent with a PCB alone.
  unfoldable pub enviar_pcb_a_kernel : Cpu D → (operacion_id : ℕ) → Option (Cpu D)
  enviar_pcb_a_kernel c operacion_id =
      if operacion_id == rafaga_fin_rafaga
      then some (enviar_a_kernel c (notificar_por_fin_rafaga c.pcb))
      else if operacion_id == rafaga_fin_programa
      then some (enviar_a_kernel c (notificar_por_fin_programa c.pcb))
      else none

module _ (lib : ListLib Segmento) {D : Type 0} where
  unfoldable pub generar_bloque_etiquetas : Cpu D → Option (Cpu D)
  generar_bloque_etiquetas c =
      if ltb 0 c.pcb.tamanio_etiqueta
      then (do
        (c', r) ← pedir_umv lib c (
            solicitar (record {
              base = c.pcb.indice_etiqueta;
              offset = 0;
              tamanio = c.pcb.tamanio_etiqueta;
            }))
        (if r.id_operacion == num_respuesta TipoRespuesta.bytes_solicitados
            then (do
              b ← buffer_de r
              _ ← recorrer_etiquetas (length b) b
              (if length b == c.pcb.tamanio_etiqueta
                  then some (record c' { bloque_etiquetas = b })
                  else none))
            else excepcion_solicitud c' r))
      else some c

  -- The line of the program's text, where `instruccion` has its place and its size; without one where
  -- the code returns NULL.
  unfoldable pub proxima_linea_de_codigo :
      Cpu D → (instruccion : Bytes) → Option (Cpu D × Option Bytes)
  proxima_linea_de_codigo c instruccion = do
    (offset, resto) ← read_word instruccion
    (tamanio, resto) ← read_word resto
    (c', r) ←
        pedir_umv lib c
          (solicitar (record { base = c.pcb.segmento_codigo; offset = offset; tamanio = tamanio }))
    (if r.id_operacion == num_respuesta TipoRespuesta.bytes_solicitados
        then (do
          b ← buffer_de r
          (linea, resto) ← read_text (b ++ 0 ∷ [])
          (if length b == tamanio then some (c', some linea) else none))
        else (do c'' ← excepcion_solicitud c' r; some (c'', none)))

  unfoldable pub traer_proxima_instruccion : Cpu D → Option (Cpu D × Option Bytes)
  traer_proxima_instruccion c = do
    (c', r) ← pedir_umv lib c (
        solicitar (record {
          base = c.pcb.indice_codigo;
          offset = (8 * c.pcb.program_counter) % 2 ^ 32;
          tamanio = 8;
        }))
    (if r.id_operacion == num_respuesta TipoRespuesta.bytes_solicitados
        then (do b ← buffer_de r; proxima_linea_de_codigo c' b)
        else (do c'' ← excepcion_solicitud c' r; some (c'', none)))

  module _ (analizador_linea : Bytes → Cpu D → Option (Cpu D)) where
    -- One round of the loop of `ejecutarRafaga`; it reads the line, also where that is NULL.
    unfoldable pub ejecutar_linea : Cpu D → Option (Cpu D)
    ejecutar_linea c = do
      (c', traida) ← traer_proxima_instruccion c
      linea ← traida
      linea ← sin_fin_de_linea linea
      analizador_linea linea
          (record c' { pcb = record c'.pcb { program_counter = add32 c'.pcb.program_counter 1 } })

    -- The loop with `quedan` rounds of the quantum left, `i` being what is gone of it.
    unfoldable pub ejecutar_desde : (quantum quedan : ℕ) → Cpu D → Option (Cpu D)
    ejecutar_desde quantum zero c = some c
    ejecutar_desde quantum (suc quedan) c =
        elim (puede_seguir_ejecutando c quantum (quantum - suc quedan)) [
          | true ↦ (do c' ← ejecutar_linea c; ejecutar_desde quantum quedan c')
          | false ↦ some c
        ]

    unfoldable pub ejecutar_rafaga : (quantum : ℕ) → Cpu D → Option (Cpu D)
    ejecutar_rafaga quantum c = ejecutar_desde quantum quantum (con_estado c rafaga_fin_rafaga)

module _ (lib : ListLib Segmento) {D : Type 0} (dic : DictLib D) where
  unfoldable pub empezar_contexto : Cpu D → Option (Cpu D)
  empezar_contexto c =
      actualizar_contexto lib dic (record c { inicio_contexto = inicio_de_contexto c.pcb })

  -- A message with no PCB is read as one, which C leaves undefined.
  unfoldable pub recibir_pcb : Cpu D → Option (Cpu D)
  recibir_pcb c0 = do
    (c, m) ← recibir_de_kernel c0
    elim m [
      | atende_proceso pcb ↦ (do
        (c, r) ← pedir_umv lib (record c { pcb = pcb }) (cambio_proceso_activo pcb.pid)
        c ← generar_bloque_etiquetas lib c
        (if ltb 0 c.pcb.tamanio_contexto then empezar_contexto c else some c))
      | _ ↦ none
    ]

  -- The body of the main loop, up to the next PCB.
  unfoldable pub turno :
      (analizador_linea : Bytes → Cpu D → Option (Cpu D)) → (quantum : ℕ) → Cpu D → Option (Cpu D)
  turno analizador_linea quantum c = do
    c ← empezar_contexto c
    c ← ejecutar_rafaga lib analizador_linea quantum c
    c ← if avisa c.estado_rafaga then enviar_pcb_a_kernel c c.estado_rafaga else some c
    recibir_pcb c
