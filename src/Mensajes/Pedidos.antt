-- ===== src/Mensajes/Pedidos.antt =====
-- Requests: `umv_serializar` of msgUMV/serializar.c writes them, `deserealizar_operacion` of
-- umv/serializado/serializado.c reads them.
pub mod Vuelta
use tp_sistemas_operativos_u.Base.{
  ℕ, Option, none, some, [], ◌++◌, Bytes, ◌==◌, if◌then◌else◌, ◌>>=◌, length, word_bytes, read_word,
  read_block, ltb,
}
use tp_sistemas_operativos_u.Mensajes.{
  Operacion, num_operacion, SolicitudBytes, AlmacenarBytes, Estructura, sin_estructura,
  de_solicitud, de_almacenar, de_tamanio, Pedido, Conexion, serializar_operacion,
}

-- An operation with the structure that its caller hands over.
pub data Envio : Type 0 where
  handshake : ℕ → Envio
  solicitar : SolicitudBytes → Envio
  almacenar : AlmacenarBytes → Envio
  cambio_proceso_activo : ℕ → Envio
  crear_segmento : ℕ → Envio
  destruir_segmentos : Envio

unfoldable pub serializar_solicitar_bytes : SolicitudBytes → Bytes
serializar_solicitar_bytes s = word_bytes s.base ++ (word_bytes s.offset ++ word_bytes s.tamanio)

-- `none` where `tamanio` reads behind the caller's buffer.
unfoldable pub serializar_almacenar_bytes : AlmacenarBytes → Option Bytes
serializar_almacenar_bytes a = do
  (copiados, _) ← read_block a.tamanio a.buffer
  some (word_bytes a.base ++ (word_bytes a.offset ++ (word_bytes a.tamanio ++ copiados)))

unfoldable pub serializar_proceso_activo : ℕ → Bytes
serializar_proceso_activo id_programa = word_bytes id_programa

unfoldable pub serializar_crear_segmento : ℕ → Bytes
serializar_crear_segmento tamanio = word_bytes tamanio

unfoldable pub serializar_destruir_segmentos : Bytes
serializar_destruir_segmentos = []

unfoldable pub serializar_handshake : ℕ → Bytes
serializar_handshake tipo = word_bytes tipo

unfoldable pub umv_serializar : Envio → Option Bytes
umv_serializar (handshake tipo) =
    some (serializar_operacion (num_operacion Operacion.handshake) (serializar_handshake tipo))
umv_serializar (solicitar s) =
    some (serializar_operacion (num_operacion Operacion.solicitar) (serializar_solicitar_bytes s))
umv_serializar (almacenar a) = do
  buffer ← serializar_almacenar_bytes a
  some (serializar_operacion (num_operacion Operacion.almacenar) buffer)
umv_serializar (cambio_proceso_activo id_programa) = some (
    serializar_operacion (num_operacion Operacion.cambio_proceso_activo)
      (serializar_proceso_activo id_programa))
umv_serializar (crear_segmento tamanio) = some (
    serializar_operacion (num_operacion Operacion.crear_segmento)
      (serializar_crear_segmento tamanio))
umv_serializar destruir_segmentos = some (
    serializar_operacion (num_operacion Operacion.destruir_segmentos) serializar_destruir_segmentos)

-- Below, `none` is a read behind the stream, a copy of another size than its target, or a write
-- behind what was allocated.

-- `memcpy(target, stream->data, stream->size)` into a word.
unfoldable pub copiar_palabra : Bytes → Option ℕ
copiar_palabra stream = if length stream == 4 then (do (n, _) ← read_word stream; some n) else none

unfoldable pub deserializar_solicitud_bytes : Bytes → Option SolicitudBytes
deserializar_solicitud_bytes stream = do
  (base, stream) ← read_word stream
  (offset, stream) ← read_word stream
  (tamanio, _) ← read_word stream
  some (record { base = base; offset = offset; tamanio = tamanio })

-- The structure of 16 bytes is written into a block of `stream->size`.
unfoldable pub deserializar_almacenar_bytes : Bytes → Option AlmacenarBytes
deserializar_almacenar_bytes stream = if ltb (length stream) 16 then none else (do
  (base, stream) ← read_word stream
  (offset, stream) ← read_word stream
  (tamanio, stream) ← read_word stream
  (buffer, _) ← read_block tamanio stream
  some (record { base = base; offset = offset; tamanio = tamanio; buffer = buffer }))

unfoldable pub deserealizar_crear_segmento : Bytes → Option ℕ
deserealizar_crear_segmento stream = do (tamanio, _) ← read_word stream; some tamanio

unfoldable pub cambiar_proceso_activo : Bytes → Conexion → Option Conexion
cambiar_proceso_activo stream c = do
  id ← copiar_palabra stream
  some (record c { id_programa = id })

unfoldable pub concretar_handshake : Bytes → Conexion → Option Conexion
concretar_handshake stream c = do
  tipo ← copiar_palabra stream
  some (record c { tipo_conexion = tipo })

-- The switch over the operation's number; a handshake and a change of process act on the connection.
unfoldable pub deserealizar_estructura : ℕ → Bytes → Conexion → Option (Estructura × Conexion)
deserealizar_estructura id stream c =
    if id == num_operacion Operacion.handshake
    then (do c' ← concretar_handshake stream c; some (sin_estructura, c'))
    else if id == num_operacion Operacion.solicitar
    then (do s ← deserializar_solicitud_bytes stream; some (de_solicitud s, c))
    else if id == num_operacion Operacion.almacenar
    then (do a ← deserializar_almacenar_bytes stream; some (de_almacenar a, c))
    else if id == num_operacion Operacion.cambio_proceso_activo
    then (do c' ← cambiar_proceso_activo stream c; some (sin_estructura, c'))
    else if id == num_operacion Operacion.crear_segmento
    then (do n ← deserealizar_crear_segmento stream; some (de_tamanio n, c))
    else some (sin_estructura, c)

unfoldable pub deserealizar_operacion : Bytes → Conexion → Option (Pedido × Conexion)
unfolding deserealizar_estructura
deserealizar_operacion stream c = do
  (id, stream) ← read_word stream
  (estructura, c') ← deserealizar_estructura id stream c
  some (record { id_operacion = id; estructura = estructura }, c')
