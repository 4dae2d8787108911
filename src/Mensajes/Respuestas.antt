-- ===== src/Mensajes/Respuestas.antt =====
-- Answers: `serializar_respuesta` of umv/serializado/serializado.c writes them, `umv_deserializar`
-- of msgUMV/serializar.c reads them, and so does `consola_deserializar` on the server's console.
pub mod Vuelta
use tp_sistemas_operativos_u.Base.{
  ℕ, ◌+◌, Option, none, some, [], ◌∷◌, ◌++◌, Bytes, add32, ◌==◌, if◌then◌else◌, ◌>>=◌, length,
  word_bytes, read_word, codes,
}
use tp_sistemas_operativos_u.Memoria.{Memoria, leer}
use tp_sistemas_operativos_u.Mensajes.{
  TipoRespuesta, num_respuesta, SolicitudBytes, Contenido, sin_contenido, de_puntero, de_buffer,
  Respuesta, serializar_operacion,
}

-- An answer with the structure that the server hands over: a request of bytes carries the physical
-- address of its segment as its base.
pub data Aviso : Type 0 where
  ok : Aviso
  segmento_creado : ℕ → Aviso
  bytes_solicitados : SolicitudBytes → Aviso
  segmentation_fault : Aviso
  memory_overload : Aviso

abbrev pub texto_segmentation_fault : Bytes
texto_segmentation_fault =
    codes "Segmentation Fault: esta tratando de acceder a un sector de memoria no permitido"
    ++ 0 ∷ []

abbrev pub texto_memory_overload : Bytes
texto_memory_overload =
    codes "Memory Overload: no existe espacio suficiente para crear el segmento" ++ 0 ∷ []

unfoldable pub serializar_segmentation_fault : Bytes
serializar_segmentation_fault = texto_segmentation_fault

unfoldable pub serializar_memory_overload : Bytes
serializar_memory_overload = texto_memory_overload

unfoldable pub serializar_rta_ok : Bytes
serializar_rta_ok = []

unfoldable pub serializar_buffer : Memoria → SolicitudBytes → Bytes
serializar_buffer m s = leer m (add32 s.base s.offset) s.tamanio

unfoldable pub serializar_segmento_creado : ℕ → Bytes
serializar_segmento_creado p_segmento = word_bytes p_segmento

unfoldable pub serializar_respuesta : Memoria → Aviso → Bytes
serializar_respuesta m ok = serializar_operacion (num_respuesta TipoRespuesta.ok) serializar_rta_ok
serializar_respuesta m (bytes_solicitados s) =
    serializar_operacion (num_respuesta TipoRespuesta.bytes_solicitados) (serializar_buffer m s)
serializar_respuesta m segmentation_fault =
    serializar_operacion (num_respuesta TipoRespuesta.segmentation_fault)
      serializar_segmentation_fault
serializar_respuesta m memory_overload =
    serializar_operacion (num_respuesta TipoRespuesta.memory_overload) serializar_memory_overload
serializar_respuesta m (segmento_creado p) =
    serializar_operacion (num_respuesta TipoRespuesta.segmento_creado)
      (serializar_segmento_creado p)

-- Below, `none` is a read behind the stream, or a copy of another size than its target.

unfoldable pub deserializar_segmento_creado : Bytes → Option ℕ
deserializar_segmento_creado stream =
    if length stream == 4 then (do (p, _) ← read_word stream; some p) else none

-- A new buffer with the same bytes.
unfoldable pub copiar_buffer : Bytes → Bytes
copiar_buffer stream = stream

-- The switch of `umv_deserializar`; for any other number `estructura` is never set.
unfoldable pub deserializar_contenido : ℕ → Bytes → Option Contenido
deserializar_contenido id stream =
    if id == num_respuesta TipoRespuesta.ok
    then some sin_contenido
    else if id == num_respuesta TipoRespuesta.segmento_creado
    then (do p ← deserializar_segmento_creado stream; some (de_puntero p))
    else if id == num_respuesta TipoRespuesta.bytes_solicitados
    then some (de_buffer (copiar_buffer stream))
    else if id == num_respuesta TipoRespuesta.segmentation_fault
    then some (de_buffer (copiar_buffer stream))
    else if id == num_respuesta TipoRespuesta.memory_overload
    then some (de_buffer (copiar_buffer stream))
    else some sin_contenido

unfoldable pub umv_deserializar : Bytes → Option Respuesta
unfolding deserializar_contenido
umv_deserializar stream = do
  (id, stream) ← read_word stream
  contenido ← deserializar_contenido id stream
  some (record { id_operacion = id; estructura = contenido })

-- The switch of `consola_deserializar`.
unfoldable pub consola_mensaje : ℕ → Bytes → Option Respuesta
consola_mensaje id stream =
    if id == num_respuesta TipoRespuesta.ok
    then some (mensaje sin_contenido)
    else if id == num_respuesta TipoRespuesta.segmento_creado
    then (do p ← deserializar_segmento_creado stream; some (mensaje (de_puntero p)))
    else if id == num_respuesta TipoRespuesta.bytes_solicitados
    then some (mensaje (de_buffer (copiar_buffer stream)))
    else if id == num_respuesta TipoRespuesta.segmentation_fault
    then some (mensaje (de_buffer (copiar_buffer stream)))
    else if id == num_respuesta TipoRespuesta.memory_overload
    then some (mensaje (de_buffer (copiar_buffer stream)))
    else some (mensaje sin_contenido)
  where
    mensaje : Contenido → Respuesta
    mensaje contenido = record { id_operacion = id; estructura = contenido }

unfoldable pub consola_deserializar : Bytes → Option Respuesta
unfolding consola_mensaje
consola_deserializar stream = do (id, stream) ← read_word stream; consola_mensaje id stream
