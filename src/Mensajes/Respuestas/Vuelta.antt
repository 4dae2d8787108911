-- ===== src/Mensajes/Respuestas/Vuelta.antt =====
-- Round trip of the answers from the server to its clients and to its console.
use tp_sistemas_operativos_u.Base.{
  ℕ, ◌≡◌, some, Bytes, IsWord, add32, ◌>>=◌, arith, word_bytes, word_alone, read_word-word_bytes,
  length-word_bytes,
}
use tp_sistemas_operativos_u.Memoria.{Memoria, leer}
use tp_sistemas_operativos_u.Mensajes.{
  sin_contenido, de_puntero, de_buffer, Respuesta, serializar_operacion,
}
use tp_sistemas_operativos_u.Mensajes.Respuestas.{
  Aviso, ok, segmento_creado, bytes_solicitados, segmentation_fault, memory_overload,
  texto_segmentation_fault, texto_memory_overload, serializar_respuesta, serializar_buffer,
  serializar_segmentation_fault, serializar_memory_overload, serializar_segmento_creado,
  deserializar_segmento_creado, deserializar_contenido, copiar_buffer, umv_deserializar,
  consola_deserializar,
}

-- What a client is to understand of an answer: bytes that were asked for arrive as they stand in
-- the server's memory, errors as their texts.
abbrev pub respuesta_de : Memoria → Aviso → Respuesta
respuesta_de m ok = record { id_operacion = 0; estructura = sin_contenido }
respuesta_de m (segmento_creado p) = record { id_operacion = 1; estructura = de_puntero p }
respuesta_de m (bytes_solicitados s) = record {
  id_operacion = 2;
  estructura = de_buffer (leer m (add32 s.base s.offset) s.tamanio);
}
respuesta_de m segmentation_fault = record {
  id_operacion = 3;
  estructura = de_buffer texto_segmentation_fault;
}
respuesta_de m memory_overload = record {
  id_operacion = 4;
  estructura = de_buffer texto_memory_overload;
}

abbrev pub IsAviso : Aviso → Type 0
IsAviso (segmento_creado p) = IsWord p
IsAviso _ = Unit {0}

puntero_vuelta : (p : ℕ) → IsWord p → deserializar_segmento_creado (word_bytes p) ≡ some p
unfolding deserializar_segmento_creado
puntero_vuelta p h = rw (length-word_bytes p, word_alone p h)

operacion_vuelta :
    (id : ℕ) (stream : Bytes)
    → IsWord id
    → umv_deserializar (serializar_operacion id stream) ≡ (
        deserializar_contenido id stream >>= λ contenido.
        some (record { id_operacion = id; estructura = contenido }))
unfolding umv_deserializar serializar_operacion
operacion_vuelta id stream h = rw (read_word-word_bytes id stream h)

-- Every answer of the server, a new address being a word, is read by its client as it was meant.
pub umv_deserializar-serializar_respuesta :
    (m : Memoria) (a : Aviso)
    → IsAviso a
    → umv_deserializar (serializar_respuesta m a) ≡ some (respuesta_de m a)
unfolding serializar_respuesta deserializar_contenido copiar_buffer
umv_deserializar-serializar_respuesta m ok h = rw (operacion_vuelta 0 _ (omega arith))
umv_deserializar-serializar_respuesta m (segmento_creado p) h =
    unfold serializar_segmento_creado in rw (operacion_vuelta 1 _ (omega arith), puntero_vuelta p h)
umv_deserializar-serializar_respuesta m (bytes_solicitados s) h =
    unfold serializar_buffer in rw (operacion_vuelta 2 _ (omega arith))
umv_deserializar-serializar_respuesta m segmentation_fault h =
    unfold serializar_segmentation_fault in rw (operacion_vuelta 3 _ (omega arith))
umv_deserializar-serializar_respuesta m memory_overload h =
    unfold serializar_memory_overload in rw (operacion_vuelta 4 _ (omega arith))

-- The console reads every stream as the clients do.
pub consola_deserializar-umv_deserializar :
    (stream : Bytes) → consola_deserializar stream ≡ umv_deserializar stream
unfolding consola_deserializar umv_deserializar
consola_deserializar-umv_deserializar stream = ground arith
