-- ===== src/Mensajes/Pedidos/Vuelta.antt =====
-- Round trip of the requests from the client to the server.
use tp_sistemas_operativos_u.Base.{
  length-append, le→ltb, false, ltb, ◌≤◌, ℕ, ◌≡◌, some, ◌++◌, Bytes, IsWord, ◌>>=◌, length, arith,
  word_bytes, word_alone, read_block_all, read_word-word_bytes, length-word_bytes, length-append,
  le→ltb, ◌≤◌, ltb, false,
}
use tp_sistemas_operativos_u.Mensajes.{
  SolicitudBytes, AlmacenarBytes, sin_estructura, de_solicitud, de_almacenar, de_tamanio, Pedido,
  Conexion, serializar_operacion,
}
use tp_sistemas_operativos_u.Mensajes.Pedidos.{
  Envio, handshake, solicitar, almacenar, cambio_proceso_activo, crear_segmento, destruir_segmentos,
  umv_serializar, deserealizar_operacion, deserealizar_estructura, copiar_palabra,
  deserializar_solicitud_bytes, serializar_solicitar_bytes, deserializar_almacenar_bytes,
  serializar_almacenar_bytes, serializar_handshake, serializar_proceso_activo,
  serializar_crear_segmento, concretar_handshake, cambiar_proceso_activo,
  deserealizar_crear_segmento,
}

-- What the server is to understand of a request, and what it does to the connection.
abbrev pub pedido_de : Envio → Conexion → Pedido × Conexion
pedido_de (handshake tipo) c =
    (record { id_operacion = 0; estructura = sin_estructura }, record c { tipo_conexion = tipo })
pedido_de (solicitar s) c = (record { id_operacion = 1; estructura = de_solicitud s }, c)
pedido_de (almacenar a) c = (record { id_operacion = 2; estructura = de_almacenar a }, c)
pedido_de (cambio_proceso_activo id) c =
    (record { id_operacion = 3; estructura = sin_estructura }, record c { id_programa = id })
pedido_de (crear_segmento n) c = (record { id_operacion = 4; estructura = de_tamanio n }, c)
pedido_de destruir_segmentos c = (record { id_operacion = 5; estructura = sin_estructura }, c)

-- The numbers of a request are words, and a block to store is as long as its request says, and of at
-- least four bytes.
abbrev pub IsEnvio : Envio → Type 0
IsEnvio (handshake tipo) = IsWord tipo
IsEnvio (solicitar s) = IsWord s.base × IsWord s.offset × IsWord s.tamanio
IsEnvio (almacenar a) =
    IsWord a.base
    × IsWord a.offset
    × IsWord a.tamanio
    × (length a.buffer ≡ a.tamanio)
    × (4 ≤ a.tamanio)
IsEnvio (cambio_proceso_activo id) = IsWord id
IsEnvio (crear_segmento n) = IsWord n
IsEnvio destruir_segmentos = Unit {0}

copiar_palabra-word_bytes : (n : ℕ) → IsWord n → copiar_palabra (word_bytes n) ≡ some n
unfolding copiar_palabra
copiar_palabra-word_bytes n h = rw (length-word_bytes n, word_alone n h)

solicitud_vuelta :
    (s : SolicitudBytes)
    → IsEnvio (solicitar s)
    → deserializar_solicitud_bytes (serializar_solicitar_bytes s) ≡ some s
unfolding deserializar_solicitud_bytes serializar_solicitar_bytes
solicitud_vuelta s h = rw (
  read_word-word_bytes s.base _ h.0,
  read_word-word_bytes s.offset _ h.1,
  word_alone s.tamanio h.2,
)

bytes_de_almacenar : AlmacenarBytes → Bytes
bytes_de_almacenar a =
    word_bytes a.base ++ (word_bytes a.offset ++ (word_bytes a.tamanio ++ a.buffer))

almacenar_ida :
    (a : AlmacenarBytes)
    → IsEnvio (almacenar a)
    → serializar_almacenar_bytes a ≡ some (bytes_de_almacenar a)
unfolding serializar_almacenar_bytes bytes_de_almacenar
almacenar_ida a h = rw (read_block_all a.tamanio a.buffer h.3)

largo :
    (a : AlmacenarBytes) → IsEnvio (almacenar a) → ltb (length (bytes_de_almacenar a)) 16 ≡ false
unfolding bytes_de_almacenar
largo a h = le→ltb _ _ (
    omega (
      arith,
      h.3,
      h.4,
      length-append {0} (word_bytes a.base)
          (word_bytes a.offset ++ (word_bytes a.tamanio ++ a.buffer)),
      length-append {0} (word_bytes a.offset) (word_bytes a.tamanio ++ a.buffer),
      length-append {0} (word_bytes a.tamanio) a.buffer,
      length-word_bytes a.base,
      length-word_bytes a.offset,
      length-word_bytes a.tamanio,
    ))

almacenar_vuelta :
    (a : AlmacenarBytes)
    → IsEnvio (almacenar a)
    → deserializar_almacenar_bytes (bytes_de_almacenar a) ≡ some a
unfolding deserializar_almacenar_bytes bytes_de_almacenar
almacenar_vuelta a h = rw (
  largo a h,
  read_word-word_bytes a.base _ h.0,
  read_word-word_bytes a.offset _ h.1,
  read_word-word_bytes a.tamanio _ h.2,
  read_block_all a.tamanio a.buffer h.3,
)

-- A number's bytes in front of a stream are taken off again, and select the same branch.
operacion_vuelta :
    (id : ℕ) (stream : Bytes) (c : Conexion)
    → IsWord id
    → deserealizar_operacion (serializar_operacion id stream) c ≡ (
        deserealizar_estructura id stream c >>= λ (estructura, c').
        some (record { id_operacion = id; estructura = estructura }, c'))
unfolding deserealizar_operacion serializar_operacion
operacion_vuelta id stream c h = rw (read_word-word_bytes id stream h)

-- Every request that a client writes, with its numbers words, a buffer to store as long as it says
-- and of at least four bytes, the server reads as the same operation, with the same structure and
-- effect on the connection.
pub deserealizar-umv_serializar :
    (e : Envio) (c : Conexion)
    → IsEnvio e
    → (umv_serializar e >>= λ buffer. deserealizar_operacion buffer c) ≡ some (pedido_de e c)
unfolding umv_serializar deserealizar_estructura
deserealizar-umv_serializar (handshake tipo) c h =
    unfold serializar_handshake concretar_handshake in
    rw (operacion_vuelta 0 _ c (omega arith), copiar_palabra-word_bytes tipo h)
deserealizar-umv_serializar (solicitar s) c h =
    rw (operacion_vuelta 1 _ c (omega arith), solicitud_vuelta s h)
deserealizar-umv_serializar (almacenar a) c h =
    rw (almacenar_ida a h, operacion_vuelta 2 _ c (omega arith), almacenar_vuelta a h)
deserealizar-umv_serializar (cambio_proceso_activo id) c h =
    unfold serializar_proceso_activo cambiar_proceso_activo in
    rw (operacion_vuelta 3 _ c (omega arith), copiar_palabra-word_bytes id h)
deserealizar-umv_serializar (crear_segmento n) c h =
    unfold serializar_crear_segmento deserealizar_crear_segmento in
    rw (operacion_vuelta 4 _ c (omega arith), word_alone n h)
deserealizar-umv_serializar destruir_segmentos c h = rw (operacion_vuelta 5 _ c (omega arith))
