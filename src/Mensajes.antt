-- ===== src/Mensajes.antt =====
-- The messages between the clients of the memory server (msgUMV/serializar.c) and the server
-- (umv/serializado/serializado.c): structures and numbers of operations.
-- A `t_buffer` is the list of its bytes (`size` is its length). A word or an `int` is its bit
-- pattern, a number below 2 ^ 32. `sizeof(char*)`, `sizeof(int)` and `sizeof(u_int32_t)` are 4: the
-- programs are built for 32 bits, where a `t_puntero` holds an address.
pub mod Pedidos
pub mod Respuestas
use tp_sistemas_operativos_u.Base.{ℕ, ◌++◌, Bytes, word_bytes}

-- enum { handshake, solicitar, almacenar, cambioProcesoActivo, crearSegmento, destruirSegmentos }
pub data Operacion : Type 0 where
  handshake solicitar almacenar cambio_proceso_activo crear_segmento destruir_segmentos : Operacion

abbrev pub num_operacion : Operacion → ℕ
num_operacion handshake = 0
num_operacion solicitar = 1
num_operacion almacenar = 2
num_operacion cambio_proceso_activo = 3
num_operacion crear_segmento = 4
num_operacion destruir_segmentos = 5

-- enum { kernel, cpu }
abbrev pub tipo_kernel : ℕ
tipo_kernel = 0

abbrev pub tipo_cpu : ℕ
tipo_cpu = 1

-- enum { OK, segmentoCreado, bytesSolicitados, segmentation_fault, memory_overload }
pub data TipoRespuesta : Type 0 where
  ok segmento_creado bytes_solicitados segmentation_fault memory_overload : TipoRespuesta

abbrev pub num_respuesta : TipoRespuesta → ℕ
num_respuesta ok = 0
num_respuesta segmento_creado = 1
num_respuesta bytes_solicitados = 2
num_respuesta segmentation_fault = 3
num_respuesta memory_overload = 4

pub record SolicitudBytes : Type 0 where
  pub base : ℕ
  pub offset : ℕ
  pub tamanio : ℕ

pub record AlmacenarBytes : Type 0 where
  pub base : ℕ
  pub offset : ℕ
  pub tamanio : ℕ
  pub buffer : Bytes

-- What `estructura` points to in a request that has been read.
pub data Estructura : Type 0 where
  sin_estructura : Estructura
  de_solicitud : SolicitudBytes → Estructura
  de_almacenar : AlmacenarBytes → Estructura
  de_tamanio : ℕ → Estructura

-- `t_mensaje` on the server's side.
pub record Pedido : Type 0 where
  pub id_operacion : ℕ
  pub estructura : Estructura

-- `t_conexion`: what the server keeps of a client.
pub record Conexion : Type 0 where
  pub tipo_conexion : ℕ
  pub id_programa : ℕ

-- What `estructura` points to in an answer that has been read.
pub data Contenido : Type 0 where
  sin_contenido : Contenido
  de_puntero : ℕ → Contenido
  de_buffer : Bytes → Contenido

-- `t_mensaje` on the client's side.
pub record Respuesta : Type 0 where
  pub id_operacion : ℕ
  pub estructura : Contenido

-- `serializar_operacion`, the same on both sides: the operation's number in front of the buffer.
unfoldable pub serializar_operacion : ℕ → Bytes → Bytes
serializar_operacion operacion buffer = word_bytes operacion ++ buffer
