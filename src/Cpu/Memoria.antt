-- ===== src/Cpu/Memoria.antt =====
-- The AnSISOP primitives of CPU/src/funcionesAnsisop/funcionesAnsisop.c that work on the stack segment,
-- and `actualizarContexto` and `excepcionSolicitud` of CPU/src/cpuMain2.c.
use tp_sistemas_operativos_u.Base.{
  ℕ, ◌+◌, ◌*◌, ◌/◌, ◌%◌, ◌^◌, ◌==◌, ltb, if◌then◌else◌, ◌>>=◌, Option, none, some, [], ◌∷◌, ◌++◌,
  Bytes, add32, sub32, word_bytes, read_word, read_text,
}
use tp_sistemas_operativos_u.Commons.{ListLib, DictLib}
use tp_sistemas_operativos_u.Mensajes.{
  SolicitudBytes, Respuesta, num_respuesta, TipoRespuesta, de_buffer,
}
use tp_sistemas_operativos_u.Mensajes.Pedidos.{Envio, solicitar, almacenar}
use tp_sistemas_operativos_u.Protocolo.{exception}
use tp_sistemas_operativos_u.Umv.{Segmento}
use tp_sistemas_operativos_u.Umv.Conexiones.Cliente.{pedir}
use tp_sistemas_operativos_u.Cpu.{Cpu, rafaga_exception}

-- The C string of one character.
unfoldable pub nombre_variable : ℕ → Bytes
nombre_variable identificador = if identificador == 0 then [] else identificador ∷ []

-- `desplazamiento/5` for an `int`.
unfoldable pub quinto : ℕ → ℕ
quinto d = if ltb d (2 ^ 31) then d / 5 else sub32 0 (sub32 0 d / 5)

-- `excepcionSolicitud` of what `estructura` points to.
unfoldable pub excepcion_solicitud : {D : Type 0} → Cpu D → Respuesta → Option (Cpu D)
excepcion_solicitud c r = elim r.estructura [
  | de_buffer b ↦ (do
    (texto, _) ← read_text b
    some (record c {
      estado_rafaga = rafaga_exception;
      enviados = c.enviados ++ exception texto ∷ [];
    }))
  | _ ↦ none
]

-- The bytes of an answer with `bytesSolicitados`.
unfoldable pub buffer_de : Respuesta → Option Bytes
buffer_de r = elim r.estructura [ de_buffer b ↦ some b | _ ↦ none ]

module _ {D : Type 0} (dic : DictLib D) where
  unfoldable pub obtener_posicion_variable : Cpu D → ℕ → Option ℕ
  obtener_posicion_variable c identificador =
      dic.dictionary_get c.diccionario_variables (nombre_variable identificador)

  -- The loop of `actualizarContexto`: five bytes for each variable, the name first. `posicion` is the
  -- address of the first of the bytes that are left; a loop that starts a round with fewer than five
  -- bytes ends after it.
  unfoldable pub cargar_variables : (posicion : ℕ) → Bytes → D → D
  cargar_variables posicion (n ∷ a ∷ b ∷ c ∷ d ∷ resto) dicc =
      cargar_variables (posicion + 5) resto
        (dic.dictionary_put dicc (nombre_variable n) (add32 posicion 1))
  cargar_variables posicion (n ∷ resto) dicc =
      dic.dictionary_put dicc (nombre_variable n) (add32 posicion 1)
  cargar_variables posicion [] dicc = dicc

module _ (lib : ListLib Segmento) {D : Type 0} where
  -- A request to the memory server, and its answer.
  unfoldable pub pedir_umv : Cpu D → Envio → Option (Cpu D × Respuesta)
  pedir_umv c e = do
    (u, con, r) ← pedir lib c.umv c.conexion e
    some (record c { umv = u; conexion = con }, r)

  unfoldable pub dereferenciar : Cpu D → (direccion_variable : ℕ) → Option (Cpu D × ℕ)
  dereferenciar c direccion_variable = do
    (c', r) ← pedir_umv c (
        solicitar (record {
          base = c.pcb.segmento_stack;
          offset = sub32 direccion_variable c.pcb.segmento_stack;
          tamanio = 4;
        }))
    (if r.id_operacion == num_respuesta TipoRespuesta.bytes_solicitados
        then (do b ← buffer_de r; (valor, _) ← read_word b; some (c', valor))
        else (do c'' ← excepcion_solicitud c' r; some (c'', 0)))

  unfoldable pub asignar : Cpu D → (direccion_variable valor : ℕ) → Option (Cpu D)
  asignar c direccion_variable valor = do
    (c', r) ← pedir_umv c (
        almacenar (record {
          base = c.pcb.segmento_stack;
          offset = sub32 direccion_variable c.pcb.segmento_stack;
          tamanio = 4;
          buffer = word_bytes valor;
        }))
    (if r.id_operacion == num_respuesta TipoRespuesta.ok then some c' else excepcion_solicitud c' r)

module _ (lib : ListLib Segmento) {D : Type 0} (dic : DictLib D) where
  -- `basura` is what stands in memory behind the parameter, whose first byte alone is the name.
  unfoldable pub definir_variable :
      Cpu D → (identificador : ℕ) (basura : Bytes) → Option (Cpu D × ℕ)
  definir_variable c identificador basura = do
    (c', r) ← pedir_umv lib c (
        almacenar (record {
          base = c.pcb.segmento_stack;
          offset = sub32 c.pcb.cursor_stack c.pcb.segmento_stack;
          tamanio = 5;
          buffer = identificador ∷ basura;
        }))
    (if r.id_operacion == num_respuesta TipoRespuesta.ok
        then some (
          record c' {
            diccionario_variables =
                dic.dictionary_put c'.diccionario_variables (nombre_variable identificador)
                  (add32 c'.pcb.cursor_stack 1);
            pcb = record c'.pcb {
              tamanio_contexto = add32 c'.pcb.tamanio_contexto 1;
              cursor_stack = add32 c'.pcb.cursor_stack 5;
            };
          },
          add32 c'.pcb.cursor_stack 1,
        )
        else (do c'' ← excepcion_solicitud c' r; some (c'', 0)))

  unfoldable pub actualizar_contexto : Cpu D → Option (Cpu D)
  actualizar_contexto c0 = do
    let contexto = quinto (sub32 c0.pcb.cursor_stack c0.inicio_contexto)
    let c = record c0 {
      diccionario_variables = dic.dictionary_clean c0.diccionario_variables;
      pcb = record c0.pcb { tamanio_contexto = contexto };
    }
    let solicitud : SolicitudBytes = record {
      base = c.pcb.segmento_stack;
      offset = sub32 c.inicio_contexto c.pcb.segmento_stack;
      tamanio = (contexto * 5) % 2 ^ 32;
    }
    (c', r) ← pedir_umv lib c (solicitar solicitud)
    (if r.id_operacion == num_respuesta TipoRespuesta.bytes_solicitados
        then (do
          b ← buffer_de r
          some (record c' {
            diccionario_variables =
                cargar_variables dic (solicitud.base + solicitud.offset) b c'.diccionario_variables;
          }))
        else excepcion_solicitud c' r)
