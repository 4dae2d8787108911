-- ===== src/Umv/Conexiones.antt =====
-- `pfnControladorConexion` of umv/sockets/sockets.c: what the server does with the buffers that it
-- receives from one client. `none` is an outcome that C leaves undefined (a malformed buffer, or an
-- answer that was freed in the round before), or `random()` giving no more values.
pub mod Cliente
pub mod Estado
pub mod Mantiene
pub mod Aislamiento
pub mod Sesion
use tp_sistemas_operativos_u.Base.{
  ℕ, Option, none, some, Bytes, Bool, true, false, ◌||◌, ◌==◌, if◌then◌else◌, ◌>>=◌, length, List,
  [], ◌∷◌,
}
use tp_sistemas_operativos_u.Commons.{ListLib}
use tp_sistemas_operativos_u.Mensajes.{
  Operacion, num_operacion, tipo_kernel, tipo_cpu, Estructura, sin_estructura, de_solicitud,
  de_almacenar, de_tamanio, Pedido, Conexion,
}
use tp_sistemas_operativos_u.Mensajes.Pedidos.{deserealizar_operacion}
use tp_sistemas_operativos_u.Mensajes.Respuestas.{ok, serializar_respuesta}
use tp_sistemas_operativos_u.Umv.{Segmento, Umv}
use tp_sistemas_operativos_u.Umv.Operaciones.{
  solicitar_bytes, almacenar_bytes, generar_segmento, eliminar_segmentos,
}

-- How the first message of a client ends.
pub data Saludo : Type 0 where
  cerrada : Saludo
  aceptada : Conexion → Bytes → Saludo

-- The first message must be a handshake of a CPU or a kernel. `c` holds whatever stands in the new
-- `stConexion`.
unfoldable pub atender_handshake : Umv → Conexion → Bytes → Option Saludo
atender_handshake u c buffer = if length buffer == 0 then some cerrada else (do
  (pedido, c') ← deserealizar_operacion buffer c
  some (
      if pedido.id_operacion == num_operacion Operacion.handshake
      then (if (c'.tipo_conexion == tipo_cpu) || (c'.tipo_conexion == tipo_kernel)
          then aceptada c' (serializar_respuesta u.memoria ok)
          else cerrada)
      else cerrada))

-- A state and the buffer of the answer: `none` where no operation of this round has set it.
abbrev pub Turno : Type 0
Turno = Umv × Option Bytes

module _ (lib : ListLib Segmento) where
  -- The operations of every client.
  unfoldable pub turno_comun : Umv → Conexion → Pedido → Option Turno
  turno_comun u c pedido =
      if pedido.id_operacion == num_operacion Operacion.almacenar
      then elim pedido.estructura [
        | de_almacenar st ↦ some (
          (almacenar_bytes lib u c.id_programa st).0,
          some (almacenar_bytes lib u c.id_programa st).1,
        )
        | _ ↦ none
      ]
      else if pedido.id_operacion == num_operacion Operacion.cambio_proceso_activo
      then some (u, some (serializar_respuesta u.memoria ok))
      else some (u, none)

  -- Those of the kernel alone.
  unfoldable pub turno_kernel : Conexion → Pedido → Turno → Option Turno
  turno_kernel c pedido (u, respuesta) =
      if c.tipo_conexion == tipo_kernel
      then (if pedido.id_operacion == num_operacion Operacion.crear_segmento
          then elim pedido.estructura [
            | de_tamanio n ↦ (do
              (u', buffer) ← generar_segmento lib u c.id_programa n
              some (u', some buffer))
            | _ ↦ none
          ]
          else if pedido.id_operacion == num_operacion Operacion.destruir_segmentos
          then some (
            (eliminar_segmentos lib u c.id_programa).0,
            some (eliminar_segmentos lib u c.id_programa).1,
          )
          else some (u, respuesta))
      else some (u, respuesta)

  -- And those of a CPU alone.
  unfoldable pub turno_cpu : Conexion → Pedido → Turno → Option Turno
  turno_cpu c pedido (u, respuesta) =
      if c.tipo_conexion == tipo_cpu
      then (if pedido.id_operacion == num_operacion Operacion.solicitar
          then elim pedido.estructura [
            | de_solicitud s ↦ some (u, some (solicitar_bytes lib u c.id_programa s))
            | _ ↦ none
          ]
          else some (u, respuesta))
      else some (u, respuesta)

  -- The three switches of a round, and the answer that is sent.
  unfoldable pub despachar : Umv → Conexion → Pedido → Option (Umv × Bytes)
  despachar u c pedido = do
    t ← turno_comun u c pedido
    t ← turno_kernel c pedido t
    (u', respuesta) ← turno_cpu c pedido t
    buffer ← respuesta
    some (u', buffer)

  -- One round of the loop over the client's messages.
  unfoldable pub atender : Umv → Conexion → Bytes → Option (Umv × Conexion × Bytes)
  atender u c buffer = do
    (pedido, c') ← deserealizar_operacion buffer c
    (u', respuesta) ← despachar u c' pedido
    some (u', c', respuesta)
