-- ===== src/Kernel/Carga/Rechazo.antt =====
-- `destruir_segmento`, with which a rejected program and one that has ended leave the memory server.
use tp_sistemas_operativos_u.Base.{ℕ, ◌≡◌, refl, some, reject, IsWord}
use tp_sistemas_operativos_u.Commons.{ListLib}
use tp_sistemas_operativos_u.Base.{read_word, word_bytes}
use tp_sistemas_operativos_u.Mensajes.{Conexion, tipo_kernel, serializar_operacion}
use tp_sistemas_operativos_u.Mensajes.Respuestas.{umv_deserializar, serializar_respuesta}
use tp_sistemas_operativos_u.Mensajes.Pedidos.{
  serializar_handshake, deserealizar_operacion, concretar_handshake, copiar_palabra,
}
use tp_sistemas_operativos_u.Mensajes.Pedidos.{umv_serializar}
use tp_sistemas_operativos_u.Umv.{Segmento, Umv, IsValid, vistas}
use tp_sistemas_operativos_u.Umv.Borrado.{es_vista_de}
use tp_sistemas_operativos_u.Umv.Conexiones.{atender_handshake}
use tp_sistemas_operativos_u.Umv.Conexiones.Cliente.{pedir-cambio_proceso, pedir-destruir_segmentos}
use tp_sistemas_operativos_u.Kernel.Carga.{saludar, destruir_segmento}

saludar-kernel :
    (u : Umv) (nueva : Conexion)
    → saludar u nueva ≡ some (record nueva { tipo_conexion = tipo_kernel })
unfolding saludar umv_serializar serializar_operacion serializar_handshake atender_handshake
    deserealizar_operacion concretar_handshake copiar_palabra umv_deserializar serializar_respuesta
    read_word word_bytes
saludar-kernel u nueva = refl

module _ (lib : ListLib Segmento) where
  -- Of a valid memory server, the kernel can always have the segments of a program destroyed: what the
  -- clients then see are the segments of the other programs, as they were, and the server stays valid.
  pub destruir_segmento-reject :
      (u : Umv) (nueva : Conexion) (pid : ℕ)
      → IsValid u
      → IsWord pid
      → (u' : Umv) × (destruir_segmento lib u nueva pid ≡ some u')
        × (vistas u' ≡ reject (es_vista_de pid) (vistas u))
        × IsValid u'
  unfolding destruir_segmento
  destruir_segmento-reject u nueva pid v w =
      let d =
        pedir-destruir_segmentos lib u (record { tipo_conexion = tipo_kernel; id_programa = pid }) v
          refl in
      (
        d.0,
        rw
            (
              destruir_segmento,
              saludar-kernel u nueva,
              pedir-cambio_proceso lib u (record nueva { tipo_conexion = tipo_kernel }) pid w,
              d.1,
            )
            refl,
        d.2,
        d.3,
      )
