-- ===== src/Umv/Conexiones/Cliente.antt =====
-- A request of a client, from its structure to the answer that it reads: msgUMV/serializar.c on one
-- side of the connection, umv/sockets/sockets.c on the other.
use tp_sistemas_operativos_u.Base.{
  reject, IsWord, ℕ, >>=_assoc, ◌+◌, ◌<◌, ◌≡◌, ◌∙◌, inl, inr, Option, none, some, ◌>>=◌, arith,
  Option-cases,
}
use tp_sistemas_operativos_u.Commons.{ListLib}
use tp_sistemas_operativos_u.Mensajes.{
  sin_contenido, Conexion, Respuesta, SolicitudBytes, AlmacenarBytes, tipo_kernel, tipo_cpu,
}
use tp_sistemas_operativos_u.Mensajes.Pedidos.{
  Envio, solicitar, almacenar, cambio_proceso_activo, destruir_segmentos, umv_serializar,
  deserealizar_operacion,
}
use tp_sistemas_operativos_u.Mensajes.Pedidos.Vuelta.{
  IsEnvio, pedido_de, deserealizar-umv_serializar,
}
use tp_sistemas_operativos_u.Mensajes.Respuestas.{ok, umv_deserializar}
use tp_sistemas_operativos_u.Mensajes.Respuestas.Vuelta.{umv_deserializar-serializar_respuesta}
use tp_sistemas_operativos_u.Umv.{Segmento, Umv, IsValid, vistas}
use tp_sistemas_operativos_u.Umv.Borrado.{es_vista_de, eliminar_segmentos-reject}
use tp_sistemas_operativos_u.Umv.Acceso.{
  solicitar_bytes-solicitar_vista, almacenar_bytes-almacenar_vista, almacenar_bytes-IsValid,
}
use tp_sistemas_operativos_u.Umv.Acceso.Especificacion.{solicitar_vista, almacenar_vista}
use tp_sistemas_operativos_u.Umv.Conexiones.{
  eliminar_segmentos, almacenar_bytes, despachar, atender, turno_comun, turno_kernel, turno_cpu,
}

module _ (lib : ListLib Segmento) where
  -- `enviaYRecibeAOtroProceso` between the two sides: the request is written, served, and its answer
  -- read. The connection carries whole buffers.
  unfoldable pub pedir : Umv → Conexion → Envio → Option (Umv × Conexion × Respuesta)
  pedir u c e = do
    buffer ← umv_serializar e
    (u', c', respuesta) ← atender lib u c buffer
    r ← umv_deserializar respuesta
    some (u', c', r)

  -- What is served is the request that was meant.
  pedir-despachar :
      (u : Umv) (c : Conexion) (e : Envio)
      → IsEnvio e
      → pedir u c e ≡ (
          despachar lib u (pedido_de e c).1 (pedido_de e c).0 >>= λ (u', respuesta).
          umv_deserializar respuesta >>= λ r. some (u', (pedido_de e c).1, r))
  unfolding pedir atender
  pedir-despachar u c e h = elim (Option-cases (umv_serializar e)) [
    | inl nada ↦ absurd (
        ground (
          arith,
          nada,
          let v : (none >>= λ buffer. deserealizar_operacion buffer c) ≡ some (pedido_de e c) =
                rw nada at (deserealizar-umv_serializar e c h) in
              v,
        ))
    | inr (b, hay) ↦
        let d : deserealizar_operacion b c ≡ some (pedido_de e c) =
          rw hay at (deserealizar-umv_serializar e c h) in
        rw (hay, d) (>>=_assoc (despachar lib u (pedido_de e c).1 (pedido_de e c).0) _ _)
  ]

  -- A CPU that asks a valid server for bytes, with words that do not add up to 2 ^ 32, reads what the
  -- views say of the process that it last named, on every branch; server and connection stay.
  pub pedir-solicitar :
      (u : Umv) (c : Conexion) (sol : SolicitudBytes)
      → IsValid u
      → IsEnvio (solicitar sol)
      → sol.tamanio + sol.offset < 4294967296
      → c.tipo_conexion ≡ tipo_cpu
      → pedir u c (solicitar sol) ≡ some (u, c, solicitar_vista (vistas u) c.id_programa sol)
  pedir-solicitar u c sol v h w t =
      pedir-despachar u c (solicitar sol) h
      ∙ unfold despachar turno_comun turno_kernel turno_cpu in
        ground (arith, solicitar_bytes-solicitar_vista lib u c.id_programa sol v w)

  -- A client of either kind that stores at least four bytes in a valid server, with words that do
  -- not add up to 2 ^ 32, reads the answer that the views give, and the views change as specified;
  -- the server stays valid.
  pub pedir-almacenar :
      (u : Umv) (c : Conexion) (st : AlmacenarBytes)
      → IsValid u
      → IsEnvio (almacenar st)
      → st.tamanio + st.offset < 4294967296
      → (u' : Umv) × (pedir u c (almacenar st)
          ≡ some (u', c, (almacenar_vista (vistas u) c.id_programa st).1))
        × (vistas u' ≡ (almacenar_vista (vistas u) c.id_programa st).0)
        × IsValid u'
  pedir-almacenar u c st v h w =
      let a = almacenar_bytes-almacenar_vista lib u c.id_programa st v w h.3 in
      (
        (almacenar_bytes lib u c.id_programa st).0,
        pedir-despachar u c (almacenar st) h
            ∙ unfold despachar turno_comun turno_kernel turno_cpu in ground (arith, a.1),
        a.0,
        almacenar_bytes-IsValid lib u c.id_programa st v,
      )

  -- A client of either kind names the process that it goes on with.
  pub pedir-cambio_proceso :
      (u : Umv) (c : Conexion) (id : ℕ)
      → IsWord id
      → pedir u c (cambio_proceso_activo id)
        ≡ some (
          u,
          record c { id_programa = id },
          record { id_operacion = 0; estructura = sin_contenido },
        )
  pedir-cambio_proceso u c id h =
      pedir-despachar u c (cambio_proceso_activo id) h
      ∙ unfold despachar turno_comun turno_kernel turno_cpu in
        ground (arith, umv_deserializar-serializar_respuesta u.memoria ok tt)

  -- A kernel has the segments destroyed of the process that it last named.
  pub pedir-destruir_segmentos :
      (u : Umv) (c : Conexion)
      → IsValid u
      → c.tipo_conexion ≡ tipo_kernel
      → (u' : Umv) × (pedir u c destruir_segmentos
          ≡ some (u', c, record { id_operacion = 0; estructura = sin_contenido }))
        × (vistas u' ≡ reject (es_vista_de c.id_programa) (vistas u))
        × IsValid u'
  pedir-destruir_segmentos u c v t =
      let e = eliminar_segmentos-reject lib u c.id_programa v in
      (
        (eliminar_segmentos lib u c.id_programa).0,
        pedir-despachar u c destruir_segmentos tt
            ∙ unfold despachar turno_comun turno_kernel turno_cpu in ground (arith, e.1),
        e.0,
        e.2,
      )
