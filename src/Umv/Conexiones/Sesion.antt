-- ===== src/Umv/Conexiones/Sesion.antt =====
-- The server's state over the requests of a session (umv/sockets/sockets.c).
use tp_sistemas_operativos_u.Base.{ap, ℕ, ◌<◌, ◌≡◌, ◌≢◌, ◌∙◌, some, Bytes, arith}
use tp_sistemas_operativos_u.Commons.{ListLib}
use tp_sistemas_operativos_u.Mensajes.{Conexion, Pedido, de_tamanio}
use tp_sistemas_operativos_u.Umv.{Segmento, Umv}
use tp_sistemas_operativos_u.Umv.Conexiones.{despachar}
use tp_sistemas_operativos_u.Umv.Conexiones.Mantiene.{despachar-mantiene}
use tp_sistemas_operativos_u.Umv.Conexiones.Estado.{
  IsServidor, almacenar_bytes-IsServidor, eliminar_segmentos-IsServidor,
  generar_segmento-IsServidor,
}

positivo : (n : ℕ) → n ≢ 0 → 0 < n
positivo n h = ground (arith, h)

module _ (lib : ListLib Segmento) where
  -- Every request that has been read and has an answer, but one for a segment of no bytes, leaves a
  -- server in `IsServidor` in such a state: the table is valid and no two segments share an address.
  pub despachar-IsServidor :
      (u : Umv) (c : Conexion) (p : Pedido) (r : Umv × Bytes)
      → IsServidor u
      → p.estructura ≢ de_tamanio 0
      → despachar lib u c p ≡ some r
      → IsServidor r.0
  despachar-IsServidor u c p r s nz e =
      despachar-mantiene lib IsServidor c p.estructura
        (λ u st h. almacenar_bytes-IsServidor lib u c.id_programa st)
        (λ u n r h s.
          generar_segmento-IsServidor lib u c.id_programa n r s
            (positivo n (λ z. nz (h ∙ ap de_tamanio z))))
        (λ u. eliminar_segmentos-IsServidor lib u c.id_programa) u p.id_operacion r s e
