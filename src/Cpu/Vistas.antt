-- ===== src/Cpu/Vistas.antt =====
-- Requests of a CPU to a valid memory server, for any segment of the process that it last named.
use tp_sistemas_operativos_u.Base.{
  ℕ, ◌+◌, ◌≤◌, ◌<◌, ◌≡◌, refl, ap, ◌∙◌, some, List, arith, length, find, Bytes, IsWord, ltb, true,
  false, le→ltb,
}
use tp_sistemas_operativos_u.Commons.{ListLib}
use tp_sistemas_operativos_u.Memoria.Rebanadas.{rebanada}
use tp_sistemas_operativos_u.Mensajes.{
  Conexion, SolicitudBytes, AlmacenarBytes, Respuesta, tipo_cpu, sin_contenido, de_buffer,
}
use tp_sistemas_operativos_u.Mensajes.Pedidos.{solicitar, almacenar, cambio_proceso_activo}
use tp_sistemas_operativos_u.Umv.{Segmento, Umv, IsValid, Vista, vistas}
use tp_sistemas_operativos_u.Umv.Tabla.{es_vista}
use tp_sistemas_operativos_u.Umv.Acceso.Especificacion.{fallo, solicitar_vista, almacenar_vista}
use tp_sistemas_operativos_u.Umv.Conexiones.Cliente.{
  pedir-solicitar, pedir-almacenar, pedir-cambio_proceso,
}
use tp_sistemas_operativos_u.Cpu.{Cpu}
use tp_sistemas_operativos_u.Cpu.Memoria.{pedir_umv}

-- The segment with this base that the process has, and that ends inside the address space.
pub record TieneVista (u : Umv) (conexion : Conexion) (base : ℕ) (v : Vista) : Type 0 where
  pub valida : IsValid u
  pub tipo : conexion.tipo_conexion ≡ tipo_cpu
  pub esta : find (es_vista conexion.id_programa base) (vistas u) ≡ some v
  pub alto : base + v.tamanio < 4294967296

module _ (lib : ListLib Segmento) {D : Type 0} where
  pub solicitar-TieneVista :
      (c : Cpu D) (base offset n : ℕ) (v : Vista)
      → TieneVista c.umv c.conexion base v
      → n + offset ≤ v.tamanio
      → pedir_umv lib c (solicitar (record { base = base; offset = offset; tamanio = n }))
        ≡ some
            (c, record { id_operacion = 2; estructura = de_buffer (rebanada offset n v.contenido) })
  unfolding pedir_umv solicitar_vista
  solicitar-TieneVista c base offset n v t h =
      let sol : SolicitudBytes = record { base = base; offset = offset; tamanio = n } in
      let cabe : ltb v.tamanio (n + offset) ≡ false = le→ltb _ _ h in
      let s : solicitar_vista (vistas c.umv) c.conexion.id_programa sol
          ≡ record { id_operacion = 2; estructura = de_buffer (rebanada offset n v.contenido) } =
        rw (solicitar_vista, t.esta, cabe) refl in
      rw
        (
          pedir-solicitar lib c.umv c.conexion sol t.valida
              (omega (arith, t.alto, h), omega (arith, t.alto, h), omega (arith, t.alto, h))
              (omega (arith, t.alto, h)) t.tipo,
          s,
        )
        refl

  -- A write that does not end inside the segment.
  pub almacenar-TieneVista_fuera :
      (c : Cpu D) (base offset n : ℕ) (bs : Bytes) (v : Vista)
      → TieneVista c.umv c.conexion base v
      → length bs ≡ n
      → 4 ≤ n
      → offset + n < 4294967296
      → v.tamanio < n + offset
      → (u : Umv) × (pedir_umv lib c
            (almacenar (record { base = base; offset = offset; tamanio = n; buffer = bs }))
          ≡ some (record c { umv = u }, fallo))
        × IsValid u
        × (vistas u ≡ vistas c.umv)
  unfolding pedir_umv almacenar_vista
  almacenar-TieneVista_fuera c base offset n bs v t l m w h =
      let st : AlmacenarBytes = record { base = base; offset = offset; tamanio = n; buffer = bs } in
      let a =
        pedir-almacenar lib c.umv c.conexion st t.valida
          (omega (arith, t.alto), omega (arith, w), omega (arith, w), l, m) (omega (arith, w)) in
      let fuera : ltb v.tamanio (n + offset) ≡ true = ground (arith, h) in
      let s : almacenar_vista (vistas c.umv) c.conexion.id_programa st ≡ (vistas c.umv, fallo) =
        rw (almacenar_vista, t.esta, fuera) refl in
      (
        a.0,
        rw (a.1, ap (λ (x : List Vista × Respuesta). x.1) s) refl,
        a.3,
        a.2 ∙ ap (λ (x : List Vista × Respuesta). x.0) s,
      )

  pub cambio_proceso-pedir :
      (c : Cpu D) (id : ℕ)
      → IsWord id
      → (r : Respuesta) × (pedir_umv lib c (cambio_proceso_activo id)
          ≡ some (record c { conexion = record c.conexion { id_programa = id } }, r))
  unfolding pedir_umv
  cambio_proceso-pedir c id w = (
    record { id_operacion = 0; estructura = sin_contenido },
    rw (pedir-cambio_proceso lib c.umv c.conexion id w) refl,
  )
