-- ===== src/Cpu/Pila.antt =====
-- The stack segment of the program in execution, as the CPU reaches it through the memory server.
use tp_sistemas_operativos_u.Base.{
  ℕ, ◌+◌, ◌≤◌, ◌<◌, ◌≡◌, refl, ap, ◌∙◌, some, List, arith, length, find, Bytes, ltb, false, le→ltb,
}
use tp_sistemas_operativos_u.Commons.{ListLib}
use tp_sistemas_operativos_u.Memoria.Rebanadas.{sobrescribir, rebanada}
use tp_sistemas_operativos_u.Memoria.Partes.{length-sobrescribir}
use tp_sistemas_operativos_u.Mensajes.{
  Conexion, SolicitudBytes, AlmacenarBytes, Respuesta, tipo_cpu, sin_contenido, de_buffer,
}
use tp_sistemas_operativos_u.Mensajes.Pedidos.{solicitar, almacenar}
use tp_sistemas_operativos_u.Umv.{Segmento, Umv, IsValid, Vista, vistas}
use tp_sistemas_operativos_u.Umv.Tabla.{es_vista, guardar}
use tp_sistemas_operativos_u.Umv.Acceso.Especificacion.{
  solicitar_vista, almacenar_vista, find-guardar,
}
use tp_sistemas_operativos_u.Umv.Conexiones.Cliente.{pedir-solicitar, pedir-almacenar}
use tp_sistemas_operativos_u.Cpu.{Cpu}
use tp_sistemas_operativos_u.Cpu.Memoria.{pedir_umv}

-- The CPU is connected, as a CPU, to a valid server, in which the stack segment of its PCB is a segment
-- of the process that it last named, with the bytes `pila`, below 2 ^ 31 of them, and ends inside the address space.
pub record EsPila (u : Umv) (conexion : Conexion) (base : ℕ) (pila : Bytes) : Type 0 where
  pub valida : IsValid u
  pub tipo : conexion.tipo_conexion ≡ tipo_cpu
  pub alto : base + length pila < 4294967296
  pub corto : length pila < 2147483648
  pub vista : Vista
  pub esta : find (es_vista conexion.id_programa base) (vistas u) ≡ some vista
  pub tamanio : vista.tamanio ≡ length pila
  pub contenido : vista.contenido ≡ pila

abbrev pub EnPila : {D : Type 0} → Cpu D → Bytes → Type 0
EnPila c pila = EsPila c.umv c.conexion c.pcb.segmento_stack pila

module _ (lib : ListLib Segmento) {D : Type 0} where
  pub solicitar-EnPila :
      (c : Cpu D) (pila : Bytes) (offset n : ℕ)
      → EnPila c pila
      → offset + n ≤ length pila
      → pedir_umv lib c
          (solicitar (record { base = c.pcb.segmento_stack; offset = offset; tamanio = n }))
        ≡ some (c, record { id_operacion = 2; estructura = de_buffer (rebanada offset n pila) })
  unfolding pedir_umv solicitar_vista
  solicitar-EnPila c pila offset n e h =
      let sol : SolicitudBytes = record {
        base = c.pcb.segmento_stack;
        offset = offset;
        tamanio = n;
      } in
      let cabe : ltb e.vista.tamanio (n + offset) ≡ false = le→ltb _ _ (omega (arith, e.tamanio)) in
      let v : solicitar_vista (vistas c.umv) c.conexion.id_programa sol
          ≡ record { id_operacion = 2; estructura = de_buffer (rebanada offset n pila) } =
        rw (solicitar_vista, e.esta, cabe, e.contenido) refl in
      rw
        (
          pedir-solicitar lib c.umv c.conexion sol e.valida (omega (arith, e.alto, h))
              (omega (arith, e.alto, h)) e.tipo,
          v,
        )
        refl

  pub almacenar-EnPila :
      (c : Cpu D) (pila : Bytes) (offset n : ℕ) (bs : Bytes)
      → EnPila c pila
      → length bs ≡ n
      → 4 ≤ n
      → offset + n ≤ length pila
      → (u : Umv) × (pedir_umv lib c (
            almacenar
              (record { base = c.pcb.segmento_stack; offset = offset; tamanio = n; buffer = bs }))
          ≡ some (record c { umv = u }, record { id_operacion = 0; estructura = sin_contenido }))
        × EnPila (record c { umv = u }) (sobrescribir offset bs pila)
  unfolding pedir_umv almacenar_vista
  almacenar-EnPila c pila offset n bs e l m h =
      let st : AlmacenarBytes = record {
        base = c.pcb.segmento_stack;
        offset = offset;
        tamanio = n;
        buffer = bs;
      } in
      let a =
        pedir-almacenar lib c.umv c.conexion st e.valida
          (omega (arith, e.alto, h), omega (arith, e.alto, h), omega (arith, e.alto, h), l, m)
          (omega (arith, e.alto, h)) in
      let id = c.conexion.id_programa in
      let cabe : ltb e.vista.tamanio (n + offset) ≡ false = le→ltb _ _ (omega (arith, e.tamanio)) in
      let v : almacenar_vista (vistas c.umv) id st ≡ (
        guardar id st.base offset bs (vistas c.umv),
        record { id_operacion = 0; estructura = sin_contenido },
      ) =
        rw (almacenar_vista, e.esta, cabe) refl in
      let r = ap (λ (x : List Vista × Respuesta). x.1) v in
      let vs = a.2 ∙ ap (λ (x : List Vista × Respuesta). x.0) v in
      (
        a.0,
        rw (a.1, r) refl,
        record {
          valida = a.3;
          tipo = e.tipo;
          alto = omega (arith, e.alto, length-sobrescribir offset bs pila);
          corto = omega (arith, e.corto, length-sobrescribir offset bs pila);
          vista = record e.vista { contenido = sobrescribir offset bs e.vista.contenido };
          esta =
              ap (find (es_vista id c.pcb.segmento_stack)) vs
              ∙ find-guardar id st.base offset bs (vistas c.umv) e.vista e.esta;
          tamanio = omega (arith, e.tamanio, length-sobrescribir offset bs pila);
          contenido = ap (sobrescribir offset bs) e.contenido;
        },
      )
