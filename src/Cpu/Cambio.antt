-- ===== src/Cpu/Cambio.antt =====
-- A program that a CPU takes from the kernel: `recibirPcb`, and `actualizarContexto` at the start of the
-- main loop.
use tp_sistemas_operativos_u.Base.{
  ℕ, ◌+◌, ◌-◌, ◌*◌, ◌%◌, ◌≤◌, ◌≡◌, refl, sym, ap, ◌∙◌, ◌==◌, ◌>>=◌, Bool-cases, inl, inr, ltb, true,
  some, List, ◌∷◌, arith, length, find, Bytes, IsWord, sub32,
}
use mathlib.Core.Path.{subst}
use tp_sistemas_operativos_u.Commons.{ListLib, DictLib}
use tp_sistemas_operativos_u.Memoria.Rebanadas.{rebanada}
use tp_sistemas_operativos_u.Memoria.Partes.{length-rebanada}
use tp_sistemas_operativos_u.Mensajes.{Conexion, tipo_cpu}
use tp_sistemas_operativos_u.Protocolo.{Pcb, MensajeKernel, atende_proceso}
use tp_sistemas_operativos_u.Umv.{Segmento, Umv, Vista, vistas}
use tp_sistemas_operativos_u.Umv.Tabla.{es_vista}
use tp_sistemas_operativos_u.Cpu.{Cpu}
use tp_sistemas_operativos_u.Cpu.Memoria.{buffer_de, obtener_posicion_variable}
use tp_sistemas_operativos_u.Cpu.Nucleo.{recibir_de_kernel}
use tp_sistemas_operativos_u.Cpu.Rafaga.{
  recorrer_etiquetas, inicio_de_contexto, generar_bloque_etiquetas, empezar_contexto, recibir_pcb,
}
use tp_sistemas_operativos_u.Cpu.Pila.{EsPila, EnPila}
use tp_sistemas_operativos_u.Cpu.Contexto.{SinRepetir}
use tp_sistemas_operativos_u.Cpu.Marco.{Marco, actualizar_contexto-Marco}
use tp_sistemas_operativos_u.Cpu.Vistas.{TieneVista, solicitar-TieneVista, cambio_proceso-pedir}

-- The block of labels of a program, where it has one, is a segment of it that starts with whole labels.
pub data Etiquetas (u : Umv) (conexion : Conexion) (pcb : Pcb) : Type 0 where
  sin_etiquetas : pcb.tamanio_etiqueta ≡ 0 → Etiquetas u conexion pcb
  con_etiquetas :
      (v : Vista)
      → TieneVista u conexion pcb.indice_etiqueta v
      → pcb.tamanio_etiqueta ≤ v.tamanio
      → length v.contenido ≡ v.tamanio
      → recorrer_etiquetas pcb.tamanio_etiqueta (rebanada 0 pcb.tamanio_etiqueta v.contenido)
        ≡ some tt
      → Etiquetas u conexion pcb

module _ (lib : ListLib Segmento) {D : Type 0} where
  generar-Etiquetas :
      (c : Cpu D)
      → Etiquetas c.umv c.conexion c.pcb
      → (b : Bytes) × (generar_bloque_etiquetas lib c ≡ some (record c { bloque_etiquetas = b }))
  unfolding generar_bloque_etiquetas buffer_de
  generar-Etiquetas c (sin_etiquetas e) =
      (c.bloque_etiquetas, rw (generar_bloque_etiquetas, e) refl)
  generar-Etiquetas c (con_etiquetas v t h lv r) =
      elim (Bool-cases (ltb 0 c.pcb.tamanio_etiqueta)) [
        | inl hay ↦
            let n = c.pcb.tamanio_etiqueta in
            let s = solicitar-TieneVista lib c c.pcb.indice_etiqueta 0 n v t (omega (arith, h)) in
            let l : length (rebanada 0 n v.contenido) ≡ n =
              length-rebanada 0 n v.contenido (omega (arith, h, lv)) in
            let mismo : (n == n) ≡ true = ground arith in
            (rebanada 0 n v.contenido, rw (generar_bloque_etiquetas, hay, s, l, r, mismo) refl)
        | inr nada ↦ (c.bloque_etiquetas, rw (generar_bloque_etiquetas, nada) refl)
      ]

module _ (lib : ListLib Segmento) {D : Type 0} (dic : DictLib D) where
  -- The context that a PCB describes.
  empezar_contexto-Marco :
      (c : Cpu D) (pila : Bytes) (a : ℕ)
      → EnPila c pila
      → c.pcb.cursor_stack ≡ c.pcb.segmento_stack + (a + 5 * c.pcb.tamanio_contexto)
      → a + 5 * c.pcb.tamanio_contexto ≤ length pila
      → SinRepetir (rebanada a (5 * c.pcb.tamanio_contexto) pila)
      → (d : D) × (empezar_contexto lib dic c
          ≡ some
              (record c { inicio_contexto = c.pcb.segmento_stack + a; diccionario_variables = d }))
        × Marco dic
            (record c { inicio_contexto = c.pcb.segmento_stack + a; diccionario_variables = d })
            pila
            (a + 5 * c.pcb.tamanio_contexto)
  unfolding empezar_contexto inicio_de_contexto
  empezar_contexto-Marco c pila a e cur lug sin =
      let t =
        actualizar_contexto-Marco lib dic (record c { inicio_contexto = c.pcb.segmento_stack + a })
          pila a c.pcb.tamanio_contexto (a + 5 * c.pcb.tamanio_contexto) e cur refl refl lug sin in
      let ini : sub32 c.pcb.cursor_stack ((c.pcb.tamanio_contexto * 5) % 4294967296)
          ≡ c.pcb.segmento_stack + a =
        omega (arith, cur, lug, e.alto) in
      (t.0, rw (empezar_contexto, ini) t.1, t.2)

  -- The state that has taken the program `pcb`, with its context at `a` on the stack.
  unfoldable pub con_programa : Cpu D → Umv → Pcb → List MensajeKernel → ℕ → Bytes → D → Cpu D
  con_programa c u pcb rs a etiquetas d = record c {
    pcb = pcb;
    inicio_contexto = pcb.segmento_stack + a;
    diccionario_variables = d;
    bloque_etiquetas = etiquetas;
    umv = u;
    conexion = record c.conexion { id_programa = pcb.pid };
    recibidos = rs;
  }

  tomar :
      (c : Cpu D) (u : Umv) (pcb : Pcb) (rs : List MensajeKernel) (pila : Bytes) (a : ℕ)
      → EsPila u (record c.conexion { id_programa = pcb.pid }) pcb.segmento_stack pila
      → Etiquetas u (record c.conexion { id_programa = pcb.pid }) pcb
      → IsWord pcb.pid
      → pcb.cursor_stack ≡ pcb.segmento_stack + (a + 5 * pcb.tamanio_contexto)
      → a + 5 * pcb.tamanio_contexto ≤ length pila
      → SinRepetir (rebanada a (5 * pcb.tamanio_contexto) pila)
      → (b : Bytes) × (d : D) × ((do
        c' ← recibir_pcb lib dic (record c { umv = u; recibidos = atende_proceso pcb ∷ rs })
        empezar_contexto lib dic c')
          ≡ some (con_programa c u pcb rs a b d))
        × Marco dic (con_programa c u pcb rs a b d) pila (a + 5 * pcb.tamanio_contexto)
  unfolding recibir_pcb recibir_de_kernel con_programa
  tomar c u pcb rs pila a e et w cur lug sin =
      let c1 = record c { umv = u; recibidos = rs; pcb = pcb } in
      let c2 = record c1 { conexion = record c.conexion { id_programa = pcb.pid } } in
      let p = cambio_proceso-pedir lib c1 pcb.pid w in
      let g = generar-Etiquetas lib c2 et in
      let c3 = record c2 { bloque_etiquetas = g.0 } in
      let t = empezar_contexto-Marco c3 pila a e cur lug sin in
      elim (Bool-cases (ltb 0 pcb.tamanio_contexto)) [
        | inl hay ↦
            let t2 =
              empezar_contexto-Marco
                (record c3 {
                  inicio_contexto = pcb.segmento_stack + a;
                  diccionario_variables = t.0;
                })
                pila a e cur lug sin in
            (g.0, t2.0, rw (recibir_pcb, p.1, g.1, hay, t.1) t2.1, t2.2)
        | inr nada ↦ (g.0, t.0, rw (recibir_pcb, p.1, g.1, nada) t.1, t.2)
      ]

  -- A program whose context `Marco` describes on one CPU goes on, on whichever CPU of the same memory
  -- server takes its PCB, in the same context, with every variable at the same address, where its
  -- labels are none or a whole block in its segment.
  pub recibir_pcb-Marco :
      (antes c : Cpu D) (pila : Bytes) (a : ℕ) (rs : List MensajeKernel)
      → Marco dic antes pila (a + 5 * antes.pcb.tamanio_contexto)
      → antes.conexion.id_programa ≡ antes.pcb.pid
      → c.conexion.tipo_conexion ≡ tipo_cpu
      → IsWord antes.pcb.pid
      → Etiquetas antes.umv (record c.conexion { id_programa = antes.pcb.pid }) antes.pcb
      → (b : Bytes) × (d : D) × ((do
        c' ←
            recibir_pcb lib dic
              (record c { umv = antes.umv; recibidos = atende_proceso antes.pcb ∷ rs })
        empezar_contexto lib dic c')
          ≡ some (con_programa c antes.umv antes.pcb rs a b d))
        × Marco dic
            (con_programa c antes.umv antes.pcb rs a b d)
            pila
            (a + 5 * antes.pcb.tamanio_contexto)
        × ((id : ℕ)
            → obtener_posicion_variable dic (con_programa c antes.umv antes.pcb rs a b d) id
              ≡ obtener_posicion_variable dic antes id)
  recibir_pcb-Marco antes c pila a rs m id tipo w et =
      let e = m.en_pila in
      let con = record c.conexion { id_programa = antes.pcb.pid } in
      let es : EsPila antes.umv con antes.pcb.segmento_stack pila = record {
        valida = e.valida;
        tipo = tipo;
        alto = e.alto;
        corto = e.corto;
        vista = e.vista;
        esta =
            ap (λ x. find (es_vista x antes.pcb.segmento_stack) (vistas antes.umv)) (sym id)
            ∙ e.esta;
        tamanio = e.tamanio;
        contenido = e.contenido;
      } in
      let resta : a + 5 * antes.pcb.tamanio_contexto - 5 * antes.pcb.tamanio_contexto ≡ a =
        omega arith in
      let t = tomar c antes.umv antes.pcb rs pila a es et w m.cursor m.lugar (
        subst (λ x. SinRepetir (rebanada x (5 * antes.pcb.tamanio_contexto) pila)) resta
          m.sin_repetir) in
      (t.0, t.1, t.2, t.3, λ x. unfold con_programa in (t.3.nombres x ∙ sym (m.nombres x)))
