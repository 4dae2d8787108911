-- ===== src/Cpu/Retorno.antt =====
-- A call and the return from it, over the stack: what `llamarSinRetorno` and `llamarConRetorno` put on
-- top of it, and what `finalizar` and `retornar` find there.
use tp_sistemas_operativos_u.Base.{
  ℕ, ◌+◌, ◌*◌, ◌≤◌, ◌<◌, ◌≡◌, refl, ◌==◌, false, some, ◌++◌, arith, length, Bytes, IsWord, add32,
  sub32, word_bytes, read_word-word_bytes, word_alone,
}
use tp_sistemas_operativos_u.Commons.{ListLib, DictLib}
use tp_sistemas_operativos_u.Memoria.Rebanadas.{sobrescribir, rebanada}
use tp_sistemas_operativos_u.Memoria.Partes.{length-sobrescribir}
use tp_sistemas_operativos_u.Mensajes.{de_buffer}
use tp_sistemas_operativos_u.Umv.{Segmento, Umv}
use tp_sistemas_operativos_u.Cpu.{Cpu}
use tp_sistemas_operativos_u.Cpu.Memoria.{buffer_de, nombre_variable, obtener_posicion_variable}
use tp_sistemas_operativos_u.Cpu.Llamadas.{
  bytes_contexto, ir_al_label, llamar, pedir_punteros, restaurar, finalizar, retornar,
}
use tp_sistemas_operativos_u.Cpu.Pila.{solicitar-EnPila, almacenar-EnPila}
use tp_sistemas_operativos_u.Cpu.Contexto.{direccion, SinRepetir}
use tp_sistemas_operativos_u.Cpu.Marco.{Marco, dereferenciar-asignar, actualizar_contexto-Marco}

module _ (lib : ListLib Segmento) {D : Type 0} (dic : DictLib D)
    (metadata_buscar_etiqueta : Bytes → Bytes → ℕ → ℕ) where
  -- The state after a call that has stored `cuantos` bytes, where the memory server is then `u`.
  unfoldable pub llamada : Cpu D → (usado : ℕ) → (etiqueta : Bytes) → (cuantos : ℕ) → Umv → Cpu D
  llamada c usado etiqueta cuantos u = record c {
    umv = u;
    diccionario_variables = dic.dictionary_clean c.diccionario_variables;
    pcb = record c.pcb {
      tamanio_contexto = 0;
      program_counter = metadata_buscar_etiqueta etiqueta c.bloque_etiquetas c.pcb.tamanio_etiqueta;
      cursor_stack = c.pcb.segmento_stack + usado + cuantos;
    };
  }

  pub llamar-Marco :
      (c : Cpu D) (pila : Bytes) (usado : ℕ) (etiqueta punteros : Bytes) (cuantos : ℕ)
      → Marco dic c pila usado
      → length punteros ≡ cuantos
      → 4 ≤ cuantos
      → usado + cuantos ≤ length pila
      → (u : Umv) × (llamar lib dic metadata_buscar_etiqueta c etiqueta punteros cuantos
          ≡ some (llamada c usado etiqueta cuantos u))
        × Marco dic
            (llamada c usado etiqueta cuantos u)
            (sobrescribir usado punteros pila)
            (usado + cuantos)
  unfolding llamar llamada ir_al_label
  llamar-Marco c pila usado etiqueta punteros cuantos m l c4 h =
      let e = m.en_pila in
      let o : sub32 c.pcb.cursor_stack c.pcb.segmento_stack ≡ usado =
        omega (arith, m.cursor, e.alto, h) in
      let c1 = record c {
        diccionario_variables = dic.dictionary_clean c.diccionario_variables;
        pcb = record c.pcb { tamanio_contexto = 0 };
      } in
      let a = almacenar-EnPila lib c1 pila usado cuantos punteros e l c4 h in
      let cur : add32 c.pcb.cursor_stack cuantos ≡ c.pcb.segmento_stack + usado + cuantos =
        omega (arith, m.cursor, e.alto, h) in
      (
        a.0,
        rw (llamar, o, a.1, cur) refl,
        record {
          en_pila = a.2;
          cursor = omega arith;
          lugar = omega (arith, h, length-sobrescribir usado punteros pila);
          entero = omega arith;
          sin_repetir = unfold SinRepetir in tt;
          nombres = λ id.
              unfold obtener_posicion_variable direccion in
              dic.dictionary_clean_lem c.diccionario_variables (nombre_variable id);
        },
      )

  -- The state after a return to the context of `n` variables at `a`.
  unfoldable pub vuelta : Cpu D → (a n pc : ℕ) → D → Umv → Cpu D
  vuelta c a n pc d u = record c {
    umv = u;
    inicio_contexto = c.pcb.segmento_stack + a;
    diccionario_variables = d;
    pcb = record c.pcb {
      tamanio_contexto = n;
      program_counter = pc;
      cursor_stack = c.pcb.segmento_stack + (a + 5 * n);
    };
  }

  pub pedir_punteros-Marco :
      (c : Cpu D) (pila : Bytes) (usado previo cuantos : ℕ)
      → Marco dic c pila usado
      → usado ≡ previo + cuantos + 5 * c.pcb.tamanio_contexto
      → pedir_punteros lib dic metadata_buscar_etiqueta c cuantos
        ≡ some
            (c, record { id_operacion = 2; estructura = de_buffer (rebanada previo cuantos pila) })
  unfolding pedir_punteros
  pedir_punteros-Marco c pila usado previo cuantos m u =
      let e = m.en_pila in
      let o : sub32 c.pcb.cursor_stack
            (add32 (add32 c.pcb.segmento_stack (bytes_contexto c.pcb)) cuantos)
          ≡ previo =
        omega (arith, m.cursor, m.lugar, e.alto, u) in
      rw (pedir_punteros, o)
        (solicitar-EnPila lib c pila previo cuantos e (omega (arith, m.lugar, u)))

  -- `retornar` finds the three words that a call has left under the variables of its own context: it
  -- gives the value to the address, and is back in the context of the caller.
  pub retornar-Marco :
      (c : Cpu D) (pila : Bytes) (a n pc d retorno : ℕ)
      → Marco dic c pila (a + 5 * n + 12 + 5 * c.pcb.tamanio_contexto)
      → rebanada (a + 5 * n) 12 pila
        ≡ word_bytes (c.pcb.segmento_stack + a)
          ++ (word_bytes pc ++ word_bytes (c.pcb.segmento_stack + d))
      → IsWord pc
      → IsWord retorno
      → d + 4 ≤ length pila
      → 0 < a + 5 * n
      → SinRepetir (rebanada a (5 * n) (sobrescribir d (word_bytes retorno) pila))
      → (u : Umv) × (dd : D) × (retornar lib dic metadata_buscar_etiqueta c retorno
          ≡ some (vuelta c a n pc dd u))
        × Marco dic (vuelta c a n pc dd u) (sobrescribir d (word_bytes retorno) pila) (a + 5 * n)
  unfolding retornar restaurar vuelta buffer_de
  retornar-Marco c pila a n pc d retorno m p w wr h pos sin =
      let e = m.en_pila in
      let s = pedir_punteros-Marco c pila _ (a + 5 * n) 12 m refl in
      let c1 = record c {
        inicio_contexto = c.pcb.segmento_stack + a;
        pcb = record c.pcb {
          program_counter = pc;
          cursor_stack = c.pcb.segmento_stack + (a + 5 * n);
        };
      } in
      let g = dereferenciar-asignar lib c1 pila d retorno e h wr in
      let t =
        actualizar_contexto-Marco lib dic (record c1 { umv = g.0 })
          (sobrescribir d (word_bytes retorno) pila) a n (a + 5 * n) g.3 refl refl refl
          (omega (arith, m.lugar, length-sobrescribir d (word_bytes retorno) pila)) sin in
      let cur : sub32 c.pcb.cursor_stack (add32 (bytes_contexto c.pcb) 12)
          ≡ c.pcb.segmento_stack + (a + 5 * n) =
        omega (arith, m.cursor, m.lugar, e.alto) in
      let sigue : (c.pcb.segmento_stack + (a + 5 * n) == c.pcb.segmento_stack) ≡ false =
        ground (arith, pos) in
      (
        g.0,
        t.0,
        rw
            (
              retornar,
              s,
              p,
              read_word-word_bytes (c.pcb.segmento_stack + a)
                  (word_bytes pc ++ word_bytes (c.pcb.segmento_stack + d))
                  (omega (arith, m.lugar, e.alto)),
              read_word-word_bytes pc (word_bytes (c.pcb.segmento_stack + d)) w,
              word_alone (c.pcb.segmento_stack + d) (omega (arith, h, e.alto)),
              cur,
              g.1,
              t.1,
              sigue,
            )
            refl,
        t.2,
      )

  -- `finalizar` finds the two words that a call without a value has left under the variables of its own
  -- context, and is back in the context of the caller.
  pub finalizar-Marco :
      (c : Cpu D) (pila : Bytes) (a n pc : ℕ)
      → Marco dic c pila (a + 5 * n + 8 + 5 * c.pcb.tamanio_contexto)
      → rebanada (a + 5 * n) 8 pila ≡ word_bytes (c.pcb.segmento_stack + a) ++ word_bytes pc
      → IsWord pc
      → SinRepetir (rebanada a (5 * n) pila)
      → (dd : D) × (finalizar lib dic metadata_buscar_etiqueta c ≡ some (vuelta c a n pc dd c.umv))
        × Marco dic (vuelta c a n pc dd c.umv) pila (a + 5 * n)
  unfolding finalizar restaurar vuelta buffer_de
  finalizar-Marco c pila a n pc m p w sin =
      let e = m.en_pila in
      let s = pedir_punteros-Marco c pila _ (a + 5 * n) 8 m refl in
      let c1 = record c {
        inicio_contexto = c.pcb.segmento_stack + a;
        pcb = record c.pcb {
          program_counter = pc;
          cursor_stack = c.pcb.segmento_stack + (a + 5 * n);
        };
      } in
      let t =
        actualizar_contexto-Marco lib dic c1 pila a n (a + 5 * n) e refl refl refl
          (omega (arith, m.lugar)) sin in
      let cur : sub32 c.pcb.cursor_stack (add32 (bytes_contexto c.pcb) 8)
          ≡ c.pcb.segmento_stack + (a + 5 * n) =
        omega (arith, m.cursor, m.lugar, e.alto) in
      let hay : sub32 c.pcb.cursor_stack (add32 c.pcb.segmento_stack (bytes_contexto c.pcb))
          ≡ a + 5 * n + 8 =
        omega (arith, m.cursor, m.lugar, e.alto) in
      let sigue : (a + 5 * n + 8 == 0) ≡ false = ground arith in
      (
        t.0,
        rw
            (
              finalizar,
              hay,
              sigue,
              s,
              p,
              read_word-word_bytes (c.pcb.segmento_stack + a) (word_bytes pc)
                  (omega (arith, m.lugar, e.alto)),
              word_alone pc w,
              cur,
              t.1,
            )
            refl,
        t.2,
      )
