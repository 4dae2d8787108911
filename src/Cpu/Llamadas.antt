-- ===== src/Cpu/Llamadas.antt =====
-- The primitives of CPU/src/funcionesAnsisop/funcionesAnsisop.c that jump, call and return.
-- `metadata_buscar_etiqueta` is the parser library's search for a label in a block of labels.
use tp_sistemas_operativos_u.Base.{
  ℕ, ◌*◌, ◌%◌, ◌^◌, ◌==◌, if◌then◌else◌, ◌>>=◌, Option, some, ◌++◌, Bytes, add32, sub32, word_bytes,
  read_word,
}
use tp_sistemas_operativos_u.Commons.{ListLib, DictLib}
use tp_sistemas_operativos_u.Mensajes.{Respuesta, num_respuesta, TipoRespuesta}
use tp_sistemas_operativos_u.Mensajes.Pedidos.{solicitar, almacenar}
use tp_sistemas_operativos_u.Protocolo.{Pcb}
use tp_sistemas_operativos_u.Umv.{Segmento}
use tp_sistemas_operativos_u.Cpu.{Cpu, rafaga_fin_programa}
use tp_sistemas_operativos_u.Cpu.Memoria.{
  pedir_umv, excepcion_solicitud, buffer_de, asignar, actualizar_contexto,
}

-- 5 * pcb.tamanioContexto
abbrev pub bytes_contexto : Pcb → ℕ
bytes_contexto pcb = (5 * pcb.tamanio_contexto) % 2 ^ 32

module _ (lib : ListLib Segmento) {D : Type 0} (dic : DictLib D)
    (metadata_buscar_etiqueta : Bytes → Bytes → ℕ → ℕ) where
  unfoldable pub ir_al_label : Cpu D → Bytes → Cpu D
  ir_al_label c etiqueta = record c {
    pcb = record c.pcb {
      program_counter = metadata_buscar_etiqueta etiqueta c.bloque_etiquetas c.pcb.tamanio_etiqueta;
    };
  }

  -- What both calls have in common: the words that are stored on top of the stack.
  unfoldable pub llamar : Cpu D → Bytes → (nuevos_punteros : Bytes) → (cuantos : ℕ) → Option (Cpu D)
  llamar c0 etiqueta nuevos_punteros cuantos = do
    let c = record c0 {
      diccionario_variables = dic.dictionary_clean c0.diccionario_variables;
      pcb = record c0.pcb { tamanio_contexto = 0 };
    }
    (c', r) ← pedir_umv lib c (
        almacenar (record {
          base = c.pcb.segmento_stack;
          offset = sub32 c.pcb.cursor_stack c.pcb.segmento_stack;
          tamanio = cuantos;
          buffer = nuevos_punteros;
        }))
    (if r.id_operacion == num_respuesta TipoRespuesta.ok
        then (let s = ir_al_label c' etiqueta in
            some
              (record s { pcb = record s.pcb { cursor_stack = add32 s.pcb.cursor_stack cuantos } }))
        else excepcion_solicitud c' r)

  unfoldable pub llamar_sin_retorno : Cpu D → (etiqueta : Bytes) → Option (Cpu D)
  llamar_sin_retorno c etiqueta =
      llamar c etiqueta
        (word_bytes (sub32 c.pcb.cursor_stack (bytes_contexto c.pcb))
          ++ word_bytes c.pcb.program_counter)
        8

  unfoldable pub llamar_con_retorno :
      Cpu D → (etiqueta : Bytes) → (donde_retornar : ℕ) → Option (Cpu D)
  llamar_con_retorno c etiqueta donde_retornar =
      llamar c etiqueta
        (word_bytes (sub32 c.pcb.cursor_stack (bytes_contexto c.pcb))
          ++ (word_bytes c.pcb.program_counter ++ word_bytes donde_retornar))
        12

  -- The request of both returns for the words on top of the stack.
  unfoldable pub pedir_punteros : Cpu D → (cuantos : ℕ) → Option (Cpu D × Respuesta)
  pedir_punteros c cuantos = pedir_umv lib c (
      solicitar (record {
        base = c.pcb.segmento_stack;
        offset =
            sub32 c.pcb.cursor_stack
              (add32 (add32 c.pcb.segmento_stack (bytes_contexto c.pcb)) cuantos);
        tamanio = cuantos;
      }))

  -- The context and the program counter that were on top of the stack.
  unfoldable pub restaurar : Cpu D → (inicio pc cuantos : ℕ) → Cpu D
  restaurar c inicio pc cuantos = record c {
    inicio_contexto = inicio;
    pcb = record c.pcb {
      program_counter = pc;
      cursor_stack = sub32 c.pcb.cursor_stack (add32 (bytes_contexto c.pcb) cuantos);
    };
  }

  unfoldable pub finalizar : Cpu D → Option (Cpu D)
  finalizar c =
      if sub32 c.pcb.cursor_stack (add32 c.pcb.segmento_stack (bytes_contexto c.pcb)) == 0
      then some (record c { estado_rafaga = rafaga_fin_programa })
      else (do
        (c', r) ← pedir_punteros c 8
        (if r.id_operacion == num_respuesta TipoRespuesta.bytes_solicitados
            then (do
              b ← buffer_de r
              (inicio, b) ← read_word b
              (pc, b) ← read_word b
              actualizar_contexto lib dic (restaurar c' inicio pc 8))
            else excepcion_solicitud c' r))

  unfoldable pub retornar : Cpu D → (retorno : ℕ) → Option (Cpu D)
  retornar c retorno = do
    (c', r) ← pedir_punteros c 12
    (if r.id_operacion == num_respuesta TipoRespuesta.bytes_solicitados
        then (do
          b ← buffer_de r
          (inicio, b) ← read_word b
          (pc, b) ← read_word b
          (donde_retornar, b) ← read_word b
          asignado ← asignar lib (restaurar c' inicio pc 12) donde_retornar retorno
          s ← actualizar_contexto lib dic asignado
          some (
              if s.pcb.cursor_stack == s.pcb.segmento_stack
              then record s { estado_rafaga = rafaga_fin_programa }
              else s))
        else excepcion_solicitud c' r)
