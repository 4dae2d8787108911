-- ===== src/Protocolo/Bloque.antt =====
-- A process control block on the wire: eleven words (`serializar_pcb`, `deserializar_pcb`).
use tp_sistemas_operativos_u.Base.{
  word_alone, ◌≡◌, Option, some, ◌++◌, Bytes, IsWord, ◌>>=◌, word_bytes, read_word,
  read_word-word_bytes,
}
use tp_sistemas_operativos_u.Protocolo.{Pcb}

unfoldable pub serializar_pcb : Pcb → Bytes
serializar_pcb pcb =
    word_bytes pcb.pid
    ++ (word_bytes pcb.segmento_codigo
        ++ (word_bytes pcb.segmento_stack
            ++ (word_bytes pcb.cursor_stack
                ++ (word_bytes pcb.indice_codigo
                    ++ (word_bytes pcb.indice_etiqueta
                        ++ (word_bytes pcb.program_counter
                            ++ (word_bytes pcb.tamanio_contexto
                                ++ (word_bytes pcb.tamanio_etiqueta
                                    ++ (word_bytes pcb.cantidad_de_funciones
                                        ++ word_bytes pcb.cantidad_de_etiquetas)))))))))

-- `none` reads behind the buffer.
unfoldable pub deserializar_pcb : Bytes → Option Pcb
deserializar_pcb buffer = do
  (pid, buffer) ← read_word buffer
  (segmento_codigo, buffer) ← read_word buffer
  (segmento_stack, buffer) ← read_word buffer
  (cursor_stack, buffer) ← read_word buffer
  (indice_codigo, buffer) ← read_word buffer
  (indice_etiqueta, buffer) ← read_word buffer
  (program_counter, buffer) ← read_word buffer
  (tamanio_contexto, buffer) ← read_word buffer
  (tamanio_etiqueta, buffer) ← read_word buffer
  (cantidad_de_funciones, buffer) ← read_word buffer
  (cantidad_de_etiquetas, _) ← read_word buffer
  some (record {
    pid = pid;
    segmento_codigo = segmento_codigo;
    segmento_stack = segmento_stack;
    cursor_stack = cursor_stack;
    indice_codigo = indice_codigo;
    indice_etiqueta = indice_etiqueta;
    program_counter = program_counter;
    tamanio_contexto = tamanio_contexto;
    tamanio_etiqueta = tamanio_etiqueta;
    cantidad_de_funciones = cantidad_de_funciones;
    cantidad_de_etiquetas = cantidad_de_etiquetas;
  })

-- The fields are words.
pub record IsPcb (pcb : Pcb) : Type 0 where
  pub pid : IsWord pcb.pid
  pub segmento_codigo : IsWord pcb.segmento_codigo
  pub segmento_stack : IsWord pcb.segmento_stack
  pub cursor_stack : IsWord pcb.cursor_stack
  pub indice_codigo : IsWord pcb.indice_codigo
  pub indice_etiqueta : IsWord pcb.indice_etiqueta
  pub program_counter : IsWord pcb.program_counter
  pub tamanio_contexto : IsWord pcb.tamanio_contexto
  pub tamanio_etiqueta : IsWord pcb.tamanio_etiqueta
  pub cantidad_de_funciones : IsWord pcb.cantidad_de_funciones
  pub cantidad_de_etiquetas : IsWord pcb.cantidad_de_etiquetas

-- A PCB whose fields are words is read back as it was written.
pub deserializar_pcb-serializar_pcb :
    (p : Pcb) → IsPcb p → deserializar_pcb (serializar_pcb p) ≡ some p
unfolding deserializar_pcb serializar_pcb
deserializar_pcb-serializar_pcb p h = rw (
  read_word-word_bytes p.pid _ h.pid,
  read_word-word_bytes p.segmento_codigo _ h.segmento_codigo,
  read_word-word_bytes p.segmento_stack _ h.segmento_stack,
  read_word-word_bytes p.cursor_stack _ h.cursor_stack,
  read_word-word_bytes p.indice_codigo _ h.indice_codigo,
  read_word-word_bytes p.indice_etiqueta _ h.indice_etiqueta,
  read_word-word_bytes p.program_counter _ h.program_counter,
  read_word-word_bytes p.tamanio_contexto _ h.tamanio_contexto,
  read_word-word_bytes p.tamanio_etiqueta _ h.tamanio_etiqueta,
  read_word-word_bytes p.cantidad_de_funciones _ h.cantidad_de_funciones,
  word_alone p.cantidad_de_etiquetas h.cantidad_de_etiquetas,
)
