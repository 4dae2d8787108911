-- ===== src/Cpu/Codigo.antt =====
-- The fetch of a line: the index of the code, and the text of the program.
use tp_sistemas_operativos_u.Base.{
  ℕ, ◌+◌, ◌*◌, ◌%◌, ◌≤◌, ◌≡◌, refl, ◌==◌, some, [], ◌++◌, arith, length, Bytes, IsText, word_bytes,
  word_alone, read_word-word_bytes, read_text-append, true,
}
use tp_sistemas_operativos_u.Commons.{ListLib}
use tp_sistemas_operativos_u.Memoria.Rebanadas.{rebanada}
use tp_sistemas_operativos_u.Umv.{Segmento, Vista}
use tp_sistemas_operativos_u.Cpu.{Cpu}
use tp_sistemas_operativos_u.Cpu.Memoria.{buffer_de}
use tp_sistemas_operativos_u.Cpu.Rafaga.{proxima_linea_de_codigo, traer_proxima_instruccion}
use tp_sistemas_operativos_u.Cpu.Vistas.{TieneVista, solicitar-TieneVista}

module _ (lib : ListLib Segmento) {D : Type 0} where
  linea_en :
      (c : Cpu D) (codigo : Vista) (offset tamanio : ℕ) (linea : Bytes)
      → TieneVista c.umv c.conexion c.pcb.segmento_codigo codigo
      → tamanio + offset ≤ codigo.tamanio
      → rebanada offset tamanio codigo.contenido ≡ linea
      → length linea ≡ tamanio
      → IsText linea
      → proxima_linea_de_codigo lib c (word_bytes offset ++ word_bytes tamanio)
        ≡ some (c, some linea)
  unfolding proxima_linea_de_codigo buffer_de
  linea_en c codigo offset tamanio linea t h e l x =
      let s = solicitar-TieneVista lib c c.pcb.segmento_codigo offset tamanio codigo t h in
      let mismo : (length linea == tamanio) ≡ true = ground (arith, l) in
      rw
        (
          proxima_linea_de_codigo,
          read_word-word_bytes offset (word_bytes tamanio) (omega (arith, h, t.alto)),
          word_alone tamanio (omega (arith, h, t.alto)),
          s,
          e,
          read_text-append linea [] x,
          mismo,
        )
        refl

  -- Where the entry of the index of the code at the program counter and the part of the text that it
  -- names by its offset and its size lie in their segments, and the part has no zero byte, the line
  -- that is fetched is that part, and the CPU stays as it was.
  pub traer_proxima_instruccion-linea :
      (c : Cpu D) (indice codigo : Vista) (offset tamanio : ℕ) (linea : Bytes)
      → TieneVista c.umv c.conexion c.pcb.indice_codigo indice
      → TieneVista c.umv c.conexion c.pcb.segmento_codigo codigo
      → 8 * c.pcb.program_counter + 8 ≤ indice.tamanio
      → rebanada (8 * c.pcb.program_counter) 8 indice.contenido
        ≡ word_bytes offset ++ word_bytes tamanio
      → tamanio + offset ≤ codigo.tamanio
      → rebanada offset tamanio codigo.contenido ≡ linea
      → length linea ≡ tamanio
      → IsText linea
      → traer_proxima_instruccion lib c ≡ some (c, some linea)
  unfolding traer_proxima_instruccion buffer_de
  traer_proxima_instruccion-linea c indice codigo offset tamanio linea ti tc h p h2 e l x =
      let s =
        solicitar-TieneVista lib c c.pcb.indice_codigo (8 * c.pcb.program_counter) 8 indice ti
          (omega (arith, h)) in
      let o : (8 * c.pcb.program_counter) % 4294967296 ≡ 8 * c.pcb.program_counter =
        omega (arith, h, ti.alto) in
      rw (traer_proxima_instruccion, o, s, p) (linea_en c codigo offset tamanio linea tc h2 e l x)
