-- ===== src/Cpu/Desborde.antt =====
-- A variable that the stack has no room for.
use tp_sistemas_operativos_u.Base.{
  ℕ, ◌+◌, ◌<◌, ◌≡◌, refl, ap, ◌∙◌, false, some, [], ◌∷◌, ◌++◌, arith, length, find, Bytes, sub32,
  read_text, codes,
}
use tp_sistemas_operativos_u.Commons.{ListLib, DictLib}
use tp_sistemas_operativos_u.Umv.Acceso.Especificacion.{fallo}
use tp_sistemas_operativos_u.Protocolo.{exception}
use tp_sistemas_operativos_u.Umv.{Segmento, Umv}
use tp_sistemas_operativos_u.Umv.Tabla.{es_vista}
use tp_sistemas_operativos_u.Cpu.{Cpu, rafaga_exception}
use tp_sistemas_operativos_u.Cpu.Memoria.{excepcion_solicitud, definir_variable}
use tp_sistemas_operativos_u.Cpu.Rafaga.{puede_seguir_ejecutando, avisa}
use tp_sistemas_operativos_u.Cpu.Pila.{EnPila}
use tp_sistemas_operativos_u.Cpu.Marco.{Marco}
use tp_sistemas_operativos_u.Cpu.Vistas.{TieneVista, almacenar-TieneVista_fuera}

-- The text of a segmentation fault, without its zero.
abbrev pub aviso_segmentation_fault : Bytes
aviso_segmentation_fault =
    codes "Segmentation Fault: esta tratando de acceder a un sector de memoria no permitido"

-- The state that has told the kernel of it, where the memory server is then `u`.
unfoldable pub con_excepcion : {D : Type 0} → Cpu D → Umv → Cpu D
con_excepcion c u = record c {
  umv = u;
  estado_rafaga = rafaga_exception;
  enviados = c.enviados ++ exception aviso_segmentation_fault ∷ [];
}

excepcion_solicitud-fallo :
    {D : Type 0} (c : Cpu D)
    → excepcion_solicitud c fallo
      ≡ some (record c {
        estado_rafaga = 9;
        enviados = c.enviados ++ exception aviso_segmentation_fault ∷ [];
      })
unfolding excepcion_solicitud read_text
excepcion_solicitud-fallo c = refl

module _ (lib : ListLib Segmento) {D : Type 0} (dic : DictLib D) where
  -- Where fewer than five bytes are left on the stack, the definition of a variable writes none of it,
  -- the kernel is told of the fault, and the burst is over without a notice of its end.
  pub definir_variable-desborde :
      (c : Cpu D) (pila : Bytes) (usado identificador v1 v2 v3 v4 quantum i : ℕ)
      → Marco dic c pila usado
      → length pila < usado + 5
      → (u : Umv) × (definir_variable lib dic c identificador (v1 ∷ v2 ∷ v3 ∷ v4 ∷ [])
          ≡ some (con_excepcion c u, 0))
        × EnPila (con_excepcion c u) pila
        × (puede_seguir_ejecutando (con_excepcion c u) quantum i ≡ false)
        × (avisa (con_excepcion c u).estado_rafaga ≡ false)
  unfolding definir_variable con_excepcion puede_seguir_ejecutando avisa
  definir_variable-desborde c pila usado identificador v1 v2 v3 v4 quantum i m h =
      let e = m.en_pila in
      let t : TieneVista c.umv c.conexion c.pcb.segmento_stack e.vista = record {
        valida = e.valida;
        tipo = e.tipo;
        esta = e.esta;
        alto = omega (arith, e.alto, e.tamanio);
      } in
      let a =
        almacenar-TieneVista_fuera lib c c.pcb.segmento_stack usado 5
          (identificador ∷ v1 ∷ v2 ∷ v3 ∷ v4 ∷ []) e.vista t refl (omega arith)
          (omega (arith, m.lugar, e.corto)) (omega (arith, h, e.tamanio)) in
      let o : sub32 c.pcb.cursor_stack c.pcb.segmento_stack ≡ usado =
        omega (arith, m.cursor, m.lugar, e.alto) in
      (
        a.0,
        rw (definir_variable, o, a.1, excepcion_solicitud-fallo (record c { umv = a.0 })) refl,
        record {
          valida = a.2;
          tipo = e.tipo;
          alto = e.alto;
          corto = e.corto;
          vista = e.vista;
          esta = ap (find (es_vista c.conexion.id_programa c.pcb.segmento_stack)) a.3 ∙ e.esta;
          tamanio = e.tamanio;
          contenido = e.contenido;
        },
        ground arith,
        refl,
      )
