-- ===== src/Kernel/Sistema/Llegada.antt =====
-- The arrival of a program in `main` of kernelMain.c.
use tp_sistemas_operativos_u.Base.{
  ℕ, suc, ◌+◌, ◌^◌, ◌≡◌, ◌≤◌, ◌<◌, refl, sym, ap, ◌∙◌, ◌==◌, ltb, ltb→lt, none, some, length, Bytes,
  arith, Bool-cases, some_inj, inl, inr,
}
use mathlib.Core.Path.{subst}
use mathlib.Core.Option.{none-ne-some}
use tp_sistemas_operativos_u.Commons.{ListLib}
use tp_sistemas_operativos_u.Protocolo.{Pcb}
use tp_sistemas_operativos_u.Kernel.{Kernel, Programa}
use tp_sistemas_operativos_u.Kernel.Planificador.Invariante.{IsKernel}
use tp_sistemas_operativos_u.Kernel.Carga.{NuevoProg}
use tp_sistemas_operativos_u.Kernel.Sistema.{
  Sistema, Metadata, con_programa, generar_pid, nuevo_programa, recibir_programa, o_vacio,
  tamanio_etiqueta_de,
}
use tp_sistemas_operativos_u.Kernel.Sistema.Sumas.{uno}
use tp_sistemas_operativos_u.Kernel.Sistema.Cuenta.{
  en_ejecucion, en_colas, pid_de, uno-mismo, uno-otro, list_add-uno_mas,
}
use tp_sistemas_operativos_u.Kernel.Sistema.Invariante.{apariciones, EsSistema}

-- The part of the invariant of the queues that does not see the programs that have arrived.
pub IsKernel-avisado :
    (n : ℕ) (k : Kernel) (programas : ℕ → Programa) (avisos : ℕ)
    → IsKernel n k
    → IsKernel n (record k { programas = programas; nuevo_programa_sem = avisos })
IsKernel-avisado n k programas avisos i = record {
  listos = i.listos;
  salidas = i.salidas;
  semaforos = i.semaforos;
  dispositivos = i.dispositivos;
  nivel = i.nivel;
}

module _ (lib : (A : Type 0) → ListLib A) where
  -- A program that arrives, under the number after the last one.
  llega-EsSistema :
      (n : ℕ) (s : Sistema) (prog : NuevoProg) (nuevo : Programa) (avisos : ℕ)
      → EsSistema n s
      → prog.programa ≡ suc s.pid_general
      → nuevo.pcb.pid ≡ suc s.pid_general
      → EsSistema n (record s {
        kernel = record (con_programa s.kernel prog.programa nuevo) { nuevo_programa_sem = avisos };
        pid_general = suc s.pid_general;
        lista_de_programas = (lib NuevoProg).list_add s.lista_de_programas prog;
      })
  llega-EsSistema n s prog nuevo avisos h es_suyo suyo = record {
    colas = unfold con_programa in IsKernel-avisado n s.kernel _ avisos h.colas;
    desde = omega (arith, h.desde);
    pids = numeros;
    una_vez = λ p. cuenta p;
    rango = λ p a. cabe p a;
    servidos =
        λ i p a. unfold con_programa en_ejecucion in (unfold en_ejecucion in h.servidos i p a);
    exclusivos = h.exclusivos;
  }
    where
      s' : Sistema
      s' = record s {
        kernel = record (con_programa s.kernel prog.programa nuevo) { nuevo_programa_sem = avisos };
        pid_general = suc s.pid_general;
        lista_de_programas = (lib NuevoProg).list_add s.lista_de_programas prog;
      }

      una_mas : (p : ℕ) → apariciones p s' ≡ apariciones p s + uno p prog.programa
      una_mas p =
          let a =
            list_add-uno_mas lib (λ (x : NuevoProg). uno p x.programa) s.lista_de_programas prog in
          unfold apariciones en_colas en_ejecucion con_programa in omega (arith, a)

      nueva : apariciones (suc s.pid_general) s ≡ 0
      nueva = elim (Bool-cases (ltb 0 (apariciones (suc s.pid_general) s))) [
        | inl hay ↦ absurd (omega (arith, (h.rango (suc s.pid_general) (ltb→lt _ _ hay)).1))
        | inr ninguna ↦ ground (arith, ninguna)
      ]

      numeros : (p : ℕ) → 1000 < p → p ≤ suc s.pid_general → pid_de s'.kernel p ≡ p
      numeros p a b = elim (Bool-cases (p == prog.programa)) [
        | inl si ↦
            let m : p ≡ prog.programa = ground arith in
            unfold con_programa in rw (pid_de, si) (suyo ∙ sym (m ∙ es_suyo))
        | inr otro ↦
            let g : p ≤ s.pid_general = ground (arith, otro, b, es_suyo) in
            unfold con_programa in rw (pid_de, otro) (h.pids p a g)
      ]

      cuenta : (p : ℕ) → apariciones p s' ≤ 1
      cuenta p = elim (Bool-cases (p == prog.programa)) [
        | inl si ↦
            let m : p ≡ prog.programa = ground arith in
            let z : apariciones p s ≡ 0 = ap (λ q. apariciones q s) (m ∙ es_suyo) ∙ nueva in
            let u : uno p prog.programa ≡ 1 = ap (uno p) (sym m) ∙ uno-mismo p in
            omega (arith, z, u, una_mas p)
        | inr otro ↦
            let u : uno p prog.programa ≡ 0 =
              uno-otro p prog.programa (λ m. absurd (ground (arith, otro, m))) in
            omega (arith, u, una_mas p, h.una_vez p)
      ]

      cabe : (p : ℕ) → 0 < apariciones p s' → (1000 < p) × (p ≤ suc s.pid_general)
      cabe p a = elim (Bool-cases (p == prog.programa)) [
        | inl si ↦
            let m : p ≡ prog.programa = ground arith in
            (omega (arith, m, es_suyo, h.desde), omega (arith, m, es_suyo))
        | inr otro ↦
            let u : uno p prog.programa ≡ 0 =
              uno-otro p prog.programa (λ m. absurd (ground (arith, otro, m))) in
            let r = h.rango p (omega (arith, u, una_mas p, a)) in (r.0, omega (arith, r.1))
      ]

  -- A program arrives under the next number, which no program has had.
  pub recibe-EsSistema :
      (metadata_desde_literal : Bytes → Metadata) (basura : Pcb) (n : ℕ) (s t : Sistema)
      (archivo : Bytes) (socket : ℕ)
      → EsSistema n s
      → recibir_programa lib metadata_desde_literal basura s archivo socket ≡ some t
      → EsSistema n t
  unfolding recibir_programa nuevo_programa generar_pid
  recibe-EsSistema lit basura n s t archivo socket h e =
      elim (Bool-cases (ltb 0 (length archivo))) [
        | inr vacio ↦
            let f : recibir_programa lib lit basura s archivo socket ≡ some s =
              rw (recibir_programa, vacio) refl in
            subst (EsSistema n) (some_inj (sym f ∙ e)) h
        | inl hay ↦ elim (Bool-cases (ltb (suc s.pid_general) (2 ^ 31))) [
          | inr fuera ↦
              let f : recibir_programa lib lit basura s archivo socket ≡ none =
                rw (recibir_programa, hay, nuevo_programa, generar_pid, fuera) refl in
              absurd (none-ne-some t (sym f ∙ e))
          | inl cabe ↦
              let m = lit archivo in
              let pid = suc s.pid_general in
              let prog : NuevoProg = record {
                programa = pid;
                archivo_ansisop = archivo;
                instrucciones_size = m.instrucciones_size;
                instrucciones_serializado = m.instrucciones_serializado;
                etiquetas = o_vacio m.etiquetas;
              } in
              let nuevo : Programa = record {
                socket_prog = socket;
                pcb = record basura {
                  pid = pid;
                  tamanio_etiqueta = tamanio_etiqueta_de m;
                  tamanio_contexto = 0;
                  program_counter = m.instruccion_inicio;
                  cantidad_de_etiquetas = m.cantidad_de_etiquetas;
                  cantidad_de_funciones = m.cantidad_de_funciones;
                };
              } in
              let f : recibir_programa lib lit basura s archivo socket
                  ≡ some (record s {
                    kernel = record (con_programa s.kernel pid nuevo) {
                      nuevo_programa_sem = suc s.kernel.nuevo_programa_sem;
                    };
                    pid_general = pid;
                    lista_de_programas = (lib NuevoProg).list_add s.lista_de_programas prog;
                  }) =
                rw (recibir_programa, hay, nuevo_programa, generar_pid, cabe) refl in
              subst (EsSistema n) (some_inj (sym f ∙ e))
                (llega-EsSistema n s prog nuevo (suc s.kernel.nuevo_programa_sem) h refl refl)
        ]
      ]
