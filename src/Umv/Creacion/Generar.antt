-- ===== src/Umv/Creacion/Generar.antt =====
-- The answers of `generarSegmento` and the state behind each.
use tp_sistemas_operativos_u.Base.{
  ◌==◌, some_inj, ℕ, ◌+◌, ◌<◌, ◌≡◌, refl, sym, ap, ◌∙◌, List, Option, none, some, true, false,
  arith, length, any, insert_at, All, Bytes, Option-cases, ◌⊎◌, inl, inr, IsWord,
}
use mathlib.Core.Path.{subst}
use tp_sistemas_operativos_u.Commons.{ListLib}
use tp_sistemas_operativos_u.Memoria.Copia.{length-leer}
use tp_sistemas_operativos_u.Mensajes.{de_puntero, de_buffer}
use tp_sistemas_operativos_u.Mensajes.Respuestas.{
  serializar_respuesta, segmento_creado, memory_overload, texto_memory_overload, umv_deserializar,
}
use tp_sistemas_operativos_u.Mensajes.Respuestas.Vuelta.{umv_deserializar-serializar_respuesta}
use tp_sistemas_operativos_u.Umv.{
  vistas_de, Segmento, Umv, IsValid, Vista, vista_de, vistas, wf, ff,
}
use tp_sistemas_operativos_u.Umv.Busqueda.{buscar_espacio}
use tp_sistemas_operativos_u.Umv.Busqueda.Huecos.{huecos_de}
use tp_sistemas_operativos_u.Umv.Busqueda.Resultado.{EsAjuste, buscar_espacio-EsAjuste}
use tp_sistemas_operativos_u.Umv.Compactacion.{fn_compactar}
use tp_sistemas_operativos_u.Umv.Compactacion.Correcta.{
  ocupado, fn_compactar-IsValid, fn_compactar-vistas, fn_compactar-huecos,
}
use tp_sistemas_operativos_u.Umv.Operaciones.{
  indice_para, generar_en, generar_segmento, generar_direccion_logica,
}
use tp_sistemas_operativos_u.Umv.Creacion.{
  insertar-Ordenados, indice_para-le, vistas-insert_at, tiene_vista, any-vistas,
  generar_direccion_logica-new, generar_direccion_logica-total,
}

-- A new segment of the program, with a logical address that no other has, stands somewhere in the
-- table, and the views of the others are as they were.
pub record Creado (u u' : Umv) (pid tamanio : ℕ) (buffer : Bytes) : Type 0 where
  pub lugar : ℕ
  pub nueva : Vista
  pub de_quien : nueva.id_programa ≡ pid
  pub de_cuanto : nueva.tamanio ≡ tamanio
  pub completa : length nueva.contenido ≡ tamanio
  pub unica : any (tiene_vista nueva.dir_logica) (vistas u) ≡ false
  pub tabla : vistas u' ≡ insert_at lugar nueva (vistas u)
  pub aviso :
      umv_deserializar buffer
      ≡ some (record { id_operacion = 1; estructura = de_puntero nueva.dir_logica })

-- Nothing has changed for the clients, and the free bytes together are fewer than were asked for.
pub record Rechazado (u u' : Umv) (tamanio : ℕ) (buffer : Bytes) : Type 0 where
  pub igual : vistas u' ≡ vistas u
  pub lleno : u.cant_mem < ocupado u.segmentos + tamanio
  pub aviso :
      umv_deserializar buffer
      ≡ some (record { id_operacion = 4; estructura = de_buffer texto_memory_overload })

abbrev segmento : (pid tamanio dir_logica dir_fisica : ℕ) → Segmento
segmento pid tamanio dir_logica dir_fisica = record {
  id_programa = pid;
  tamanio = tamanio;
  dir_logica = dir_logica;
  dir_fisica = dir_fisica;
}

module _ (lib : ListLib Segmento) where
  -- The state with the new segment.
  abbrev con_segmento : Umv → (pid tamanio p_fisica dir_logica : ℕ) → List ℕ → Umv
  con_segmento u pid tamanio p dir_logica resto = record u {
    segmentos =
        lib.list_add_in_index (indice_para p u.segmentos) (segmento pid tamanio dir_logica p)
          u.segmentos;
    azar = resto;
  }

  con_segmento-segmentos :
      (u : Umv) (pid n p d : ℕ) (resto : List ℕ)
      → (con_segmento u pid n p d resto).segmentos
        ≡ insert_at (indice_para p u.segmentos) (segmento pid n d p) u.segmentos
  con_segmento-segmentos u pid n p d resto =
      lib.list_add_in_index_lem _ _ u.segmentos (indice_para-le p u.segmentos)

  con_segmento-IsValid :
      (u : Umv) (pid n p d : ℕ) (resto : List ℕ)
      → IsValid u
      → 0 < n
      → EsAjuste n (huecos_de u) (some p)
      → IsValid (con_segmento u pid n p d resto)
  con_segmento-IsValid u pid n p d resto v pos aj = record {
    no_nulo = v.no_nulo;
    cabe = v.cabe;
    con_signo = v.con_signo;
    ordenados =
        rw (con_segmento-segmentos u pid n p d resto)
          (insertar-Ordenados (segmento pid n d p) aj.0 _ _ u.segmentos v.ordenados aj.1 aj.2 pos);
  }

  con_segmento-Creado :
      (u : Umv) (pid n p d : ℕ) (resto : List ℕ)
      → generar_direccion_logica lib u.azar u.segmentos ≡ some (d, resto)
      → All (λ r. IsWord r) u.azar
      → Creado u
          (con_segmento u pid n p d resto)
          pid
          n
          (serializar_respuesta u.memoria (segmento_creado d))
  con_segmento-Creado u pid n p d resto hay w =
      let nuevo = generar_direccion_logica-new lib u.azar u.segmentos d resto hay w in
      record {
        lugar = indice_para p u.segmentos;
        nueva = vista_de u.memoria (segmento pid n d p);
        de_quien = refl;
        de_cuanto = refl;
        completa = length-leer u.memoria p n;
        unica = any-vistas u.memoria d u.segmentos ∙ nuevo.0;
        tabla =
            ap (vistas_de u.memoria) (con_segmento-segmentos u pid n p d resto)
            ∙ vistas-insert_at u.memoria _ _ u.segmentos;
        aviso = umv_deserializar-serializar_respuesta u.memoria (segmento_creado d) nuevo.1;
      }

  generar_en-Creado :
      (u : Umv) (pid n p : ℕ) (r : Umv × Bytes)
      → IsValid u
      → 0 < n
      → All (λ r. IsWord r) u.azar
      → EsAjuste n (huecos_de u) (some p)
      → generar_en lib u pid n (some p) ≡ some r
      → IsValid r.0 × Creado u r.0 pid n r.1
  unfolding generar_en
  generar_en-Creado u pid n p r v pos w aj e =
      elim (Option-cases (generar_direccion_logica lib u.azar u.segmentos)) [
        | inl fin ↦ absurd (ground arith)
        | inr ((d, resto), hay) ↦
            subst (λ (x : Umv × Bytes). IsValid x.0 × Creado u x.0 pid n x.1)
              (some_inj (rw hay at e))
              (
                con_segmento-IsValid u pid n p d resto v pos aj,
                con_segmento-Creado u pid n p d resto hay w,
              )
      ]

  Creado-antes :
      (u v u' : Umv) (pid n : ℕ) (b : Bytes)
      → vistas v ≡ vistas u
      → Creado v u' pid n b
      → Creado u u' pid n b
  Creado-antes u v u' pid n b e c = record {
    lugar = c.lugar;
    nueva = c.nueva;
    de_quien = c.de_quien;
    de_cuanto = c.de_cuanto;
    completa = c.completa;
    unica = ap (any (tiene_vista c.nueva.dir_logica)) (sym e) ∙ c.unica;
    tabla = c.tabla ∙ ap (insert_at c.lugar c.nueva) e;
    aviso = c.aviso;
  }

  generar_en-none :
      (u : Umv) (pid n : ℕ) (r : Umv × Bytes)
      → IsValid u
      → EsAjuste n (huecos_de (fn_compactar u)) none
      → generar_en lib (fn_compactar u) pid n none ≡ some r
      → IsValid r.0 × Rechazado u r.0 n r.1
  unfolding generar_en
  generar_en-none u pid n r v aj e =
      subst (λ (x : Umv × Bytes). IsValid x.0 × Rechazado u x.0 n x.1) (some_inj e)
        (
          fn_compactar-IsValid u v,
          record {
            igual = fn_compactar-vistas u v;
            lleno = fn_compactar-huecos u n aj;
            aviso = umv_deserializar-serializar_respuesta _ memory_overload tt;
          },
        )

  -- The second search, in the compacted memory.
  tras_compactar :
      (u : Umv) (pid n : ℕ) (o : Option ℕ) (r : Umv × Bytes)
      → IsValid u
      → 0 < n
      → All (λ r. IsWord r) u.azar
      → EsAjuste n (huecos_de (fn_compactar u)) o
      → generar_en lib (fn_compactar u) pid n o ≡ some r
      → IsValid r.0 × (Creado u r.0 pid n r.1 ⊎ Rechazado u r.0 n r.1)
  tras_compactar u pid n none r v pos w aj e =
      let g = generar_en-none u pid n r v aj e in (g.0, inr g.1)
  tras_compactar u pid n (some p) r v pos w aj e =
      let g =
        generar_en-Creado (fn_compactar u) pid n p r (fn_compactar-IsValid u v) pos
          (unfold fn_compactar in w) aj e in
      (g.0, inl (Creado-antes u (fn_compactar u) r.0 pid n r.1 (fn_compactar-vistas u v) g.1))

  -- In a valid state with one of the two algorithms and words from `random()`, an answered request for
  -- a segment of at least one byte leaves a valid state. Either there is a new segment of that size,
  -- with a logical address of its own, and the others are seen as before; or the clients see no
  -- change, are told of the overload, and the free bytes together are fewer than were asked for.
  pub generar_segmento-Creado :
      (u : Umv) (pid n : ℕ) (r : Umv × Bytes)
      → IsValid u
      → (u.alg_mem ≡ wf) ⊎ (u.alg_mem ≡ ff)
      → 0 < n
      → All (λ r. IsWord r) u.azar
      → generar_segmento lib u pid n ≡ some r
      → IsValid r.0 × (Creado u r.0 pid n r.1 ⊎ Rechazado u r.0 n r.1)
  generar_segmento-Creado u pid n r v alg pos w e = elim (Option-cases (buscar_espacio u n)) [
    | inr (p, hay) ↦
        let aj = subst (EsAjuste n (huecos_de u)) hay (buscar_espacio-EsAjuste u n v alg) in
        let g =
          generar_en-Creado u pid n p r v pos w aj
            (unfold generar_segmento in rw (hay, generar_segmento) at e) in
        (g.0, inl g.1)
    | inl nada ↦
        tras_compactar u pid n (buscar_espacio (fn_compactar u) n) r v pos w
          (buscar_espacio-EsAjuste (fn_compactar u) n (fn_compactar-IsValid u v)
            (unfold fn_compactar in alg))
          (unfold generar_segmento in rw (nada, generar_segmento) at e)
  ]

  generar_en-total :
      (u : Umv) (pid n d : ℕ) (o : Option ℕ)
      → any (λ r. r == d) u.azar ≡ true
      → any (tiene_vista d) (vistas u) ≡ false
      → (r : Umv × Bytes) × (generar_en lib u pid n o ≡ some r)
  unfolding generar_en
  generar_en-total u pid n d none i f = (_, refl)
  generar_en-total u pid n d (some p) i f =
      let g =
        generar_direccion_logica-total lib u.azar u.segmentos d i
          (sym (any-vistas u.memoria d u.segmentos) ∙ f) in
      (
        (
          con_segmento u pid n p g.0.0 g.0.1,
          serializar_respuesta u.memoria (segmento_creado g.0.0),
        ),
        rw (g.1),
      )

  -- `generarSegmento` answers, whatever the algorithm, as soon as `random()` gives an address that no
  -- segment of the valid state has.
  pub generar_segmento-total :
      (u : Umv) (pid n d : ℕ)
      → IsValid u
      → any (λ r. r == d) u.azar ≡ true
      → any (tiene_vista d) (vistas u) ≡ false
      → (r : Umv × Bytes) × (generar_segmento lib u pid n ≡ some r)
  unfolding generar_segmento
  generar_segmento-total u pid n d v i f = elim (Option-cases (buscar_espacio u n)) [
    | inr (p, hay) ↦ rw (hay, generar_segmento) (generar_en-total u pid n d (some p) i f)
    | inl nada ↦
        rw (nada, generar_segmento)
          (generar_en-total (fn_compactar u) pid n d (buscar_espacio (fn_compactar u) n)
            (unfold fn_compactar in i) (ap (any (tiene_vista d)) (fn_compactar-vistas u v) ∙ f))
  ]
