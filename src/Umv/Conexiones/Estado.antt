-- ===== src/Umv/Conexiones/Estado.antt =====
-- The server's state over whole sessions, operation by operation.
use tp_sistemas_operativos_u.Base.{
  ℕ, ◌<◌, ◌≡◌, refl, sym, ◌∙◌, ◌⊎◌, inl, inr, List, [], ◌∷◌, Option, none, some, Bytes, false,
  arith, any, All, reject, IsWord, Option-cases, some_inj,
}
use mathlib.Core.Path.{subst}
use tp_sistemas_operativos_u.Commons.{ListLib}
use tp_sistemas_operativos_u.Memoria.{Memoria}
use tp_sistemas_operativos_u.Mensajes.{AlmacenarBytes}
use tp_sistemas_operativos_u.Umv.{Segmento, Umv, IsValid, Vista, vistas, vistas_de, wf, ff}
use tp_sistemas_operativos_u.Umv.Busqueda.{buscar_espacio}
use tp_sistemas_operativos_u.Umv.Compactacion.{fn_compactar}
use tp_sistemas_operativos_u.Umv.Operaciones.{
  almacenar_bytes, generar_segmento, generar_en, generar_direccion_logica, eliminar_segmentos,
}
use tp_sistemas_operativos_u.Umv.Creacion.{
  DireccionesUnicas, Unicas-insert_at, tiene_vista, any-vistas, generar_direccion_logica-new,
}
use tp_sistemas_operativos_u.Umv.Creacion.Generar.{Creado, Rechazado, generar_segmento-Creado}
use tp_sistemas_operativos_u.Umv.Borrado.{es_vista_de, eliminar_segmentos-reject}

-- The table is valid, the algorithm one of the two, `random()` gives words, and no two segments share
-- a logical address.
pub record IsServidor (u : Umv) : Type 0 where
  pub valida : IsValid u
  pub algoritmo : (u.alg_mem ≡ wf) ⊎ (u.alg_mem ≡ ff)
  pub sorteos : All (λ r. IsWord r) u.azar
  pub unicas : DireccionesUnicas (vistas u)

Unicas-memoria :
    (m k : Memoria) (ss : List Segmento)
    → DireccionesUnicas (vistas_de m ss)
    → DireccionesUnicas (vistas_de k ss)
Unicas-memoria m k [] h = tt
Unicas-memoria m k (s ∷ ss) h = (
  any-vistas k s.dir_logica ss ∙ sym (any-vistas m s.dir_logica ss) ∙ h.0,
  Unicas-memoria m k ss h.1,
)

any-reject :
    (id d : ℕ) (vs : List Vista)
    → any (tiene_vista d) vs ≡ false
    → any (tiene_vista d) (reject (es_vista_de id) vs) ≡ false
any-reject id d [] h = refl
any-reject id d (v ∷ vs) h = ground (arith, any-reject id d vs)

Unicas-reject :
    (id : ℕ) (vs : List Vista)
    → DireccionesUnicas vs
    → DireccionesUnicas (reject (es_vista_de id) vs)
Unicas-reject id [] h = tt
Unicas-reject id (v ∷ vs) h =
    ground (arith, any-reject id v.dir_logica vs h.0, Unicas-reject id vs h.1)

con_memoria-IsServidor :
    (u : Umv) (m : Memoria) → IsServidor u → IsServidor (record u { memoria = m })
con_memoria-IsServidor u m s = record {
  valida = record {
    no_nulo = s.valida.no_nulo;
    cabe = s.valida.cabe;
    con_signo = s.valida.con_signo;
    ordenados = s.valida.ordenados;
  };
  algoritmo = s.algoritmo;
  sorteos = s.sorteos;
  unicas = Unicas-memoria u.memoria m u.segmentos s.unicas;
}

module _ (lib : ListLib Segmento) where
  almacenar_bytes-memoria :
      (u : Umv) (id : ℕ) (st : AlmacenarBytes)
      → (almacenar_bytes lib u id st).0
        ≡ record u { memoria = (almacenar_bytes lib u id st).0.memoria }
  unfolding almacenar_bytes
  almacenar_bytes-memoria u id st = ground arith

  pub almacenar_bytes-IsServidor :
      (u : Umv) (id : ℕ) (st : AlmacenarBytes)
      → IsServidor u
      → IsServidor (almacenar_bytes lib u id st).0
  almacenar_bytes-IsServidor u id st s =
      subst IsServidor (sym (almacenar_bytes-memoria u id st)) (con_memoria-IsServidor u _ s)

  pub eliminar_segmentos-IsServidor :
      (u : Umv) (id : ℕ) → IsServidor u → IsServidor (eliminar_segmentos lib u id).0
  eliminar_segmentos-IsServidor u id s =
      let e = eliminar_segmentos-reject lib u id s.valida in
      record {
        valida = e.2;
        algoritmo = unfold eliminar_segmentos in s.algoritmo;
        sorteos = unfold eliminar_segmentos in s.sorteos;
        unicas = subst DireccionesUnicas (sym e.0) (Unicas-reject id (vistas u) s.unicas);
      }

  -- Creation keeps the algorithm, and takes values from `random()`.
  generar_en-resto :
      (u : Umv) (pid n : ℕ) (o : Option ℕ) (r : Umv × Bytes)
      → All (λ r. IsWord r) u.azar
      → generar_en lib u pid n o ≡ some r
      → (r.0.alg_mem ≡ u.alg_mem) × All (λ r. IsWord r) r.0.azar
  unfolding generar_en
  generar_en-resto u pid n none r w e =
      subst (λ (x : Umv × Bytes). (x.0.alg_mem ≡ u.alg_mem) × All (λ r. IsWord r) x.0.azar)
        (some_inj e) (refl, w)
  generar_en-resto u pid n (some p) r w e =
      elim (Option-cases (generar_direccion_logica lib u.azar u.segmentos)) [
        | inl fin ↦ absurd (ground arith)
        | inr ((d, resto), hay) ↦
            let nuevo = generar_direccion_logica-new lib u.azar u.segmentos d resto hay w in
            subst (λ (x : Umv × Bytes). (x.0.alg_mem ≡ u.alg_mem) × All (λ r. IsWord r) x.0.azar)
              (some_inj (rw hay at e)) (refl, nuevo.2)
      ]

  generar_segmento-resto :
      (u : Umv) (pid n : ℕ) (r : Umv × Bytes)
      → All (λ r. IsWord r) u.azar
      → generar_segmento lib u pid n ≡ some r
      → (r.0.alg_mem ≡ u.alg_mem) × All (λ r. IsWord r) r.0.azar
  generar_segmento-resto u pid n r w e = elim (Option-cases (buscar_espacio u n)) [
    | inr (p, hay) ↦
        generar_en-resto u pid n (some p) r w
          (unfold generar_segmento in rw (hay, generar_segmento) at e)
    | inl nada ↦
        unfold fn_compactar in
        generar_en-resto (fn_compactar u) pid n (buscar_espacio (fn_compactar u) n) r w
          (unfold generar_segmento in rw (nada, generar_segmento) at e)
  ]

  Creado-unicas :
      (u u' : Umv) (pid n : ℕ) (b : Bytes)
      → DireccionesUnicas (vistas u)
      → Creado u u' pid n b ⊎ Rechazado u u' n b
      → DireccionesUnicas (vistas u')
  Creado-unicas u u' pid n b h (inl c) =
      subst DireccionesUnicas (sym c.tabla) (Unicas-insert_at c.lugar c.nueva (vistas u) c.unica h)
  Creado-unicas u u' pid n b h (inr r) = subst DireccionesUnicas (sym r.igual) h

  pub generar_segmento-IsServidor :
      (u : Umv) (pid n : ℕ) (r : Umv × Bytes)
      → IsServidor u
      → 0 < n
      → generar_segmento lib u pid n ≡ some r
      → IsServidor r.0
  generar_segmento-IsServidor u pid n r s pos e =
      let g = generar_segmento-Creado lib u pid n r s.valida s.algoritmo pos s.sorteos e in
      let q = generar_segmento-resto u pid n r s.sorteos e in
      record {
        valida = g.0;
        algoritmo = subst (λ a. (a ≡ wf) ⊎ (a ≡ ff)) (sym q.0) s.algoritmo;
        sorteos = q.1;
        unicas = Creado-unicas u r.0 pid n r.1 s.unicas g.1;
      }
