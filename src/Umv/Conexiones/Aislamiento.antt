-- ===== src/Umv/Conexiones/Aislamiento.antt =====
-- What a client of the memory server (umv/sockets/sockets.c) can do to the segments of other programs.
use tp_sistemas_operativos_u.Base.{
  ℕ, zero, suc, ◌+◌, ◌≡◌, ◌<◌, refl, ap, ◌∙◌, inl, inr, some, Bytes, List, [], ◌∷◌, ltb, true, Bool,
  Bool-cases, Option-cases, arith, length, find, reject, insert_at,
}
use mathlib.Core.Path.{subst}
use tp_sistemas_operativos_u.Commons.{ListLib}
use tp_sistemas_operativos_u.Mensajes.{
  AlmacenarBytes, Conexion, Pedido, Estructura, de_tamanio, de_almacenar, de_solicitud,
  sin_estructura,
}
use tp_sistemas_operativos_u.Umv.{Segmento, Umv, Vista, vistas}
use tp_sistemas_operativos_u.Umv.Tabla.{es_vista, guardar}
use tp_sistemas_operativos_u.Umv.Acceso.{almacenar_bytes-almacenar_vista}
use tp_sistemas_operativos_u.Umv.Acceso.Especificacion.{almacenar_vista}
use tp_sistemas_operativos_u.Umv.Borrado.{es_vista_de, eliminar_segmentos-reject}
use tp_sistemas_operativos_u.Umv.Creacion.Generar.{generar_segmento-Creado}
use tp_sistemas_operativos_u.Umv.Conexiones.{despachar}
use tp_sistemas_operativos_u.Umv.Conexiones.Mantiene.{despachar-mantiene}
use tp_sistemas_operativos_u.Umv.Conexiones.Estado.{
  IsServidor, almacenar_bytes-IsServidor, eliminar_segmentos-IsServidor,
  generar_segmento-IsServidor,
}

-- The segments of the other programs.
abbrev pub ajenas : ℕ → Umv → List Vista
ajenas id u = reject (es_vista_de id) (vistas u)

-- Bytes whose place does not run over the address space, with their number, or a segment of one byte at least.
abbrev pub EnRango : Estructura → Type 0
EnRango (de_almacenar st) = (st.tamanio + st.offset < 4294967296) × (length st.buffer ≡ st.tamanio)
EnRango (de_tamanio n) = 0 < n
EnRango (de_solicitud s) = Unit {0}
EnRango sin_estructura = Unit {0}

reject-guardar :
    (id base offset : ℕ) (bs : Bytes) (vs : List Vista)
    → reject (es_vista_de id) (guardar id base offset bs vs) ≡ reject (es_vista_de id) vs
reject-guardar id base offset bs [] = refl
reject-guardar id base offset bs (v ∷ vs) = ground (arith, reject-guardar id base offset bs vs)

module _ {A : Type 0} (p : A → Bool) where
  reject-insert_at :
      (i : ℕ) (a : A) (xs : List A) → p a ≡ true → reject p (insert_at i a xs) ≡ reject p xs
  reject-insert_at zero a xs h = rw h refl
  reject-insert_at (suc i) a [] h = rw h refl
  reject-insert_at (suc i) a (x ∷ xs) h = ground (arith, reject-insert_at i a xs h)

  reject-reject : (xs : List A) → reject p (reject p xs) ≡ reject p xs
  reject-reject [] = refl
  reject-reject (x ∷ xs) = ground (arith, reject-reject xs)

almacenar_vista-ajenas :
    (vs : List Vista) (id : ℕ) (st : AlmacenarBytes)
    → reject (es_vista_de id) (almacenar_vista vs id st).0 ≡ reject (es_vista_de id) vs
unfolding almacenar_vista
almacenar_vista-ajenas vs id st = elim (Option-cases (find (es_vista id st.base) vs)) [
  | inl nada ↦ rw (almacenar_vista, nada) refl
  | inr (v, hay) ↦ elim (Bool-cases (ltb v.tamanio (st.tamanio + st.offset))) [
    | inl fuera ↦ rw (almacenar_vista, hay, fuera) refl
    | inr dentro ↦
        rw (almacenar_vista, hay, dentro) (reject-guardar id st.base st.offset st.buffer vs)
  ]
]

module _ (lib : ListLib Segmento) where
  -- A server in `IsServidor` that answers a request of a client, a store being in range and a new
  -- segment not empty, keeps the segments of all programs but the client's as they are seen: none is
  -- lost, added, renamed or written to, and their order is the same.
  pub despachar-ajenas :
      (u : Umv) (c : Conexion) (p : Pedido) (r : Umv × Bytes)
      → IsServidor u
      → EnRango p.estructura
      → despachar lib u c p ≡ some r
      → ajenas c.id_programa r.0 ≡ ajenas c.id_programa u
  despachar-ajenas u c p r s h e =
      let id = c.id_programa in
      (despachar-mantiene lib (λ x. IsServidor x × (ajenas id x ≡ ajenas id u)) c p.estructura
        (λ x st q m.
          let g : EnRango (de_almacenar st) = subst EnRango q h in
          (
            almacenar_bytes-IsServidor lib x id st m.0,
            ap (reject (es_vista_de id))
                  (almacenar_bytes-almacenar_vista lib x id st m.0.valida g.0 g.1).0
                ∙ almacenar_vista-ajenas (vistas x) id st
                ∙ m.1,
          ))
        (λ x n y q m f.
          let g : 0 < n = subst EnRango q h in
          (
            generar_segmento-IsServidor lib x id n y m.0 g f,
            elim (generar_segmento-Creado lib x id n y m.0.valida m.0.algoritmo g m.0.sorteos f).1 [
              | inl creado ↦
                  ap (reject (es_vista_de id)) creado.tabla
                  ∙ reject-insert_at (es_vista_de id) creado.lugar creado.nueva (vistas x)
                      (ground (arith, creado.de_quien))
                  ∙ m.1
              | inr rechazado ↦ ap (reject (es_vista_de id)) rechazado.igual ∙ m.1
            ],
          ))
        (λ x m. (
          eliminar_segmentos-IsServidor lib x id m.0,
          ap (reject (es_vista_de id)) (eliminar_segmentos-reject lib x id m.0.valida).0
              ∙ reject-reject (es_vista_de id) (vistas x)
              ∙ m.1,
        ))
        u p.id_operacion r (s, refl) e).1
