-- ===== src/Umv/Acceso/Especificacion.antt =====
-- What a client of the memory server can rely on, by the segments' views alone.
use tp_sistemas_operativos_u.Base.{
  ◌∷◌, ℕ, ◌+◌, ◌≡◌, sym, ap, ◌∙◌, List, none, some, ltb, if◌then◌else◌, arith, length, find, take,
  take-append, append-nil, [], Bytes, Option-cases, inl, inr,
}
use tp_sistemas_operativos_u.Memoria.{Memoria}
use tp_sistemas_operativos_u.Memoria.Copia.{length-leer}
use tp_sistemas_operativos_u.Memoria.Rebanadas.{sobrescribir, rebanada, rebanada-sobrescribir}
use tp_sistemas_operativos_u.Mensajes.{
  SolicitudBytes, AlmacenarBytes, Respuesta, sin_contenido, de_buffer,
}
use tp_sistemas_operativos_u.Mensajes.Respuestas.{texto_segmentation_fault}
use tp_sistemas_operativos_u.Umv.{Segmento, Vista, vistas_de}
use tp_sistemas_operativos_u.Umv.Tabla.{es_vista, guardar}

abbrev pub fallo : Respuesta
fallo = record { id_operacion = 3; estructura = de_buffer texto_segmentation_fault }

-- The bytes of the program's segment from `offset` on, or a fault where there is no such segment or
-- they do not all lie in it.
unfoldable pub solicitar_vista : List Vista → ℕ → SolicitudBytes → Respuesta
solicitar_vista vs id sol = elim (find (es_vista id sol.base) vs) [
  | none ↦ fallo
  | some v ↦ if ltb v.tamanio (sol.tamanio + sol.offset) then fallo else record {
    id_operacion = 2;
    estructura = de_buffer (rebanada sol.offset sol.tamanio v.contenido);
  }
]

-- The bytes are written into the program's segment, or nothing changes and the answer is a fault.
unfoldable pub almacenar_vista : List Vista → ℕ → AlmacenarBytes → List Vista × Respuesta
almacenar_vista vs id st = elim (find (es_vista id st.base) vs) [
  | none ↦ (vs, fallo)
  | some v ↦ if ltb v.tamanio (st.tamanio + st.offset) then (vs, fallo) else (
    guardar id st.base st.offset st.buffer vs,
    record { id_operacion = 0; estructura = sin_contenido },
  )
]

pub take_all : (n : ℕ) (bs : Bytes) → length bs ≡ n → take n bs ≡ bs
take_all n bs h = rw (sym h) (ap (take (length bs)) (sym (append-nil bs)) ∙ take-append bs [])

pub find-guardar :
    (id base offset : ℕ) (bs : Bytes) (vs : List Vista) (x : Vista)
    → find (es_vista id base) vs ≡ some x
    → find (es_vista id base) (guardar id base offset bs vs)
      ≡ some (record x { contenido = sobrescribir offset bs x.contenido })
find-guardar id base offset bs [] x e = absurd (ground arith)
find-guardar id base offset bs (y ∷ vs) x e = ground (arith, find-guardar id base offset bs vs x)

pub vistas_length :
    (m : Memoria) (id base : ℕ) (ss : List Segmento) (x : Vista)
    → find (es_vista id base) (vistas_de m ss) ≡ some x
    → length x.contenido ≡ x.tamanio
vistas_length m id base [] x e = absurd (ground arith)
vistas_length m id base (s ∷ ss) x e =
    ground (arith, length-leer m s.dir_fisica s.tamanio, vistas_length m id base ss x)

-- What was stored in a view is what a request for the same place returns.
pub vista_vuelta :
    (vs : List Vista) (id : ℕ) (st : AlmacenarBytes)
    → length st.buffer ≡ st.tamanio
    → ((x : Vista) → find (es_vista id st.base) vs ≡ some x → length x.contenido ≡ x.tamanio)
    → (almacenar_vista vs id st).1 ≡ record { id_operacion = 0; estructura = sin_contenido }
    → solicitar_vista
        (almacenar_vista vs id st).0
        id
        (record { base = st.base; offset = st.offset; tamanio = st.tamanio })
      ≡ record { id_operacion = 2; estructura = de_buffer st.buffer }
unfolding almacenar_vista solicitar_vista
vista_vuelta vs id st l size done = elim (Option-cases (find (es_vista id st.base) vs)) [
  | inl e ↦ ground arith
  | inr (x, e) ↦ ground (
    arith,
    size x e,
    find-guardar id st.base st.offset st.buffer vs x e,
    rebanada-sobrescribir st.offset st.buffer x.contenido,
  )
]
