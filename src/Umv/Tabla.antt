-- ===== src/Umv/Tabla.antt =====
-- The table of segments and what the clients see of it.
use tp_sistemas_operativos_u.Base.{
  ℕ, ◌+◌, ◌≤◌, ◌≡◌, refl, inl, inr, List, [], ◌∷◌, Option, none, some, Bool, ◌&&◌, ◌==◌,
  if◌then◌else◌, arith, length, find, Bytes, Bool-cases,
}
use tp_sistemas_operativos_u.Memoria.{Memoria, escribir}
use tp_sistemas_operativos_u.Memoria.Copia.{leer-agree, escribir_outside}
use tp_sistemas_operativos_u.Memoria.Rebanadas.{sobrescribir, leer-sobrescribir}
use tp_sistemas_operativos_u.Umv.{Segmento, Ordenados, Vista, vista_de, vistas_de}
use tp_sistemas_operativos_u.Umv.Busqueda.Huecos.{Ordenados-le}
use tp_sistemas_operativos_u.Umv.Compactacion.Correcta.{vistas-agree}
use tp_sistemas_operativos_u.Umv.Operaciones.{es_segmento}

abbrev pub es_vista : (id_prog base : ℕ) → Vista → Bool
es_vista id_prog base v = (v.id_programa == id_prog) && (v.dir_logica == base)

abbrev pub vista_map : Memoria → Option Segmento → Option Vista
vista_map m none = none
vista_map m (some s) = some (vista_de m s)

-- The views that the clients have are found where the segments are.
pub find-vistas :
    (m : Memoria) (id base : ℕ) (ss : List Segmento)
    → find (es_vista id base) (vistas_de m ss) ≡ vista_map m (find (es_segmento id base) ss)
find-vistas m id base [] = refl
find-vistas m id base (s ∷ ss) = ground (arith, find-vistas m id base ss)

-- A segment of the table lies inside the memory.
pub find-bounds :
    (f : Segmento → Bool) (p fin : ℕ) (ss : List Segmento) (s : Segmento)
    → Ordenados p fin ss
    → find f ss ≡ some s
    → (p ≤ s.dir_fisica) × (s.dir_fisica + s.tamanio ≤ fin)
find-bounds f p fin [] s o e = absurd (ground arith)
find-bounds f p fin (x ∷ ss) s o e = elim (Bool-cases (f x)) [
  | inl hit ↦ ground (arith, Ordenados-le _ _ ss o.2)
  | inr miss ↦ ground (arith, find-bounds f (x.dir_fisica + x.tamanio) fin ss s o.2)
]

-- The bytes `bs` written into the first view of a program's segment.
abbrev pub guardar : (id base offset : ℕ) → Bytes → List Vista → List Vista
guardar id base offset bs [] = []
guardar id base offset bs (v ∷ vs) =
    if es_vista id base v
    then record v { contenido = sobrescribir offset bs v.contenido } ∷ vs
    else v ∷ guardar id base offset bs vs

-- A write inside a segment changes the bytes of that segment, and no other.
pub escribir-guardar :
    (ss : List Segmento) (m : Memoria) (id base offset p fin a : ℕ) (bs : Bytes) (s : Segmento)
    → Ordenados p fin ss
    → find (es_segmento id base) ss ≡ some s
    → a ≡ s.dir_fisica + offset
    → offset + length bs ≤ s.tamanio
    → vistas_de (escribir m a bs) ss ≡ guardar id base offset bs (vistas_de m ss)
escribir-guardar [] m id base offset p fin a bs s o f e h = refl
escribir-guardar (x ∷ ss) m id base offset p fin a bs s o f e h =
    elim (Bool-cases (es_segmento id base x)) [
      | inl hit ↦
          let same : x ≡ s = ground arith in
          let e' : a ≡ x.dir_fisica + offset = ground arith in
          let h' : offset + length bs ≤ x.tamanio = ground arith in
          rw hit (
            cc (
              leer-sobrescribir bs m x.dir_fisica a offset x.tamanio e' h',
              vistas-agree (escribir m a bs) m (x.dir_fisica + x.tamanio) fin ss o.2
                  (λ q lo. escribir_outside bs m a q (inr (omega arith))),
            ))
      | inr miss ↦
          let f' : find (es_segmento id base) ss ≡ some s = rw miss at f in
          let b = find-bounds (es_segmento id base) (x.dir_fisica + x.tamanio) fin ss s o.2 f' in
          rw miss (
            cc (
              leer-agree (escribir m a bs) m x.dir_fisica x.tamanio
                  (λ q lo hi. escribir_outside bs m a q (inl (omega arith))),
              escribir-guardar ss m id base offset (x.dir_fisica + x.tamanio) fin a bs s o.2 f' e h,
            ))
    ]
