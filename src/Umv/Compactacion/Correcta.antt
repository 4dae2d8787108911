-- ===== src/Umv/Compactacion/Correcta.antt =====
-- What `fnCompactar` of umv/umvMain.c does to the table, the views and the free space.
use tp_sistemas_operativos_u.Base.{
  All, ℕ, ◌+◌, ◌-◌, ◌≤◌, ◌<◌, ◌≡◌, refl, ◌∙◌, inl, inr, List, [], ◌∷◌, arith,
}
use mathlib.Core.Path.{subst}
use tp_sistemas_operativos_u.Memoria.{Memoria, mover}
use tp_sistemas_operativos_u.Memoria.Copia.{leer-agree, leer-shift, mover_outside, mover_inside}
use tp_sistemas_operativos_u.Umv.{vistas, IsValid, Umv, Segmento, Ordenados, vistas_de}
use tp_sistemas_operativos_u.Umv.Busqueda.Huecos.{huecos, huecos_de}
use tp_sistemas_operativos_u.Umv.Compactacion.{compactar_desde, fn_compactar}

pub Ordenados-mono :
    (p q fin : ℕ) (ss : List Segmento) → q ≤ p → Ordenados p fin ss → Ordenados q fin ss
Ordenados-mono p q fin [] h o = omega arith
Ordenados-mono p q fin (s ∷ ss) h o = (omega arith, o.1, o.2)

-- Segments at or behind `p` read the same from memories that agree there.
pub vistas-agree :
    (m k : Memoria) (p fin : ℕ) (ss : List Segmento)
    → Ordenados p fin ss
    → ((q : ℕ) → p ≤ q → m q ≡ k q)
    → vistas_de m ss ≡ vistas_de k ss
vistas-agree m k p fin [] o same = refl
vistas-agree m k p fin (s ∷ ss) o same = ground (
  arith,
  leer-agree m k s.dir_fisica s.tamanio (λ q lo hi. same q (omega arith)),
  vistas-agree m k (s.dir_fisica + s.tamanio) fin ss o.2 (λ q lo. same q (omega arith)),
)

-- Below the next free address nothing changes.
compactar_desde_below :
    (ss : List Segmento) (p : ℕ) (m : Memoria) (q : ℕ) → q < p → (compactar_desde p m ss).0 q ≡ m q
unfolding compactar_desde
compactar_desde_below [] p m q h = refl
compactar_desde_below (s ∷ ss) p m q h =
    compactar_desde_below ss (p + s.tamanio) _ q (omega arith)
    ∙ mover_outside s.tamanio s.dir_fisica p m q (inl h)

compactar_desde-vistas :
    (ss : List Segmento) (p fin : ℕ) (m : Memoria)
    → Ordenados p fin ss
    → vistas_de (compactar_desde p m ss).0 (compactar_desde p m ss).1 ≡ vistas_de m ss
unfolding compactar_desde
compactar_desde-vistas [] p fin m o = refl
compactar_desde-vistas (s ∷ ss) p fin m o =
    let m' : Memoria = mover s.tamanio s.dir_fisica p m in
    let r = compactar_desde (p + s.tamanio) m' ss in
    let o' = Ordenados-mono (s.dir_fisica + s.tamanio) (p + s.tamanio) fin ss (omega arith) o.2 in
    let e : p + s.tamanio - s.tamanio ≡ p = omega arith in
    ground (
      arith,
      compactar_desde-vistas ss (p + s.tamanio) fin m' o',
      vistas-agree m' m (s.dir_fisica + s.tamanio) fin ss o.2
          (λ q lo. mover_outside s.tamanio s.dir_fisica p m q (inr (omega arith))),
      leer-agree r.0 m' p s.tamanio (λ q lo hi. compactar_desde_below ss (p + s.tamanio) m' q hi),
      leer-shift m' m p s.dir_fisica s.tamanio
          (λ i h. mover_inside s.tamanio s.dir_fisica p m i o.0 h),
    )

compactar_desde-Ordenados :
    (ss : List Segmento) (p fin : ℕ) (m : Memoria)
    → Ordenados p fin ss
    → Ordenados p fin (compactar_desde p m ss).1
unfolding compactar_desde
compactar_desde-Ordenados [] p fin m o = o
compactar_desde-Ordenados (s ∷ ss) p fin m o =
    let m' : Memoria = mover s.tamanio s.dir_fisica p m in
    let r = compactar_desde (p + s.tamanio) m' ss in
    let o' = Ordenados-mono (s.dir_fisica + s.tamanio) (p + s.tamanio) fin ss (omega arith) o.2 in
    let e : p + s.tamanio - s.tamanio ≡ p = omega arith in
    rw e (omega arith, o.1, compactar_desde-Ordenados ss (p + s.tamanio) fin m' o')

-- The bytes that the segments take.
abbrev pub ocupado : List Segmento → ℕ
ocupado [] = 0
ocupado (s ∷ ss) = s.tamanio + ocupado ss

-- If every gap that is left is smaller than `n`, so is the whole free space.
compactar_desde-huecos :
    (ss : List Segmento) (p fin n : ℕ) (m : Memoria)
    → All (λ h. h.1 < n) (huecos p fin (compactar_desde p m ss).1)
    → fin < p + ocupado ss + n
unfolding compactar_desde
compactar_desde-huecos [] p fin n m a = omega arith
compactar_desde-huecos (s ∷ ss) p fin n m a =
    let e : p + s.tamanio - s.tamanio ≡ p = omega arith in
    let m' : Memoria = mover s.tamanio s.dir_fisica p m in
    let r = compactar_desde (p + s.tamanio) m' ss in
    let a' = subst (λ q. All (λ h. h.1 < n) (huecos (q + s.tamanio) fin r.1)) e a.1 in
    omega (arith, compactar_desde-huecos ss (p + s.tamanio) fin n m' a')

-- Compaction of a valid state leaves a valid state.
pub fn_compactar-IsValid : (u : Umv) → IsValid u → IsValid (fn_compactar u)
unfolding fn_compactar
fn_compactar-IsValid u v = record {
  no_nulo = v.no_nulo;
  cabe = v.cabe;
  con_signo = v.con_signo;
  ordenados = compactar_desde-Ordenados u.segmentos u.inicio_memoria _ u.memoria v.ordenados;
}

-- Compaction of a valid state changes nothing that a client can see: each segment keeps its place in
-- the table, its program, its size, its logical address and its bytes.
pub fn_compactar-vistas : (u : Umv) → IsValid u → vistas (fn_compactar u) ≡ vistas u
unfolding fn_compactar
fn_compactar-vistas u v =
    compactar_desde-vistas u.segmentos u.inicio_memoria _ u.memoria v.ordenados

-- After compaction the free space is one gap: where every gap is smaller than `n`, so is all the
-- space that the segments leave.
pub fn_compactar-huecos :
    (u : Umv) (n : ℕ)
    → All (λ h. h.1 < n) (huecos_de (fn_compactar u))
    → u.cant_mem < ocupado u.segmentos + n
unfolding fn_compactar
fn_compactar-huecos u n a =
    let h = compactar_desde-huecos u.segmentos u.inicio_memoria _ n u.memoria a in omega arith
