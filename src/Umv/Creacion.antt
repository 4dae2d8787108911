-- ===== src/Umv/Creacion.antt =====
-- `generarSegmento` of umv/umvMain.c: where a new segment goes and what the clients see of it.
pub mod Generar
use tp_sistemas_operativos_u.Base.{
  some_inj, le→ltb, lt→ltb, ℕ, zero, suc, ◌+◌, ◌-◌, ◌≤◌, ◌<◌, ◌≡◌, refl, sym, ap, ◌∙◌, List, [],
  ◌∷◌, Option, none, some, Bool, true, false, ltb, ◌==◌, ◌||◌, if◌then◌else◌, arith, length, any,
  insert_at, All, Bytes, Bool-cases, Option-cases, ◌⊎◌, inl, inr, ◌>>=◌, IsWord,
}
use mathlib.Core.Path.{subst}
use mathlib.Core.Bool.{false≢true}
use tp_sistemas_operativos_u.Commons.{ListLib}
use tp_sistemas_operativos_u.Memoria.{Memoria}
use tp_sistemas_operativos_u.Umv.{
  Segmento, Umv, Ordenados, IsValid, Vista, vista_de, vistas_de, vistas,
}
use tp_sistemas_operativos_u.Umv.Busqueda.Huecos.{huecos, IsHueco, Ordenados-le}
use tp_sistemas_operativos_u.Umv.Operaciones.{
  indice_para, tiene_la_direccion, generar_direccion_logica,
}

pub Hueco-bounds :
    (p k q fin : ℕ) (ss : List Segmento)
    → Ordenados q fin ss
    → IsHueco p k (huecos q fin ss)
    → (q ≤ p) × (p + k ≤ fin)
Hueco-bounds p k q fin [] o (inl h) = omega arith
Hueco-bounds p k q fin [] o (inr h) = elim h [ ]
Hueco-bounds p k q fin (s ∷ ss) o (inl h) = omega (arith, Ordenados-le _ _ ss o.2)
Hueco-bounds p k q fin (s ∷ ss) o (inr h) =
    omega (arith, Hueco-bounds p k (s.dir_fisica + s.tamanio) fin ss o.2 h)

-- A segment that fits a gap keeps the table in order at the place that the address gives it.
pub insertar-Ordenados :
    (n : Segmento) (k q fin : ℕ) (ss : List Segmento)
    → Ordenados q fin ss
    → IsHueco n.dir_fisica k (huecos q fin ss)
    → n.tamanio ≤ k
    → 0 < n.tamanio
    → Ordenados q fin (insert_at (indice_para n.dir_fisica ss) n ss)
unfolding indice_para
insertar-Ordenados n k q fin [] o (inl h) le lt = omega arith
insertar-Ordenados n k q fin [] o (inr h) le lt = elim h [ ]
insertar-Ordenados n k q fin (s ∷ ss) o (inl h) le lt =
    let antes : ltb n.dir_fisica s.dir_fisica ≡ true = lt→ltb _ _ (omega arith) in
    rw antes (omega arith, lt, (omega arith, o.1, o.2))
insertar-Ordenados n k q fin (s ∷ ss) o (inr h) le lt =
    let b = Hueco-bounds n.dir_fisica k (s.dir_fisica + s.tamanio) fin ss o.2 h in
    let detras : ltb n.dir_fisica s.dir_fisica ≡ false = le→ltb _ _ (omega arith) in
    rw detras (o.0, o.1, insertar-Ordenados n k (s.dir_fisica + s.tamanio) fin ss o.2 h le lt)

pub indice_para-le : (d : ℕ) (ss : List Segmento) → indice_para d ss ≤ length ss
unfolding indice_para
indice_para-le d [] = omega arith
indice_para-le d (s ∷ ss) = ground (arith, indice_para-le d ss)

pub vistas-insert_at :
    (m : Memoria) (i : ℕ) (n : Segmento) (ss : List Segmento)
    → vistas_de m (insert_at i n ss) ≡ insert_at i (vista_de m n) (vistas_de m ss)
vistas-insert_at m zero n ss = refl
vistas-insert_at m (suc i) n [] = refl
vistas-insert_at m (suc i) n (s ∷ ss) = ap (◌∷◌ (vista_de m s)) (vistas-insert_at m i n ss)

abbrev pub tiene_vista : ℕ → Vista → Bool
tiene_vista d v = v.dir_logica == d

pub any-vistas :
    (m : Memoria) (d : ℕ) (ss : List Segmento)
    → any (tiene_vista d) (vistas_de m ss) ≡ any (tiene_la_direccion d) ss
any-vistas m d [] = refl
any-vistas m d (s ∷ ss) = ap (◌||◌ (s.dir_logica == d)) (any-vistas m d ss)

-- No two segments have one logical address.
abbrev pub DireccionesUnicas : List Vista → Type 0
DireccionesUnicas [] = Unit {0}
DireccionesUnicas (v ∷ vs) = (any (tiene_vista v.dir_logica) vs ≡ false) × DireccionesUnicas vs

any-insert_at :
    (d i : ℕ) (v : Vista) (vs : List Vista)
    → any (tiene_vista d) vs ≡ false
    → (v.dir_logica == d) ≡ false
    → any (tiene_vista d) (insert_at i v vs) ≡ false
any-insert_at d zero v vs a h = rw (h, a)
any-insert_at d (suc i) v [] a h = rw h
any-insert_at d (suc i) v (w ∷ vs) a h = ground (arith, any-insert_at d i v vs)

pub Unicas-insert_at :
    (i : ℕ) (v : Vista) (vs : List Vista)
    → any (tiene_vista v.dir_logica) vs ≡ false
    → DireccionesUnicas vs
    → DireccionesUnicas (insert_at i v vs)
Unicas-insert_at zero v vs a h = (a, h)
Unicas-insert_at (suc i) v [] a h = (refl, tt)
Unicas-insert_at (suc i) v (w ∷ vs) a h =
    ground (arith, any-insert_at w.dir_logica i v vs h.0, Unicas-insert_at i v vs)

otra :
    (x d : ℕ) (azar : List ℕ)
    → any (λ r. r == d) (x ∷ azar) ≡ true
    → ¬ (x ≡ d)
    → any (λ r. r == d) azar ≡ true
otra x d azar i ne = elim (Bool-cases (x == d)) [
  | inl same ↦ absurd (ne (ground arith))
  | inr other ↦ ground arith
]

module _ (lib : ListLib Segmento) where
  -- A logical address that is given is a word that no segment has, and what is left of the values of
  -- `random()` are words, if all of them were.
  pub generar_direccion_logica-new :
      (azar : List ℕ) (ss : List Segmento) (d : ℕ) (resto : List ℕ)
      → generar_direccion_logica lib azar ss ≡ some (d, resto)
      → All (λ r. IsWord r) azar
      → (any (tiene_la_direccion d) ss ≡ false) × IsWord d × All (λ r. IsWord r) resto
  unfolding generar_direccion_logica
  generar_direccion_logica-new [] ss d resto e w = absurd (ground arith)
  generar_direccion_logica-new (r ∷ azar) ss d resto e w =
      elim (Bool-cases (lib.list_any_satisfy (tiene_la_direccion r) ss)) [
        | inl used ↦ generar_direccion_logica-new azar ss d resto (rw used at e) w.1
        | inr free ↦
            let q : (r, azar) ≡ (d, resto) = some_inj (rw free at e) in
            let same : r ≡ d = ap (λ x. x.0) q in
            let rest : azar ≡ resto = ap (λ x. x.1) q in
            (
              ap (λ k. any (tiene_la_direccion k) ss) (sym same)
                  ∙ sym (lib.list_any_satisfy_lem (tiene_la_direccion r) ss)
                  ∙ free,
              subst (λ k. IsWord k) same w.0,
              subst (All λ k. IsWord k) rest w.1,
            )
      ]

  -- The draws end as soon as one of them is of an address that no segment has.
  pub generar_direccion_logica-total :
      (azar : List ℕ) (ss : List Segmento) (d : ℕ)
      → any (λ r. r == d) azar ≡ true
      → any (tiene_la_direccion d) ss ≡ false
      → (r : ℕ × List ℕ) × (generar_direccion_logica lib azar ss ≡ some r)
  unfolding generar_direccion_logica
  generar_direccion_logica-total [] ss d i f = absurd (ground arith)
  generar_direccion_logica-total (x ∷ azar) ss d i f =
      elim (Bool-cases (lib.list_any_satisfy (tiene_la_direccion x) ss)) [
        | inl used ↦ rw used (
            generar_direccion_logica-total azar ss d
              (otra x d azar i λ same. false≢true (
                sym f
                ∙ ap (λ k. any (tiene_la_direccion k) ss) (sym same)
                ∙ sym (lib.list_any_satisfy_lem (tiene_la_direccion x) ss)
                ∙ used))
              f)
        | inr free ↦ ((x, azar), rw free)
      ]
