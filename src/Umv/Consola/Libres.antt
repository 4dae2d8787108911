-- ===== src/Umv/Consola/Libres.antt =====
-- `fnMostrarEspaciosLibre` of umv/consola/consola.c against the list of the gaps.
use tp_sistemas_operativos_u.Base.{
  false, true, ℕ, ◌+◌, ◌-◌, ◌≤◌, ◌<◌, ◌≡◌, refl, sym, ◌∙◌, ◌==◌, ltb, if◌then◌else◌, List, [], ◌∷◌,
  ◌++◌, Option, none, some, append_assoc, append-nil, arith, Bool-cases, inl, inr,
}
use tp_sistemas_operativos_u.Umv.{Segmento, Umv, Ordenados, IsValid}
use tp_sistemas_operativos_u.Umv.Busqueda.Huecos.{huecos, huecos_de, avanzar_wf_lem, Ordenados-le}
use tp_sistemas_operativos_u.Umv.Consola.Listados.{
  debug, info, Libre, EstadoLibres, nodo_libres, nodos_libres, final_libres,
  fn_mostrar_espacios_libre,
}

-- The gaps that hold a byte: each with its address and size, for debugging; but the last one, behind
-- all the segments, as information, with the address of the one logged before it, if there is one.
unfoldable pub mostrados : Option ℕ → List (ℕ × ℕ) → List Libre
mostrados base [] = []
mostrados base ((q, k) ∷ []) =
    if ltb 0 k then record { nivel = info; base = base; tamanio = k } ∷ [] else []
mostrados base ((q, k) ∷ (h ∷ hs)) =
    let con = mostrados (some q) (h ∷ hs) in
    let sin = mostrados base (h ∷ hs) in
    if ltb 0 k then record { nivel = debug; base = some q; tamanio = k } ∷ con else sin

-- A gap that is not the last one.
mostrados-huecos :
    (base : Option ℕ) (q k p fin : ℕ) (ss : List Segmento)
    → mostrados base ((q, k) ∷ huecos p fin ss) ≡ (
        if ltb 0 k
        then record { nivel = debug; base = some q; tamanio = k }
          ∷ mostrados (some q) (huecos p fin ss)
        else mostrados base (huecos p fin ss))
unfolding mostrados
mostrados-huecos base q k p fin [] = refl
mostrados-huecos base q k p fin (s ∷ ss) = refl

libres-final :
    (cant ini : ℕ) (e : EstadoLibres)
    → ini + e.posicion ≡ e.p_moviendo
    → final_libres cant e
      ≡ e.libres ++ mostrados e.base ((e.p_moviendo, ini + cant - e.p_moviendo) ∷ [])
unfolding final_libres mostrados
libres-final cant ini e h = elim (Bool-cases (ltb e.posicion cant)) [
  | inl si ↦
      let k : ltb 0 (ini + cant - e.p_moviendo) ≡ true = ground (arith, si, h) in
      let m : cant - e.posicion ≡ ini + cant - e.p_moviendo = omega (arith, h) in
      rw (final_libres, mostrados, si, k, m) refl
  | inr otro ↦
      let k : ltb 0 (ini + cant - e.p_moviendo) ≡ false = ground (arith, otro, h) in
      rw (final_libres, mostrados, otro, k) (sym (append-nil e.libres))
]

-- The state behind a segment, where a gap of `k` bytes stands in front of it.
abbrev tras : EstadoLibres → (k : ℕ) → Segmento → Option ℕ → List Libre → EstadoLibres
tras e k s base libres = record {
  p_moviendo = s.dir_fisica + s.tamanio;
  posicion = e.posicion + k + s.tamanio;
  base = base;
  libres = libres;
}

nodo-tras :
    (cant ini : ℕ) (s : Segmento) (e : EstadoLibres)
    → ini + e.posicion ≡ e.p_moviendo
    → e.p_moviendo ≤ s.dir_fisica
    → s.dir_fisica < ini + cant
    → let k = s.dir_fisica - e.p_moviendo in
      nodo_libres cant s e ≡ (
        if ltb 0 k
        then tras e k s
            (some e.p_moviendo)
            (e.libres ++ record { nivel = debug; base = some e.p_moviendo; tamanio = k } ∷ [])
        else tras e k s e.base e.libres)
unfolding nodo_libres
nodo-tras cant ini s e h le lt =
    let k = s.dir_fisica - e.p_moviendo in
    let a =
      avanzar_wf_lem cant cant s.dir_fisica ini
        (record { p_moviendo = e.p_moviendo; posicion = e.posicion; cantidad = 0 }) h le lt
        (omega (arith, h, lt)) in
    let z : 0 + k ≡ k = omega arith in
    let b : s.dir_fisica - k ≡ e.p_moviendo = omega (arith, le) in
    elim (Bool-cases (ltb 0 k)) [
      | inl si ↦ rw (nodo_libres, a, z, si, b) refl
      | inr otro ↦ rw (nodo_libres, a, z, otro) refl
    ]

libres_lem :
    (segs : List Segmento) (cant ini : ℕ) (e : EstadoLibres)
    → ini + e.posicion ≡ e.p_moviendo
    → Ordenados e.p_moviendo (ini + cant) segs
    → final_libres cant (nodos_libres cant segs e)
      ≡ e.libres ++ mostrados e.base (huecos e.p_moviendo (ini + cant) segs)
unfolding nodos_libres
libres_lem [] cant ini e h o = libres-final cant ini e h
libres_lem (s ∷ ss) cant ini e h o =
    let fin = Ordenados-le _ _ ss o.2 in
    let k = s.dir_fisica - e.p_moviendo in
    let f : (e.posicion == cant) ≡ false = ground (arith, h, o.0, o.1, fin) in
    let n = nodo-tras cant ini s e h o.0 (omega (arith, o.1, fin)) in
    let g = mostrados-huecos e.base e.p_moviendo k (s.dir_fisica + s.tamanio) (ini + cant) ss in
    elim (Bool-cases (ltb 0 k)) [
      | inl si ↦
          let x : Libre = record { nivel = debug; base = some e.p_moviendo; tamanio = k } in
          let e1 = tras e k s (some e.p_moviendo) (e.libres ++ x ∷ []) in
          let r = libres_lem ss cant ini e1 (omega (arith, h, o.0)) o.2 in
          rw (f, n, g, si) (r ∙ append_assoc e.libres (x ∷ []) _)
      | inr otro ↦
          let e1 = tras e k s e.base e.libres in
          let r = libres_lem ss cant ini e1 (omega (arith, h, o.0)) o.2 in rw (f, n, g, otro) r
    ]

-- In a valid state `dump` logs the gaps that hold a byte, in the order of their addresses: each one
-- in front of a segment at the level of debugging, with its address and size; and the one behind the
-- last segment at the level of information, with its size, but with the address of the gap logged
-- before it, or of none where it is the only one.
pub fn_mostrar_espacios_libre-mostrados :
    (u : Umv) → IsValid u → fn_mostrar_espacios_libre u ≡ mostrados none (huecos_de u)
unfolding fn_mostrar_espacios_libre
fn_mostrar_espacios_libre-mostrados u v =
    libres_lem u.segmentos u.cant_mem u.inicio_memoria
      (record { p_moviendo = u.inicio_memoria; posicion = 0; base = none; libres = [] })
      (omega arith) v.ordenados
