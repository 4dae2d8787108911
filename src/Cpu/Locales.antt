-- ===== src/Cpu/Locales.antt =====
-- Several variables defined one after the other, as the parser's library does for the line
-- `variables a, b, ...` of a program.
use tp_sistemas_operativos_u.Base.{
  ℕ, zero, suc, ◌+◌, ◌-◌, ◌*◌, ◌≤◌, ◌≡◌, refl, sym, ap, ◌∙◌, ◌>>=◌, Option, some, [], ◌∷◌, ◌++◌,
  append_assoc, arith, length, Bytes,
}
use tp_sistemas_operativos_u.Commons.{ListLib, DictLib}
use tp_sistemas_operativos_u.Memoria.Rebanadas.{sobrescribir, rebanada, rebanada-sobrescribir}
use tp_sistemas_operativos_u.Memoria.Partes.{
  length-sobrescribir, length-rebanada, rebanada-sobrescribir_antes, rebanada-append,
}
use tp_sistemas_operativos_u.Umv.{Segmento, Umv}
use tp_sistemas_operativos_u.Cpu.{Cpu}
use tp_sistemas_operativos_u.Cpu.Memoria.{definir_variable}
use tp_sistemas_operativos_u.Cpu.Contexto.{SinRepetir, Enteras-length}
use tp_sistemas_operativos_u.Cpu.Renombre.{sobrescribir-nil, SinRepetir-contiene}
use tp_sistemas_operativos_u.Cpu.Marco.{
  Marco, mismo-Marco, variables, definida, definir_variable-Marco,
}

sobrescribir_sigue :
    (o p : ℕ) (xs ys c : Bytes)
    → p ≡ o + length xs
    → sobrescribir p ys (sobrescribir o xs c) ≡ sobrescribir o (xs ++ ys) c
sobrescribir_sigue o p xs ys [] e = refl
sobrescribir_sigue zero zero [] ys (z ∷ c) e = refl
sobrescribir_sigue zero zero (x ∷ xs) ys (z ∷ c) e = absurd (omega arith)
sobrescribir_sigue zero (suc p) [] ys (z ∷ c) e = absurd (omega arith)
sobrescribir_sigue zero (suc p) (x ∷ xs) ys (z ∷ c) e =
    ap (◌∷◌ x) (sobrescribir_sigue zero p xs ys c (omega arith))
sobrescribir_sigue (suc o) zero xs ys (z ∷ c) e = absurd (omega arith)
sobrescribir_sigue (suc o) (suc p) xs ys (z ∷ c) e =
    ap (◌∷◌ z) (sobrescribir_sigue o p xs ys c (omega arith))

module _ (lib : ListLib Segmento) {D : Type 0} (dic : DictLib D) where
  -- Each variable is five bytes: its name, and what stands behind the parameter.
  unfoldable pub definir_variables : Cpu D → Bytes → Option (Cpu D)
  definir_variables c (n ∷ v1 ∷ v2 ∷ v3 ∷ v4 ∷ resto) = do
    (c', _) ← definir_variable lib dic c n (v1 ∷ v2 ∷ v3 ∷ v4 ∷ [])
    definir_variables c' resto
  definir_variables c _ = some c

  -- The state after the `k` variables that take the bytes from `usado` to `fin`.
  unfoldable pub definidas : Cpu D → (k fin : ℕ) → D → Umv → Cpu D
  definidas c k fin d u = record c {
    umv = u;
    diccionario_variables = d;
    pcb = record c.pcb {
      tamanio_contexto = c.pcb.tamanio_contexto + k;
      cursor_stack = c.pcb.segmento_stack + fin;
    };
  }

  definidas-definida :
      (c : Cpu D) (k usado n : ℕ) (u0 u : Umv) (d : D)
      → definidas (definida lib dic c usado n u0) k (usado + 5 + 5 * k) d u
        ≡ definidas c (suc k) (usado + 5 * suc k) d u
  unfolding definidas definida
  definidas-definida c k usado n u0 u d =
      let fin : usado + 5 + 5 * k ≡ usado + 5 * suc k = omega arith in
      let mas : c.pcb.tamanio_contexto + 1 + k ≡ c.pcb.tamanio_contexto + suc k = omega arith in
      rw (definidas, definida, fin, mas) refl

  -- The bytes of the context with one more variable.
  variables-definida :
      (c : Cpu D) (pila : Bytes) (usado : ℕ) (bs : Bytes)
      → length bs ≡ 5
      → usado + 5 ≤ length pila
      → 5 * c.pcb.tamanio_contexto ≤ usado
      → rebanada
          (usado + 5 - 5 * (c.pcb.tamanio_contexto + 1))
          (5 * (c.pcb.tamanio_contexto + 1))
          (sobrescribir usado bs pila)
        ≡ variables c.pcb pila usado ++ bs
  variables-definida c pila usado bs l h en =
      let k = c.pcb.tamanio_contexto in
      let p : usado + 5 - 5 * (k + 1) ≡ usado - 5 * k = omega (arith, en) in
      rw p (
        rebanada-append (usado - 5 * k) (5 * k) 5 (5 * (k + 1)) usado (sobrescribir usado bs pila)
          (omega arith) (omega (arith, en))
        ∙ ap (λ x. x ++ rebanada usado 5 (sobrescribir usado bs pila))
            (rebanada-sobrescribir_antes (usado - 5 * k) (5 * k) usado bs pila (omega (arith, en)))
        ∙ ap (λ x. variables c.pcb pila usado ++ x)
            (ap (λ x. rebanada usado x (sobrescribir usado bs pila)) (sym l)
              ∙ rebanada-sobrescribir usado bs pila (omega (arith, l, h))))

  pub definir_variables-Marco :
      (k : ℕ) (c : Cpu D) (pila : Bytes) (usado : ℕ) (locales : Bytes)
      → Marco dic c pila usado
      → length locales ≡ 5 * k
      → usado + 5 * k ≤ length pila
      → SinRepetir (variables c.pcb pila usado ++ locales)
      → (u : Umv) × (d : D) × (definir_variables c locales
          ≡ some (definidas c k (usado + 5 * k) d u))
        × Marco dic
            (definidas c k (usado + 5 * k) d u)
            (sobrescribir usado locales pila)
            (usado + 5 * k)
  unfolding definir_variables definidas definida
  definir_variables-Marco zero c pila usado [] m l h s =
      let u0 : usado + 5 * zero ≡ usado = omega arith in
      let k0 : c.pcb.tamanio_contexto + zero ≡ c.pcb.tamanio_contexto = omega arith in
      (
        c.umv,
        c.diccionario_variables,
        rw (definidas, u0, k0, sym m.cursor) refl,
        rw (definidas, u0, k0, sym m.cursor, sobrescribir-nil usado pila) m,
      )
  definir_variables-Marco zero c pila usado (n ∷ bs) m l h s = absurd (omega arith)
  definir_variables-Marco (suc k) c pila usado [] m l h s = absurd (omega arith)
  definir_variables-Marco (suc k) c pila usado (n ∷ []) m l h s = absurd (omega arith)
  definir_variables-Marco (suc k) c pila usado (n ∷ v1 ∷ []) m l h s = absurd (omega arith)
  definir_variables-Marco (suc k) c pila usado (n ∷ v1 ∷ v2 ∷ []) m l h s = absurd (omega arith)
  definir_variables-Marco (suc k) c pila usado (n ∷ v1 ∷ v2 ∷ v3 ∷ []) m l h s =
      absurd (omega arith)
  definir_variables-Marco (suc k) c pila usado (n ∷ v1 ∷ v2 ∷ v3 ∷ v4 ∷ resto) m l h s =
      let tc = c.pcb.tamanio_contexto in
      let bs = n ∷ v1 ∷ v2 ∷ v3 ∷ v4 ∷ [] in
      let vars = variables c.pcb pila usado in
      let q =
        Enteras-length tc vars
          (length-rebanada (usado - 5 * tc) (5 * tc) pila (omega (arith, m.lugar, m.entero))) in
      let a =
        definir_variable-Marco lib dic c pila usado n v1 v2 v3 v4 m (omega (arith, h))
          (SinRepetir-contiene vars n v1 v2 v3 v4 resto q s) in
      let vd = variables-definida c pila usado bs refl (omega (arith, h)) m.entero in
      let r =
        definir_variables-Marco k (definida lib dic c usado n a.0) (sobrescribir usado bs pila)
          (usado + 5) resto a.2 (omega (arith, l))
          (omega (arith, h, length-sobrescribir usado bs pila))
          (rw (vd, append_assoc vars bs resto) s) in
      let sig = definidas-definida c k usado n a.0 r.0 r.1 in
      let fin : usado + 5 + 5 * k ≡ usado + 5 * suc k = omega arith in
      (
        r.0,
        r.1,
        rw a.1 (r.2 ∙ ap some sig),
        mismo-Marco dic sig (sobrescribir_sigue usado (usado + 5) bs resto pila refl) fin r.3,
      )
