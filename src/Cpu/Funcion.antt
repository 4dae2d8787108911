-- ===== src/Cpu/Funcion.antt =====
-- A call of a function with a value, `x <- f`, and its `return`.
use tp_sistemas_operativos_u.Base.{
  ◌/◌, ◌%◌, ℕ, ◌+◌, ◌-◌, ◌*◌, ◌≤◌, ◌<◌, ◌≡◌, refl, sym, ap, ◌∙◌, ◌>>=◌, some, ◌++◌, arith, length,
  Bytes, IsWord, sub32, word_bytes, word_alone, length-word_bytes,
}
use mathlib.Core.Path.{subst}
use tp_sistemas_operativos_u.Commons.{ListLib, DictLib}
use tp_sistemas_operativos_u.Memoria.Rebanadas.{sobrescribir, rebanada, rebanada-sobrescribir}
use tp_sistemas_operativos_u.Memoria.Partes.{
  length-sobrescribir, length-rebanada, rebanada-sobrescribir_dentro,
}
use tp_sistemas_operativos_u.Umv.{Segmento, Umv}
use tp_sistemas_operativos_u.Cpu.{Cpu}
use tp_sistemas_operativos_u.Cpu.Memoria.{obtener_posicion_variable, dereferenciar, buffer_de}
use tp_sistemas_operativos_u.Cpu.Llamadas.{llamar, bytes_contexto, llamar_con_retorno, retornar}
use tp_sistemas_operativos_u.Cpu.Pila.{EnPila, solicitar-EnPila}
use tp_sistemas_operativos_u.Cpu.Contexto.{direccion, SinRepetir, Enteras-length}
use tp_sistemas_operativos_u.Cpu.Renombre.{
  direccion-sobrescribir, SinRepetir-sobrescribir, direccion-lugar,
}
use tp_sistemas_operativos_u.Cpu.Marco.{Marco, mismo-Marco}
use tp_sistemas_operativos_u.Cpu.Retorno.{llamada, retornar-Marco}
use tp_sistemas_operativos_u.Cpu.Locales.{definir_variables, definidas}
use tp_sistemas_operativos_u.Cpu.Subrutina.{
  bind_luego, con_marco, punteros-con_marco, variables-con_marco, length-con_marco, adentro,
  llamar-locales, de_vuelta, vuelta-adentro, nombres-de_vuelta,
}

cabe_12 : 4 ≤ 12
cabe_12 = omega arith

dereferenciar_escrito :
    (lib : ListLib Segmento) {D : Type 0} (c : Cpu D) (pila : Bytes) (d valor : ℕ)
    → EnPila c (sobrescribir d (word_bytes valor) pila)
    → d + 4 ≤ length pila
    → IsWord valor
    → dereferenciar lib c (c.pcb.segmento_stack + d) ≡ some (c, valor)
unfolding dereferenciar buffer_de word_bytes
dereferenciar_escrito lib c pila d valor e h w =
    let l = length-sobrescribir d (word_bytes valor) pila in
    let dir : sub32 (c.pcb.segmento_stack + d) c.pcb.segmento_stack ≡ d =
      omega (arith, e.alto, h, l) in
    let s =
      solicitar-EnPila lib c (sobrescribir d (word_bytes valor) pila) d 4 e (omega (arith, h, l)) in
    let v : rebanada d 4 (sobrescribir d (word_bytes valor) pila) ≡ word_bytes valor =
      rebanada-sobrescribir d (word_bytes valor) pila (omega (arith, h, length-word_bytes valor)) in
    rw (dereferenciar, dir, s, v, word_alone valor w) refl

length_tres : (x y z : ℕ) → length (word_bytes x ++ (word_bytes y ++ word_bytes z)) ≡ 12
unfolding word_bytes
length_tres x y z = refl

module _ (lib : ListLib Segmento) {D : Type 0} (dic : DictLib D)
    (metadata_buscar_etiqueta : Bytes → Bytes → ℕ → ℕ) where
  -- Where the variable is the one with the number `j` of the caller.
  retornar_en :
      (c : Cpu D) (pila : Bytes) (a k j p valor : ℕ) (etiqueta locales : Bytes)
      → Marco dic c pila (a + 5 * c.pcb.tamanio_contexto)
      → p ≡ c.pcb.segmento_stack + (a + (5 * j + 1))
      → j < c.pcb.tamanio_contexto
      → IsWord c.pcb.program_counter
      → IsWord valor
      → length locales ≡ 5 * k
      → SinRepetir locales
      → a + 5 * c.pcb.tamanio_contexto + 12 + 5 * k ≤ length pila
      → (u : Umv) × (d : D) × ((do
        c1 ← llamar_con_retorno lib dic metadata_buscar_etiqueta c etiqueta p
        c2 ← definir_variables lib dic c1 locales
        retornar lib dic metadata_buscar_etiqueta c2 valor)
          ≡ some (de_vuelta lib dic metadata_buscar_etiqueta c a d u))
        × ((id : ℕ)
            → obtener_posicion_variable dic (de_vuelta lib dic metadata_buscar_etiqueta c a d u) id
              ≡ obtener_posicion_variable dic c id)
        × (dereferenciar lib (de_vuelta lib dic metadata_buscar_etiqueta c a d u) p
            ≡ some (de_vuelta lib dic metadata_buscar_etiqueta c a d u, valor))
  unfolding llamar_con_retorno word_bytes
  retornar_en c pila a k j p valor etiqueta locales m pd lj w wv l s h =
      let n = c.pcb.tamanio_contexto in
      let seg = c.pcb.segmento_stack in
      let pc = c.pcb.program_counter in
      let d = a + (5 * j + 1) in
      let vars = rebanada a (5 * n) pila in
      let lv : length vars ≡ 5 * n = length-rebanada a (5 * n) pila (omega (arith, h)) in
      let q = Enteras-length n vars lv in
      let resta : a + 5 * n - 5 * n ≡ a = omega arith in
      let sv = subst (λ x. SinRepetir (rebanada x (5 * n) pila)) resta m.sin_repetir in
      let punteros = word_bytes (seg + a) ++ (word_bytes pc ++ word_bytes p) in
      let lp = length_tres (seg + a) pc p in
      let g =
        llamar-locales lib dic metadata_buscar_etiqueta c pila (a + 5 * n) 12 k etiqueta punteros
          locales m lp cabe_12 l s h in
      let en = adentro lib dic metadata_buscar_etiqueta c (a + 5 * n) 12 k etiqueta g.1 g.0 in
      let pila' = con_marco (a + 5 * n) 12 punteros locales pila in
      let lw = length-word_bytes valor in
      let cabe = length-con_marco a n 12 punteros locales pila lp (omega (arith, h)) in
      let vf : rebanada a (5 * n) (sobrescribir d (word_bytes valor) pila')
          ≡ sobrescribir (5 * j + 1) (word_bytes valor) vars =
        rebanada-sobrescribir_dentro a (5 * n) (5 * j + 1) d (word_bytes valor) pila' refl
          (omega (arith, lw, lj))
        ∙ ap (sobrescribir (5 * j + 1) (word_bytes valor))
            (variables-con_marco a n 12 punteros locales pila lp (omega (arith, h))) in
      let r =
        retornar-Marco lib dic metadata_buscar_etiqueta en pila' a n pc d valor g.3
          (unfold adentro definidas llamada in
            (punteros-con_marco a n 12 punteros locales pila lp (omega (arith, h))
              ∙ ap (λ y. word_bytes (seg + a) ++ (word_bytes pc ++ word_bytes y)) pd))
          w wv (omega (arith, cabe, h, lj)) (omega (arith, lj))
          (rw vf (
            SinRepetir-sobrescribir (valor % 256) (valor / 256 % 256) (valor / 65536 % 256)
              (valor / 16777216 % 256) j vars q sv)) in
      let v =
        vuelta-adentro lib dic metadata_buscar_etiqueta c pila a 12 k etiqueta g.1 r.1 g.0 r.0 m in
      let z = de_vuelta lib dic metadata_buscar_etiqueta c a r.1 r.0 in
      let fm = mismo-Marco dic v refl refl r.3 in
      let ini : sub32 c.pcb.cursor_stack (bytes_contexto c.pcb) ≡ seg + a =
        omega (arith, m.cursor, m.lugar, m.en_pila.alto) in
      (
        r.0,
        r.1,
        rw (llamar_con_retorno, ini)
            (bind_luego (llamar lib dic metadata_buscar_etiqueta c etiqueta punteros 12)
                (λ c1. definir_variables lib dic c1 locales)
                (λ c2. retornar lib dic metadata_buscar_etiqueta c2 valor) en g.2
              ∙ r.2
              ∙ ap some v),
        nombres-de_vuelta lib dic metadata_buscar_etiqueta c pila _ a r.1 r.0 m fm (λ id.
            ap (λ x. direccion (seg + a) x id) vf
            ∙ direccion-sobrescribir (valor % 256) (valor / 256 % 256) (valor / 65536 % 256)
                (valor / 16777216 % 256) j (seg + a) vars id q),
        subst (λ y. dereferenciar lib z y ≡ some (z, valor)) (sym pd)
            (unfold de_vuelta in
              dereferenciar_escrito lib z pila' d valor fm.en_pila (omega (arith, cabe, h, lj)) wv),
      )

  -- A call into a variable `x` of the caller, whose address `p` the dictionary has; then the
  -- definition of the function's variables, whose names differ, and `retornar` of a word, where the
  -- three words and the variables fit on the stack behind the caller's context: the caller goes on at
  -- its program counter, in its context, with every variable at the address where it was, and `p`
  -- holds the word.
  pub retornar-llamar_con_retorno :
      (c : Cpu D) (pila : Bytes) (a k x p valor : ℕ) (etiqueta locales : Bytes)
      → Marco dic c pila (a + 5 * c.pcb.tamanio_contexto)
      → obtener_posicion_variable dic c x ≡ some p
      → IsWord c.pcb.program_counter
      → IsWord valor
      → length locales ≡ 5 * k
      → SinRepetir locales
      → a + 5 * c.pcb.tamanio_contexto + 12 + 5 * k ≤ length pila
      → (u : Umv) × (d : D) × ((do
        c1 ← llamar_con_retorno lib dic metadata_buscar_etiqueta c etiqueta p
        c2 ← definir_variables lib dic c1 locales
        retornar lib dic metadata_buscar_etiqueta c2 valor)
          ≡ some (de_vuelta lib dic metadata_buscar_etiqueta c a d u))
        × ((id : ℕ)
            → obtener_posicion_variable dic (de_vuelta lib dic metadata_buscar_etiqueta c a d u) id
              ≡ obtener_posicion_variable dic c id)
        × (dereferenciar lib (de_vuelta lib dic metadata_buscar_etiqueta c a d u) p
            ≡ some (de_vuelta lib dic metadata_buscar_etiqueta c a d u, valor))
  unfolding llamar_con_retorno
  retornar-llamar_con_retorno c pila a k x p valor etiqueta locales m hay w wv l s h =
      let n = c.pcb.tamanio_contexto in
      let seg = c.pcb.segmento_stack in
      let vars = rebanada a (5 * n) pila in
      let resta : a + 5 * n - 5 * n ≡ a = omega arith in
      let lv : length vars ≡ 5 * n = length-rebanada a (5 * n) pila (omega (arith, h)) in
      let q = Enteras-length n vars lv in
      let dir : direccion (seg + a) vars x ≡ some p =
        subst (λ y. direccion (seg + y) (rebanada y (5 * n) pila) x ≡ some p) resta
          (sym (m.nombres x) ∙ hay) in
      let lugar = direccion-lugar (seg + a) vars x p q dir in
      retornar_en c pila a k lugar.0 p valor etiqueta locales m (omega (arith, lugar.1))
        (omega (arith, lugar.2, lv)) w wv l s h
