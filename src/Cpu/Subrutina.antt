-- ===== src/Cpu/Subrutina.antt =====
-- A whole call: the call itself, the variables that the function defines, and its return.
use tp_sistemas_operativos_u.Base.{
  ℕ, zero, ◌+◌, ◌-◌, ◌*◌, ◌≤◌, ◌≡◌, refl, sym, ap, ◌∙◌, ◌>>=◌, Option, none, some, ◌++◌, arith,
  length, Bytes, IsWord, sub32, word_bytes,
}
use mathlib.Core.Path.{subst}
use tp_sistemas_operativos_u.Commons.{ListLib, DictLib}
use tp_sistemas_operativos_u.Memoria.Rebanadas.{sobrescribir, rebanada, rebanada-sobrescribir}
use tp_sistemas_operativos_u.Memoria.Partes.{length-sobrescribir, rebanada-sobrescribir_antes}
use tp_sistemas_operativos_u.Umv.{Segmento, Umv}
use tp_sistemas_operativos_u.Cpu.{Cpu}
use tp_sistemas_operativos_u.Cpu.Memoria.{obtener_posicion_variable}
use tp_sistemas_operativos_u.Cpu.Llamadas.{llamar, bytes_contexto, llamar_sin_retorno, finalizar}
use tp_sistemas_operativos_u.Cpu.Contexto.{direccion, SinRepetir}
use tp_sistemas_operativos_u.Cpu.Marco.{Marco, mismo-Marco}
use tp_sistemas_operativos_u.Cpu.Retorno.{llamada, vuelta, llamar-Marco, finalizar-Marco}
use tp_sistemas_operativos_u.Cpu.Locales.{definir_variables, definidas, definir_variables-Marco}

pub bind_luego :
    {A B C : Type 0} (x : Option A) (f : A → Option B) (g : B → Option C) (b : B)
    → (x >>= f) ≡ some b
    → (x >>= λ a. (f a >>= g)) ≡ g b
bind_luego none f g b e = ground arith
bind_luego (some a) f g b e = ap (λ r. r >>= g) e

length_dos : (x y : ℕ) → length (word_bytes x ++ word_bytes y) ≡ 8
unfolding word_bytes
length_dos x y = refl

-- The words of a call and the variables behind them.
abbrev pub con_marco : (usado cuantos : ℕ) (punteros locales pila : Bytes) → Bytes
con_marco usado cuantos punteros locales pila =
    sobrescribir (usado + cuantos) locales (sobrescribir usado punteros pila)

module _ (a n cuantos : ℕ) (punteros locales pila : Bytes) (l : length punteros ≡ cuantos)
    (h : a + 5 * n + cuantos ≤ length pila) where
  pub punteros-con_marco :
      rebanada (a + 5 * n) cuantos (con_marco (a + 5 * n) cuantos punteros locales pila) ≡ punteros
  punteros-con_marco =
      rebanada-sobrescribir_antes (a + 5 * n) cuantos (a + 5 * n + cuantos) locales
        (sobrescribir (a + 5 * n) punteros pila) (omega arith)
      ∙ ap (λ x. rebanada (a + 5 * n) x (sobrescribir (a + 5 * n) punteros pila)) (sym l)
      ∙ rebanada-sobrescribir (a + 5 * n) punteros pila (omega (arith, l, h))

  pub variables-con_marco :
      rebanada a (5 * n) (con_marco (a + 5 * n) cuantos punteros locales pila)
      ≡ rebanada a (5 * n) pila
  variables-con_marco =
      rebanada-sobrescribir_antes a (5 * n) (a + 5 * n + cuantos) locales
        (sobrescribir (a + 5 * n) punteros pila) (omega arith)
      ∙ rebanada-sobrescribir_antes a (5 * n) (a + 5 * n) punteros pila (omega arith)

  pub length-con_marco : length (con_marco (a + 5 * n) cuantos punteros locales pila) ≡ length pila
  length-con_marco =
      length-sobrescribir (a + 5 * n + cuantos) locales (sobrescribir (a + 5 * n) punteros pila)
      ∙ length-sobrescribir (a + 5 * n) punteros pila

cabe_8 : 4 ≤ 8
cabe_8 = omega arith

module _ (lib : ListLib Segmento) {D : Type 0} (dic : DictLib D)
    (metadata_buscar_etiqueta : Bytes → Bytes → ℕ → ℕ) where
  -- The state in the function, with its `k` variables defined.
  unfoldable pub adentro : Cpu D → (usado cuantos k : ℕ) → (etiqueta : Bytes) → D → Umv → Cpu D
  adentro c usado cuantos k etiqueta d u =
      definidas lib dic (llamada lib dic metadata_buscar_etiqueta c usado etiqueta cuantos u) k
        (usado + cuantos + 5 * k) d u

  pub llamar-locales :
      (c : Cpu D) (pila : Bytes) (usado cuantos k : ℕ) (etiqueta punteros locales : Bytes)
      → Marco dic c pila usado
      → length punteros ≡ cuantos
      → 4 ≤ cuantos
      → length locales ≡ 5 * k
      → SinRepetir locales
      → usado + cuantos + 5 * k ≤ length pila
      → (u : Umv) × (d : D) × ((do
        c1 ← llamar lib dic metadata_buscar_etiqueta c etiqueta punteros cuantos
        definir_variables lib dic c1 locales)
          ≡ some (adentro c usado cuantos k etiqueta d u))
        × Marco dic
            (adentro c usado cuantos k etiqueta d u)
            (con_marco usado cuantos punteros locales pila)
            (usado + cuantos + 5 * (adentro c usado cuantos k etiqueta d u).pcb.tamanio_contexto)
  unfolding adentro llamada definidas
  llamar-locales c pila usado cuantos k etiqueta punteros locales m lp c4 ll s h =
      let a =
        llamar-Marco lib dic metadata_buscar_etiqueta c pila usado etiqueta punteros cuantos m lp c4
          (omega (arith, h)) in
      let r =
        definir_variables-Marco lib dic k
          (llamada lib dic metadata_buscar_etiqueta c usado etiqueta cuantos a.0)
          (sobrescribir usado punteros pila) (usado + cuantos) locales a.2 ll
          (omega (arith, h, length-sobrescribir usado punteros pila)) s in
      let k0 : usado + cuantos + 5 * k ≡ usado + cuantos + 5 * (zero + k) = omega arith in
      (r.0, r.1, rw a.1 r.2, mismo-Marco dic refl refl k0 r.3)

  -- The state after a call that has returned: the memory server, the dictionary and the start of the
  -- context are what may differ.
  unfoldable pub de_vuelta : Cpu D → (a : ℕ) → D → Umv → Cpu D
  de_vuelta c a d u = record c {
    umv = u;
    inicio_contexto = c.pcb.segmento_stack + a;
    diccionario_variables = d;
  }

  pub vuelta-adentro :
      (c : Cpu D) (pila : Bytes) (a cuantos k : ℕ) (etiqueta : Bytes) (d dd : D) (u uu : Umv)
      → Marco dic c pila (a + 5 * c.pcb.tamanio_contexto)
      → vuelta lib dic metadata_buscar_etiqueta
          (adentro c (a + 5 * c.pcb.tamanio_contexto) cuantos k etiqueta d u)
          a
          c.pcb.tamanio_contexto
          c.pcb.program_counter
          dd
          uu
        ≡ de_vuelta c a dd uu
  unfolding vuelta adentro definidas llamada de_vuelta
  vuelta-adentro c pila a cuantos k etiqueta d dd u uu m = rw (sym m.cursor) refl

  pub nombres-de_vuelta :
      (c : Cpu D) (pila pila' : Bytes) (a : ℕ) (d : D) (u : Umv)
      → Marco dic c pila (a + 5 * c.pcb.tamanio_contexto)
      → Marco dic (de_vuelta c a d u) pila' (a + 5 * c.pcb.tamanio_contexto)
      → ((id : ℕ)
          → direccion (c.pcb.segmento_stack + a) (rebanada a (5 * c.pcb.tamanio_contexto) pila') id
            ≡ direccion
                (c.pcb.segmento_stack + a)
                (rebanada a (5 * c.pcb.tamanio_contexto) pila)
                id)
      → (id : ℕ)
      → obtener_posicion_variable dic (de_vuelta c a d u) id ≡ obtener_posicion_variable dic c id
  unfolding de_vuelta
  nombres-de_vuelta c pila pila' a d u m m' e id =
      let p : a + 5 * c.pcb.tamanio_contexto - 5 * c.pcb.tamanio_contexto ≡ a = omega arith in
      m'.nombres id
      ∙ subst
          (λ x.
            direccion (c.pcb.segmento_stack + x) (rebanada x (5 * c.pcb.tamanio_contexto) pila') id
            ≡ direccion (c.pcb.segmento_stack + x) (rebanada x (5 * c.pcb.tamanio_contexto) pila)
                id)
          (sym p) (e id)
      ∙ sym (m.nombres id)

  -- A call without a value, the definition of the function's variables, whose names differ, and
  -- `finalizar`, where the two words and the variables fit on the stack behind the caller's context:
  -- the caller goes on at its program counter, in its context, with every variable at the address
  -- where it was.
  pub finalizar-llamar_sin_retorno :
      (c : Cpu D) (pila : Bytes) (a k : ℕ) (etiqueta locales : Bytes)
      → Marco dic c pila (a + 5 * c.pcb.tamanio_contexto)
      → IsWord c.pcb.program_counter
      → length locales ≡ 5 * k
      → SinRepetir locales
      → a + 5 * c.pcb.tamanio_contexto + 8 + 5 * k ≤ length pila
      → (u : Umv) × (d : D) × ((do
        c1 ← llamar_sin_retorno lib dic metadata_buscar_etiqueta c etiqueta
        c2 ← definir_variables lib dic c1 locales
        finalizar lib dic metadata_buscar_etiqueta c2)
          ≡ some (de_vuelta c a d u))
        × ((id : ℕ)
            → obtener_posicion_variable dic (de_vuelta c a d u) id
              ≡ obtener_posicion_variable dic c id)
  unfolding llamar_sin_retorno
  finalizar-llamar_sin_retorno c pila a k etiqueta locales m w l s h =
      let n = c.pcb.tamanio_contexto in
      let punteros = word_bytes (c.pcb.segmento_stack + a) ++ word_bytes c.pcb.program_counter in
      let lp = length_dos (c.pcb.segmento_stack + a) c.pcb.program_counter in
      let g = llamar-locales c pila (a + 5 * n) 8 k etiqueta punteros locales m lp cabe_8 l s h in
      let en = adentro c (a + 5 * n) 8 k etiqueta g.1 g.0 in
      let vars = variables-con_marco a n 8 punteros locales pila lp (omega (arith, h)) in
      let p : a + 5 * n - 5 * n ≡ a = omega arith in
      let f =
        finalizar-Marco lib dic metadata_buscar_etiqueta en
          (con_marco (a + 5 * n) 8 punteros locales pila) a n c.pcb.program_counter g.3
          (unfold adentro definidas llamada in
            punteros-con_marco a n 8 punteros locales pila lp (omega (arith, h)))
          w (rw vars (subst (λ x. SinRepetir (rebanada x (5 * n) pila)) p m.sin_repetir)) in
      let v = vuelta-adentro c pila a 8 k etiqueta g.1 f.0 g.0 en.umv m in
      let ini : sub32 c.pcb.cursor_stack (bytes_contexto c.pcb) ≡ c.pcb.segmento_stack + a =
        omega (arith, m.cursor, m.lugar, m.en_pila.alto) in
      (
        en.umv,
        f.0,
        rw (llamar_sin_retorno, ini)
            (bind_luego (llamar lib dic metadata_buscar_etiqueta c etiqueta punteros 8)
                (λ c1. definir_variables lib dic c1 locales)
                (finalizar lib dic metadata_buscar_etiqueta) en g.2
              ∙ f.1
              ∙ ap some v),
        nombres-de_vuelta c pila _ a f.0 en.umv m (mismo-Marco dic v refl refl f.2)
            (λ id. ap (λ x. direccion (c.pcb.segmento_stack + a) x id) vars),
      )
