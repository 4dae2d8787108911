-- ===== src/Cpu/Marco.antt =====
-- The current context of a program: the variables on top of its stack, and the dictionary that the CPU
-- keeps of them. `definirVariable`, `asignar`, `dereferenciar` and `actualizarContexto`.
use tp_sistemas_operativos_u.Base.{
  ◌%◌, ℕ, ◌+◌, ◌-◌, ◌*◌, ◌≤◌, ◌<◌, ◌≡◌, refl, ap, ◌∙◌, true, false, some, [], ◌∷◌, ◌++◌, arith,
  length, Bytes, IsWord, add32, sub32, word_bytes, word_alone, length-word_bytes, ltb,
}
use mathlib.Core.Path.{subst}
use tp_sistemas_operativos_u.Commons.{ListLib, DictLib}
use tp_sistemas_operativos_u.Memoria.Rebanadas.{sobrescribir, rebanada, rebanada-sobrescribir}
use tp_sistemas_operativos_u.Memoria.Partes.{
  length-sobrescribir, length-rebanada, rebanada-sobrescribir_antes, rebanada-append,
}
use tp_sistemas_operativos_u.Protocolo.{Pcb}
use tp_sistemas_operativos_u.Umv.{Segmento, Umv}
use tp_sistemas_operativos_u.Cpu.{Cpu}
use tp_sistemas_operativos_u.Cpu.Memoria.{
  buffer_de, quinto, nombre_variable, definir_variable, obtener_posicion_variable, dereferenciar,
  asignar, cargar_variables, actualizar_contexto,
}
use tp_sistemas_operativos_u.Cpu.Pila.{EnPila, solicitar-EnPila, almacenar-EnPila}
use tp_sistemas_operativos_u.Cpu.Contexto.{
  contiene, direccion, SinRepetir, Enteras-length, cargar_variables-direccion, direccion-contiene,
  SinRepetir-append, direccion-append, dictionary_put-direccion,
}

-- A store of a word or of a variable fills the structure that the server reads it into.
cabe_4 : 4 ≤ 4
cabe_4 = omega arith

cabe_5 : 4 ≤ 5
cabe_5 = omega arith

-- The bytes of the variables of the current context, where `usado` bytes of the stack are in use.
abbrev pub variables : Pcb → Bytes → (usado : ℕ) → Bytes
variables pcb pila usado =
    rebanada (usado - 5 * pcb.tamanio_contexto) (5 * pcb.tamanio_contexto) pila

-- The cursor stands behind the `usado` bytes in use, which end with the variables of the context;
-- their names differ, and the dictionary has the address of each and of no other.
pub record Marco {D : Type 0} (dic : DictLib D) (c : Cpu D) (pila : Bytes) (usado : ℕ)
    : Type 0 where
  pub en_pila : EnPila c pila
  pub cursor : c.pcb.cursor_stack ≡ c.pcb.segmento_stack + usado
  pub lugar : usado ≤ length pila
  pub entero : 5 * c.pcb.tamanio_contexto ≤ usado
  pub sin_repetir : SinRepetir (variables c.pcb pila usado)
  pub nombres :
      (id : ℕ)
      → obtener_posicion_variable dic c id
        ≡ direccion
            (c.pcb.segmento_stack + (usado - 5 * c.pcb.tamanio_contexto))
            (variables c.pcb pila usado)
            id

pub mismo-Marco :
    {D : Type 0} (dic : DictLib D) {c c' : Cpu D} {pila pila' : Bytes} {usado usado' : ℕ}
    → c ≡ c'
    → pila ≡ pila'
    → usado ≡ usado'
    → Marco dic c pila usado
    → Marco dic c' pila' usado'
mismo-Marco dic {c} {c'} {pila} {pila'} {usado} {usado'} e f g m =
    subst (λ x. Marco dic x pila' usado') e
      (subst (λ x. Marco dic c x usado') f (subst (λ x. Marco dic c pila x) g m))

quinto_lem : (n : ℕ) → 5 * n < 2147483648 → quinto (5 * n) ≡ n
unfolding quinto
quinto_lem n h = let si : ltb (5 * n) 2147483648 ≡ true = ground (arith, h) in rw si (omega arith)

module _ (lib : ListLib Segmento) {D : Type 0} where
  -- `asignar` of a word to an address with four bytes of the stack succeeds and changes the stack only
  -- there and nothing else of the CPU, and `dereferenciar` of the address then returns the word.
  pub dereferenciar-asignar :
      (c : Cpu D) (pila : Bytes) (d valor : ℕ)
      → EnPila c pila
      → d + 4 ≤ length pila
      → IsWord valor
      → (u : Umv) × (asignar lib c (c.pcb.segmento_stack + d) valor ≡ some (record c { umv = u }))
        × (dereferenciar lib (record c { umv = u }) (c.pcb.segmento_stack + d)
            ≡ some (record c { umv = u }, valor))
        × EnPila (record c { umv = u }) (sobrescribir d (word_bytes valor) pila)
  unfolding asignar dereferenciar buffer_de word_bytes
  dereferenciar-asignar c pila d valor e h w =
      let dir : sub32 (c.pcb.segmento_stack + d) c.pcb.segmento_stack ≡ d =
        omega (arith, e.alto, h) in
      let a =
        almacenar-EnPila lib c pila d 4 (word_bytes valor) e (length-word_bytes valor) cabe_4 h in
      let c' = record c { umv = a.0 } in
      let pila' = sobrescribir d (word_bytes valor) pila in
      let s =
        solicitar-EnPila lib c' pila' d 4 a.2
          (omega (arith, h, length-sobrescribir d (word_bytes valor) pila)) in
      let v : rebanada d 4 pila' ≡ word_bytes valor =
        rebanada-sobrescribir d (word_bytes valor) pila
          (omega (arith, h, length-word_bytes valor)) in
      (
        a.0,
        rw (asignar, dir, a.1) refl,
        rw (dereferenciar, dir, s, v, word_alone valor w) refl,
        a.2,
      )

module _ (lib : ListLib Segmento) {D : Type 0} (dic : DictLib D) where
  -- Where the bytes from the start of the context to the cursor are `n` whole variables of the stack,
  -- whose names differ, `actualizarContexto` counts them and makes the dictionary agree with them, and
  -- nothing else of the CPU changes.
  pub actualizar_contexto-Marco :
      (c : Cpu D) (pila : Bytes) (a n usado : ℕ)
      → EnPila c pila
      → c.pcb.cursor_stack ≡ c.pcb.segmento_stack + usado
      → c.inicio_contexto ≡ c.pcb.segmento_stack + a
      → usado ≡ a + 5 * n
      → usado ≤ length pila
      → SinRepetir (rebanada a (5 * n) pila)
      → (d : D) × (actualizar_contexto lib dic c
          ≡ some
              (record c { diccionario_variables = d; pcb = record c.pcb { tamanio_contexto = n } }))
        × Marco dic
            (record c { diccionario_variables = d; pcb = record c.pcb { tamanio_contexto = n } })
            pila
            usado
  unfolding actualizar_contexto buffer_de
  actualizar_contexto-Marco c pila a n usado e cur ini us lug sin =
      let lleva : sub32 c.pcb.cursor_stack c.inicio_contexto ≡ 5 * n =
        omega (arith, cur, ini, us, lug, e.alto) in
      let n' = ap quinto lleva ∙ quinto_lem n (omega (arith, us, lug, e.corto)) in
      let d0 = dic.dictionary_clean c.diccionario_variables in
      let c1 = record c {
        diccionario_variables = d0;
        pcb = record c.pcb { tamanio_contexto = n };
      } in
      let o : sub32 c.inicio_contexto c.pcb.segmento_stack ≡ a =
        omega (arith, ini, e.alto, lug, us) in
      let t : (n * 5) % 4294967296 ≡ 5 * n = omega (arith, e.alto, lug, us) in
      let s = solicitar-EnPila lib c1 pila a (5 * n) e (omega (arith, lug, us)) in
      let vars = rebanada a (5 * n) pila in
      let l : length vars ≡ 5 * n = length-rebanada a (5 * n) pila (omega (arith, lug, us)) in
      let d = cargar_variables dic (c.pcb.segmento_stack + a) vars d0 in
      let p : usado - 5 * n ≡ a = omega (arith, us) in
      (
        d,
        rw (actualizar_contexto, n', o, t, s) refl,
        record {
          en_pila = e;
          cursor = cur;
          lugar = lug;
          entero = omega (arith, us);
          sin_repetir = rw p sin;
          nombres = λ id.
              unfold obtener_posicion_variable in
              rw p (
                cargar_variables-direccion dic n (c.pcb.segmento_stack + a) vars d0 id l
                  (omega (arith, e.alto, lug, us, l)) sin
                  (λ i x. dic.dictionary_clean_lem c.diccionario_variables (nombre_variable i))
                ∙ rw (dic.dictionary_clean_lem c.diccionario_variables (nombre_variable id)) (
                    direccion-contiene (c.pcb.segmento_stack + a) vars id
                      (Enteras-length n vars l)));
        },
      )

  -- The state after `definirVariable`, where the memory server is then `u`.
  unfoldable pub definida : Cpu D → (usado identificador : ℕ) → Umv → Cpu D
  definida c usado identificador u = record c {
    umv = u;
    diccionario_variables =
        dic.dictionary_put c.diccionario_variables (nombre_variable identificador)
          (c.pcb.segmento_stack + usado + 1);
    pcb = record c.pcb {
      tamanio_contexto = c.pcb.tamanio_contexto + 1;
      cursor_stack = c.pcb.segmento_stack + usado + 5;
    };
  }

  -- In a context that `Marco` describes, where five bytes of the stack are left, `definirVariable` of
  -- a name that is not in the context puts it on top of the stack and into the dictionary, returns the
  -- address of its value, and leaves such a context.
  pub definir_variable-Marco :
      (c : Cpu D) (pila : Bytes) (usado identificador v1 v2 v3 v4 : ℕ)
      → Marco dic c pila usado
      → usado + 5 ≤ length pila
      → contiene identificador (variables c.pcb pila usado) ≡ false
      → (u : Umv) × (definir_variable lib dic c identificador (v1 ∷ v2 ∷ v3 ∷ v4 ∷ [])
          ≡ some (definida c usado identificador u, c.pcb.segmento_stack + usado + 1))
        × Marco dic
            (definida c usado identificador u)
            (sobrescribir usado (identificador ∷ v1 ∷ v2 ∷ v3 ∷ v4 ∷ []) pila)
            (usado + 5)
  unfolding definir_variable definida
  definir_variable-Marco c pila usado identificador v1 v2 v3 v4 m h nueva =
      let bs = identificador ∷ v1 ∷ v2 ∷ v3 ∷ v4 ∷ [] in
      let e = m.en_pila in
      let k = c.pcb.tamanio_contexto in
      let o : sub32 c.pcb.cursor_stack c.pcb.segmento_stack ≡ usado =
        omega (arith, m.cursor, e.alto, h) in
      let a = almacenar-EnPila lib c pila usado 5 bs e refl cabe_5 h in
      let uno : add32 c.pcb.cursor_stack 1 ≡ c.pcb.segmento_stack + usado + 1 =
        omega (arith, m.cursor, e.alto, h) in
      let cinco : add32 c.pcb.cursor_stack 5 ≡ c.pcb.segmento_stack + usado + 5 =
        omega (arith, m.cursor, e.alto, h) in
      let mas : add32 k 1 ≡ k + 1 = omega (arith, m.entero, e.alto, h) in
      let vars = variables c.pcb pila usado in
      let l : length vars ≡ 5 * k =
        length-rebanada (usado - 5 * k) (5 * k) pila (omega (arith, m.entero, m.lugar)) in
      let q = Enteras-length k vars l in
      let pila' = sobrescribir usado bs pila in
      let p : usado + 5 - 5 * (k + 1) ≡ usado - 5 * k = omega (arith, m.entero) in
      let fin : c.pcb.segmento_stack + (usado - 5 * k) + length vars + 1
          ≡ c.pcb.segmento_stack + usado + 1 =
        omega (arith, l, m.entero) in
      let vars' : rebanada (usado - 5 * k) (5 * (k + 1)) pila' ≡ vars ++ bs =
        rebanada-append (usado - 5 * k) (5 * k) 5 (5 * (k + 1)) usado pila' (omega arith)
          (omega (arith, m.entero))
        ∙ ap (λ x. x ++ rebanada usado 5 pila')
            (rebanada-sobrescribir_antes (usado - 5 * k) (5 * k) usado bs pila
              (omega (arith, m.entero)))
        ∙ ap (λ x. vars ++ x) (rebanada-sobrescribir usado bs pila h) in
      (
        a.0,
        rw (definir_variable, o, a.1, uno, cinco, mas) refl,
        record {
          en_pila = a.2;
          cursor = omega arith;
          lugar = omega (arith, h, length-sobrescribir usado bs pila);
          entero = omega (arith, m.entero);
          sin_repetir =
              rw (p, vars')
                (SinRepetir-append identificador v1 v2 v3 v4 vars q m.sin_repetir nueva);
          nombres = λ id.
              rw
                (
                  p,
                  vars',
                  direccion-append identificador v1 v2 v3 v4
                      (c.pcb.segmento_stack + (usado - 5 * k)) vars id q,
                )
                (unfold obtener_posicion_variable in
                  (dictionary_put-direccion dic c.diccionario_variables
                      (c.pcb.segmento_stack + (usado - 5 * k)) vars identificador
                      (c.pcb.segmento_stack + usado + 1) id m.nombres q nueva
                    ∙ rw fin refl));
        },
      )
