-- ===== src/Kernel/Sistema/Valores.antt =====
-- `inicializador` of kernel/src/kernelMain.c: the names and values of the configuration, as the threads
-- of the kernel find them.
use tp_sistemas_operativos_u.Base.{
  ℕ, suc, ◌≡◌, ◌≢◌, ◌≤◌, ◌<◌, refl, sym, ap, ◌∙◌, ◌==◌, if◌then◌else◌, true, false, none, some,
  List, [], ◌∷◌, length, take, Bytes, All, arith, some_inj, inl, inr, Option-cases,
}
use mathlib.Core.List.{map}
use mathlib.Core.Option.{none-ne-some}
use tp_sistemas_operativos_u.Commons.{DictLib}
use tp_sistemas_operativos_u.Kernel.{Kernel, Programa, Semaforo, Dispositivo, ℤ}
use tp_sistemas_operativos_u.Kernel.Planificador.{obtener_variable}
use tp_sistemas_operativos_u.Kernel.Sistema.{arranque}
use tp_sistemas_operativos_u.Kernel.Configuracion.{
  Configuracion, bits, crear_dispositivos, crear_semaforos, crear_variables, inicializador,
}
use tp_sistemas_operativos_u.Kernel.Sistema.Invariante.{EsSistema}
use tp_sistemas_operativos_u.Kernel.Sistema.Inicio.{
  EsCorto, strcpy_20-EsCorto, EsConfiguracion, inicializador-EsSistema,
}

-- No name stands twice.
unfoldable pub Distintos : List Bytes → Type 0
Distintos [] = Unit
Distintos (x ∷ xs) = All (λ y. y ≢ x) xs × Distintos xs

-- The first of the values, one for each name.
abbrev pub valores_de : {A : Type 0} → (Bytes → A) → (nombres valores : List Bytes) → List A
valores_de f nombres valores = take (length nombres) (map f valores)

module _ (atoi : Bytes → ℤ) where
  crear_dispositivos-valores :
      (ds rs : List Bytes) (l : List Dispositivo)
      → All EsCorto ds
      → length ds ≤ length rs
      → crear_dispositivos atoi ds rs ≡ some l
      → (map (λ d. d.sz_dispositivo) l ≡ ds)
        × (map (λ d. d.i_retardo) l ≡ valores_de (λ v. bits (atoi v)) ds rs)
  unfolding crear_dispositivos
  crear_dispositivos-valores [] rs l h g e = (
    ap (map (λ d. d.sz_dispositivo)) (sym (some_inj e)),
    ap (map (λ d. d.i_retardo)) (sym (some_inj e)),
  )
  crear_dispositivos-valores (d ∷ ds) [] l h g e = absurd (omega (arith, g))
  crear_dispositivos-valores (d ∷ ds) (r ∷ rs) l h g e =
      elim (Option-cases (crear_dispositivos atoi ds rs)) [
        | inl nada ↦
            absurd (
              none-ne-some l
                (sym (rw (crear_dispositivos, strcpy_20-EsCorto d h.0, nada) refl) ∙ e))
        | inr (o, hay) ↦
            let uno : Dispositivo = record {
              sz_dispositivo = d;
              i_retardo = bits (atoi r);
              semaforo = 0;
              prog_encolados = [];
            } in
            let f : crear_dispositivos atoi (d ∷ ds) (r ∷ rs) ≡ some (uno ∷ o) =
              rw (crear_dispositivos, strcpy_20-EsCorto d h.0, hay) refl in
            let x = sym (some_inj (sym f ∙ e)) in
            let y = crear_dispositivos-valores ds rs o h.1 (omega (arith, g)) hay in
            (
              ap (map (λ d. d.sz_dispositivo)) x ∙ ap (◌∷◌ d) y.0,
              ap (map (λ d. d.i_retardo)) x ∙ ap (◌∷◌ (bits (atoi r))) y.1,
            )
      ]

  crear_semaforos-valores :
      (ss vs : List Bytes) (l : List Semaforo)
      → All EsCorto ss
      → length ss ≤ length vs
      → crear_semaforos atoi ss vs ≡ some l
      → (map (λ s. s.sz_semaforo) l ≡ ss) × (map (λ s. s.i_semaforo) l ≡ valores_de atoi ss vs)
  unfolding crear_semaforos
  crear_semaforos-valores [] vs l h g e = (
    ap (map (λ s. s.sz_semaforo)) (sym (some_inj e)),
    ap (map (λ s. s.i_semaforo)) (sym (some_inj e)),
  )
  crear_semaforos-valores (s ∷ ss) [] l h g e = absurd (omega (arith, g))
  crear_semaforos-valores (s ∷ ss) (v ∷ vs) l h g e =
      elim (Option-cases (crear_semaforos atoi ss vs)) [
        | inl nada ↦
            absurd
              (none-ne-some l (sym (rw (crear_semaforos, strcpy_20-EsCorto s h.0, nada) refl) ∙ e))
        | inr (o, hay) ↦
            let uno : Semaforo = record {
              sz_semaforo = s;
              i_semaforo = atoi v;
              prog_encolados = [];
            } in
            let f : crear_semaforos atoi (s ∷ ss) (v ∷ vs) ≡ some (uno ∷ o) =
              rw (crear_semaforos, strcpy_20-EsCorto s h.0, hay) refl in
            let x = sym (some_inj (sym f ∙ e)) in
            let y = crear_semaforos-valores ss vs o h.1 (omega (arith, g)) hay in
            (
              ap (map (λ s. s.sz_semaforo)) x ∙ ap (◌∷◌ s) y.0,
              ap (map (λ s. s.i_semaforo)) x ∙ ap (◌∷◌ (atoi v)) y.1,
            )
      ]

module _ {D : Type 0} (dict : DictLib D) (atoi : Bytes → ℤ) where
  -- A name that does not come again keeps its entry, an address in front of the next one its value.
  crear_variables-otra :
      (i : ℕ) (xs vs : List Bytes) (d : D) (valores : ℕ → ℕ) (r : D × (ℕ → ℕ)) (x : Bytes) (w : ℕ)
      → crear_variables dict atoi i xs vs d valores ≡ some r
      → All (λ y. y ≢ x) xs
      → w < i
      → (dict.dictionary_get r.0 x ≡ dict.dictionary_get d x) × (r.1 w ≡ valores w)
  unfolding crear_variables
  crear_variables-otra i [] vs d valores r x w e a h = (
    ap (λ (z : D × (ℕ → ℕ)). dict.dictionary_get z.0 x) (sym (some_inj e)),
    ap (λ (z : D × (ℕ → ℕ)). z.1 w) (sym (some_inj e)),
  )
  crear_variables-otra i (y ∷ xs) [] d valores r x w e a h = absurd (ground (arith, e))
  crear_variables-otra i (y ∷ xs) (v ∷ vs) d valores r x w e a h =
      let o =
        crear_variables-otra (suc i) xs vs (dict.dictionary_put d y i)
          (λ u. if u == i then bits (atoi v) else valores u) r x w e a.1 (omega (arith, h)) in
      let otro : (w == i) ≡ false = ground (arith, h) in
      (o.0 ∙ dict.dictionary_put_other d y x i (λ m. a.0 (sym m)), o.1 ∙ (rw otro refl))

  -- Another name has no entry after a new one has been put in.
  sin_entrada :
      (d : D) (x : Bytes) (i : ℕ) (xs : List Bytes)
      → All (λ y. y ≢ x) xs
      → All (λ y. dict.dictionary_get d y ≡ none) xs
      → All (λ y. dict.dictionary_get (dict.dictionary_put d x i) y ≡ none) xs
  sin_entrada d x i [] a h = tt
  sin_entrada d x i (y ∷ ys) a h =
      (dict.dictionary_put_other d x y i a.0 ∙ h.0, sin_entrada d x i ys a.1 h.1)

  -- What `obtenerVariable` then reads under each name.
  crear_variables-valores :
      (i : ℕ) (xs vs : List Bytes) (d : D) (valores : ℕ → ℕ) (r : D × (ℕ → ℕ)) (k : Kernel)
      → crear_variables dict atoi i xs vs d valores ≡ some r
      → k.valores ≡ r.1
      → Distintos xs
      → All (λ x. dict.dictionary_get d x ≡ none) xs
      → map (obtener_variable (dict.dictionary_get r.0) k) xs
        ≡ valores_de (λ v. some (bits (atoi v))) xs vs
  unfolding crear_variables Distintos obtener_variable
  crear_variables-valores i [] vs d valores r k e f n h = refl
  crear_variables-valores i (x ∷ xs) [] d valores r k e f n h = absurd (ground (arith, e))
  crear_variables-valores i (x ∷ xs) (v ∷ vs) d valores r k e f n h =
      let d' = dict.dictionary_put d x i in
      let valores' = λ (w : ℕ). if w == i then bits (atoi v) else valores w in
      let o = crear_variables-otra (suc i) xs vs d' valores' r x i e n.0 (omega arith) in
      let igual : (i == i) ≡ true = ground arith in
      let a : dict.dictionary_get r.0 x ≡ some i = o.0 ∙ dict.dictionary_put_same d x i h.0 in
      let b : k.valores i ≡ bits (atoi v) = ap (λ (g : ℕ → ℕ). g i) f ∙ o.1 ∙ (rw igual refl) in
      let y : obtener_variable (dict.dictionary_get r.0) k x ≡ some (bits (atoi v)) =
        rw (obtener_variable, a, b) refl in
      let z =
        crear_variables-valores (suc i) xs vs d' valores' r k e f n.1
          (sin_entrada d x i xs n.0 h.1) in
      rw y (ap (◌∷◌ (some (bits (atoi v)))) z)

  todas :
      (d : D) (xs : List Bytes)
      → ((x : Bytes) → dict.dictionary_get d x ≡ none)
      → All (λ x. dict.dictionary_get d x ≡ none) xs
  todas d [] h = tt
  todas d (x ∷ xs) h = (h x, todas d xs h)

  -- A state of the kernel is made of what the three loops leave.
  inicializador-partes :
      (vacio : D) (c : Configuracion) (programas : ℕ → Programa) (r : Kernel × D)
      → inicializador dict atoi vacio c programas ≡ some r
      → (crear_dispositivos atoi c.id_hio c.hio ≡ some r.0.list_dispos)
        × (crear_semaforos atoi c.semaforos c.valor_semaforo ≡ some r.0.list_smfrs)
        × (crear_variables dict atoi 0 c.id_variable c.variable vacio (λ w. 0)
            ≡ some (r.1, r.0.valores))
  unfolding inicializador
  inicializador-partes vacio c programas r e =
      elim (Option-cases (crear_dispositivos atoi c.id_hio c.hio)) [
        | inl nada ↦ absurd (none-ne-some r (sym (rw (inicializador, nada) refl) ∙ e))
        | inr (ds, a) ↦ elim (Option-cases (crear_semaforos atoi c.semaforos c.valor_semaforo)) [
          | inl nada ↦ absurd (none-ne-some r (sym (rw (inicializador, a, nada) refl) ∙ e))
          | inr (ss, b) ↦
              elim (Option-cases
                (crear_variables dict atoi 0 c.id_variable c.variable vacio (λ w. 0))) [
                  | inl nada ↦
                      absurd (none-ne-some r (sym (rw (inicializador, a, b, nada) refl) ∙ e))
                  | inr (vs, f) ↦
                      let x = some_inj (rw (a, b, f) at e) in
                      (
                        a ∙ ap (λ (z : Kernel × D). some z.0.list_dispos) x,
                        b ∙ ap (λ (z : Kernel × D). some z.0.list_smfrs) x,
                        f ∙ ap (λ (z : Kernel × D). some (z.1, z.0.valores)) x,
                      )
                ]
        ]
      ]

  -- Where every name fits into its field and has a value, no semaphore starts below 0, no shared
  -- variable is named twice and the dictionary is empty: the configuration gives a state, from which
  -- `main` starts with the invariant of the system, at the configured level of multiprogramming; the
  -- devices and the semaphores are the configured ones in their order, each with its delay or its
  -- value; and under the name of each shared variable the kernel reads its configured value.
  pub inicializador-valores :
      (vacio : D) (c : Configuracion) (programas : ℕ → Programa)
      → EsConfiguracion atoi c
      → Distintos c.id_variable
      → ((x : Bytes) → dict.dictionary_get vacio x ≡ none)
      → (r : Kernel × D) × (inicializador dict atoi vacio c programas ≡ some r)
        × EsSistema c.multiprogramacion (arranque r.0)
        × (map (λ d. d.sz_dispositivo) r.0.list_dispos ≡ c.id_hio)
        × (map (λ d. d.i_retardo) r.0.list_dispos ≡ valores_de (λ v. bits (atoi v)) c.id_hio c.hio)
        × (map (λ s. s.sz_semaforo) r.0.list_smfrs ≡ c.semaforos)
        × (map (λ s. s.i_semaforo) r.0.list_smfrs ≡ valores_de atoi c.semaforos c.valor_semaforo)
        × (map (obtener_variable (dict.dictionary_get r.1) r.0) c.id_variable
            ≡ valores_de (λ v. some (bits (atoi v))) c.id_variable c.variable)
  inicializador-valores vacio c programas h n nada =
      let s = inicializador-EsSistema dict atoi vacio c programas h in
      let p = inicializador-partes vacio c programas s.0 s.1 in
      let ds =
        crear_dispositivos-valores atoi c.id_hio c.hio s.0.0.list_dispos h.dispositivos h.retardos
          p.0 in
      let ss =
        crear_semaforos-valores atoi c.semaforos c.valor_semaforo s.0.0.list_smfrs h.semaforos
          h.valores p.1 in
      (
        s.0,
        s.1,
        s.2,
        ds.0,
        ds.1,
        ss.0,
        ss.1,
        crear_variables-valores 0 c.id_variable c.variable vacio (λ w. 0) (s.0.1, s.0.0.valores)
            s.0.0 p.2 refl n (todas vacio c.id_variable nada),
      )
