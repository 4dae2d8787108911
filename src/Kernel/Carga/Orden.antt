-- ===== src/Kernel/Carga/Orden.antt =====
-- `aceptar_programa`: the list of the new programs, by their weights.
use tp_sistemas_operativos_u.Kernel.Sistema.Sumas.{suma, suma-Perm}
use tp_sistemas_operativos_u.Base.{
  refl, ◌≤◌, ◌<◌, ◌+◌, ◌*◌, ◌∙◌, if◌then◌else◌, ltb, All, ℕ, ◌≡◌, sym, true, false, List, [], ◌∷◌,
  ◌++◌, append-nil, arith,
}
use mathlib.Core.List.{Perm, perm_middle}
use mathlib.Core.List.Perm
use mathlib.Core.Path.{subst}
use tp_sistemas_operativos_u.Commons.{ListLib, SortLib, EnOrden}
use tp_sistemas_operativos_u.Kernel.{Kernel, Prog}
use tp_sistemas_operativos_u.Kernel.Planificador.Invariante.{IsKernel}
use tp_sistemas_operativos_u.Kernel.Carga.{
  NuevoProg, calcular_peso, menor_o_igual_int, ordenador, aceptar_programa,
}

ordenador_total : (x y : Prog) → ordenador x y ≡ false → ordenador y x ≡ true
unfolding ordenador menor_o_igual_int
ordenador_total x y h = ground (arith, h)

ordenador_trans :
    (x y z : Prog) → ordenador x y ≡ true → ordenador y z ≡ true → ordenador x z ≡ true
unfolding ordenador menor_o_igual_int
ordenador_trans x y z g h = ground (arith, g, h)

-- A weight that is not negative as an `int`.
abbrev pub EsPositivo : Prog → Type 0
EsPositivo x = x.peso < 2147483648

ordenador-peso : (x y : Prog) → EsPositivo x → EsPositivo y → ordenador x y ≡ true → x.peso ≤ y.peso
unfolding ordenador menor_o_igual_int
ordenador-peso x y a b h = ground (arith, a, b, h)

-- Each program weighs at most what the next one does.
unfoldable pub Ascendente : List Prog → Type 0
Ascendente (x ∷ (y ∷ ys)) = (x.peso ≤ y.peso) × Ascendente (y ∷ ys)
Ascendente _ = Unit

EnOrden-Ascendente : (xs : List Prog) → All EsPositivo xs → EnOrden ordenador xs → Ascendente xs
unfolding EnOrden Ascendente
EnOrden-Ascendente [] a o = tt
EnOrden-Ascendente (x ∷ []) a o = tt
EnOrden-Ascendente (x ∷ (y ∷ ys)) a o =
    (ordenador-peso x y a.0 a.1.0 o.0, EnOrden-Ascendente (y ∷ ys) a.1 o.1)

-- 0 for a weight that is not negative: their sum carries the property over to another order.
falta : Prog → ℕ
falta x = if ltb x.peso 2147483648 then 0 else 1

All-falta : (xs : List Prog) → All EsPositivo xs → suma falta xs ≡ 0
unfolding suma falta
All-falta [] a = refl
All-falta (x ∷ xs) a = ground (arith, a.0, All-falta xs a.1)

falta-All : (xs : List Prog) → suma falta xs ≡ 0 → All EsPositivo xs
unfolding suma falta
falta-All [] e = tt
falta-All (x ∷ xs) e = (ground (arith, e), falta-All xs (ground (arith, e)))

append-uno : {A : Type 0} (xs : List A) (x : A) → Perm (xs ++ x ∷ []) (x ∷ xs)
append-uno xs x = subst (λ y. Perm (xs ++ x ∷ []) (x ∷ y)) (append-nil xs) (perm_middle xs [])

module _ (lib : (A : Type 0) → ListLib A) (sort : SortLib Prog) where
  -- An accepted program joins the new ones, in the order of the code, and the queues are kept.
  pub aceptar_programa-EnOrden :
      (n : ℕ) (k : Kernel) (p : NuevoProg)
      → IsKernel n k
      → EnOrden ordenador (aceptar_programa lib sort k p).new_procesos
        × Perm (aceptar_programa lib sort k p).new_procesos (
            record { peso = calcular_peso p (k.programas p.programa).pcb; programa = p.programa }
            ∷ k.new_procesos)
        × IsKernel n (aceptar_programa lib sort k p)
  unfolding aceptar_programa
  aceptar_programa-EnOrden n k p i =
      let prog : Prog = record {
        peso = calcular_peso p (k.programas p.programa).pcb;
        programa = p.programa;
      } in
      (
        sort.list_sort-EnOrden ordenador _ ordenador_total ordenador_trans,
        Perm.trans (sort.list_sort-Perm ordenador ((lib Prog).list_add k.new_procesos prog)) (
            subst (λ x. Perm x (prog ∷ k.new_procesos))
              (sym ((lib Prog).list_add_lem k.new_procesos prog)) (append-uno k.new_procesos prog)),
        record {
          listos = i.listos;
          salidas = i.salidas;
          semaforos = i.semaforos;
          dispositivos = i.dispositivos;
          nivel = i.nivel;
        },
      )

  -- Where the weights are not negative as an `int`, the new one being five for each label, three for
  -- each function and the size of the index together: an accepted program is among the new ones with
  -- that weight, the others are the same as before, none weighs more than the one behind it, and the
  -- invariant of the queues is kept.
  pub aceptar_programa-Ascendente :
      (n : ℕ) (k : Kernel) (p : NuevoProg) (peso : ℕ)
      → IsKernel n k
      → All EsPositivo k.new_procesos
      → let pcb = (k.programas p.programa).pcb in
        peso ≡ 5 * pcb.cantidad_de_etiquetas + 3 * pcb.cantidad_de_funciones + p.instrucciones_size
        → peso < 2147483648
        → Ascendente (aceptar_programa lib sort k p).new_procesos
          × Perm
              (aceptar_programa lib sort k p).new_procesos
              (record { peso = peso; programa = p.programa } ∷ k.new_procesos)
          × IsKernel n (aceptar_programa lib sort k p)
  aceptar_programa-Ascendente n k p peso i todos es menor =
      let a = aceptar_programa-EnOrden n k p i in
      let l = (aceptar_programa lib sort k p).new_procesos in
      let c : calcular_peso p (k.programas p.programa).pcb ≡ peso =
        unfold calcular_peso in omega (arith, es, menor) in
      let q : Perm l (record { peso = peso; programa = p.programa } ∷ k.new_procesos) =
        subst (λ (w : ℕ). Perm l (record { peso = w; programa = p.programa } ∷ k.new_procesos)) c
          a.1 in
      let z : suma falta l ≡ 0 =
        suma-Perm falta l (record { peso = peso; programa = p.programa } ∷ k.new_procesos) q
        ∙ All-falta (record { peso = peso; programa = p.programa } ∷ k.new_procesos)
            (menor, todos) in
      (EnOrden-Ascendente l (falta-All l z) a.0, q, a.2)
