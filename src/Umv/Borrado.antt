-- ===== src/Umv/Borrado.antt =====
-- `eliminarSegmentos` of umv/umvMain.c and the views that are left.
use tp_sistemas_operativos_u.Base.{
  ℕ, zero, suc, ◌+◌, ◌≤◌, ◌≡◌, refl, ap, ◌∙◌, List, [], ◌∷◌, some, Bool, true, false, ◌==◌, arith,
  length, any, erase_first, reject, Bool-cases, inl, inr,
}
use tp_sistemas_operativos_u.Commons.{ListLib}
use tp_sistemas_operativos_u.Memoria.{Memoria}
use tp_sistemas_operativos_u.Mensajes.{sin_contenido}
use tp_sistemas_operativos_u.Mensajes.Respuestas.{ok, umv_deserializar}
use tp_sistemas_operativos_u.Mensajes.Respuestas.Vuelta.{umv_deserializar-serializar_respuesta}
use tp_sistemas_operativos_u.Umv.{Segmento, Umv, Ordenados, IsValid, Vista, vistas_de, vistas}
use tp_sistemas_operativos_u.Umv.Compactacion.Correcta.{Ordenados-mono}
use tp_sistemas_operativos_u.Umv.Operaciones.{es_de_programa, bucle_eliminar, eliminar_segmentos}

module _ {A : Type 0} (p : A → Bool) where
  reject-erase_first : (xs : List A) → reject p (erase_first p xs) ≡ reject p xs
  reject-erase_first [] = refl
  reject-erase_first (x ∷ xs) = ground (arith, reject-erase_first xs)

  reject_none : (xs : List A) → any p xs ≡ false → reject p xs ≡ xs
  reject_none [] h = refl
  reject_none (x ∷ xs) h = ground (arith, reject_none xs)

  length-erase_first : (xs : List A) → any p xs ≡ true → suc (length (erase_first p xs)) ≡ length xs
  length-erase_first [] h = absurd (ground arith)
  length-erase_first (x ∷ xs) h = ground (arith, length-erase_first xs)

abbrev pub es_vista_de : ℕ → Vista → Bool
es_vista_de id_programa v = v.id_programa == id_programa

vistas-reject :
    (m : Memoria) (id : ℕ) (ss : List Segmento)
    → vistas_de m (reject (es_de_programa id) ss) ≡ reject (es_vista_de id) (vistas_de m ss)
vistas-reject m id [] = refl
vistas-reject m id (s ∷ ss) = ground (arith, vistas-reject m id ss)

reject-Ordenados :
    (id p fin : ℕ) (ss : List Segmento)
    → Ordenados p fin ss
    → Ordenados p fin (reject (es_de_programa id) ss)
reject-Ordenados id p fin [] o = o
reject-Ordenados id p fin (s ∷ ss) o =
    let r = reject-Ordenados id (s.dir_fisica + s.tamanio) fin ss o.2 in
    elim (Bool-cases (es_de_programa id s)) [
      | inl suyo ↦ rw suyo (Ordenados-mono (s.dir_fisica + s.tamanio) p fin _ (omega arith) r)
      | inr ajeno ↦ rw ajeno (o.0, o.1, r)
    ]

module _ (lib : ListLib Segmento) where
  -- With as much fuel as segments the loop ends by its test.
  bucle_eliminar-reject :
      (fuel id : ℕ) (ss : List Segmento)
      → length ss ≤ fuel
      → bucle_eliminar lib fuel id ss ≡ reject (es_de_programa id) ss
  unfolding bucle_eliminar
  bucle_eliminar-reject zero id [] h = refl
  bucle_eliminar-reject zero id (s ∷ ss) h = absurd (omega arith)
  bucle_eliminar-reject (suc fuel) id ss h = elim (Bool-cases (any (es_de_programa id) ss)) [
    | inl hay ↦ ground (
      arith,
      lib.list_any_satisfy_lem (es_de_programa id) ss,
      lib.list_remove_and_destroy_by_condition_lem (es_de_programa id) ss,
      reject-erase_first (es_de_programa id) ss,
      bucle_eliminar-reject fuel id (erase_first (es_de_programa id) ss)
          (omega (arith, length-erase_first (es_de_programa id) ss hay)),
    )
    | inr nada ↦ ground (
      arith,
      lib.list_any_satisfy_lem (es_de_programa id) ss,
      reject_none (es_de_programa id) ss nada,
    )
  ]

  -- In a valid state the views that are left are those of the other programs, in their order and as
  -- they were; the answer is OK, and the state stays valid.
  pub eliminar_segmentos-reject :
      (u : Umv) (id : ℕ)
      → IsValid u
      → (vistas (eliminar_segmentos lib u id).0 ≡ reject (es_vista_de id) (vistas u))
        × (umv_deserializar (eliminar_segmentos lib u id).1
            ≡ some (record { id_operacion = 0; estructura = sin_contenido }))
        × IsValid (eliminar_segmentos lib u id).0
  unfolding eliminar_segmentos
  eliminar_segmentos-reject u id v =
      let b = bucle_eliminar-reject (length u.segmentos) id u.segmentos (omega arith) in
      (
        ap (vistas_de u.memoria) b ∙ vistas-reject u.memoria id u.segmentos,
        umv_deserializar-serializar_respuesta u.memoria ok tt,
        record {
          no_nulo = v.no_nulo;
          cabe = v.cabe;
          con_signo = v.con_signo;
          ordenados = rw b (reject-Ordenados id _ _ u.segmentos v.ordenados);
        },
      )
