-- ===== src/Umv/Conexiones/Mantiene.antt =====
-- What every operation of the server keeps, a round over a request keeps (umv/sockets/sockets.c).
use tp_sistemas_operativos_u.Base.{
  ℕ, ◌≡◌, refl, ◌∙◌, inl, inr, Option, none, some, Bytes, ◌==◌, ◌>>=◌, arith, Option-cases,
  Bool-cases, some_inj,
}
use mathlib.Core.Path.{subst}
use tp_sistemas_operativos_u.Commons.{ListLib}
use tp_sistemas_operativos_u.Mensajes.{
  AlmacenarBytes, Operacion, num_operacion, Conexion, Pedido, Estructura, tipo_kernel, de_tamanio,
  de_almacenar, de_solicitud, sin_estructura,
}
use tp_sistemas_operativos_u.Umv.{Segmento, Umv}
use tp_sistemas_operativos_u.Umv.Operaciones.{almacenar_bytes, generar_segmento, eliminar_segmentos}
use tp_sistemas_operativos_u.Umv.Conexiones.{Turno, turno_comun, turno_kernel, turno_cpu, despachar}

module _ (lib : ListLib Segmento) where
  cpu_lem :
      (u : Umv) (o : Option Bytes) (c : Conexion) (i : ℕ) (st : Estructura) (t : Turno)
      → turno_cpu lib c (record { id_operacion = i; estructura = st }) (u, o) ≡ some t
      → u ≡ t.0
  unfolding turno_cpu
  cpu_lem u o c i (de_solicitud a) t e = ground arith
  cpu_lem u o c i (de_almacenar a) t e = ground arith
  cpu_lem u o c i (de_tamanio a) t e = ground arith
  cpu_lem u o c i sin_estructura t e = ground arith

-- `P` is kept by the operations that a request with the structure `estructura` of the client `c` may call.
module _ (lib : ListLib Segmento) (P : Umv → Type 0) (c : Conexion) (estructura : Estructura)
    (al_almacenar : (u : Umv) (st : AlmacenarBytes)
      → estructura ≡ de_almacenar st
      → P u
      → P (almacenar_bytes lib u c.id_programa st).0)
    (al_generar : (u : Umv) (n : ℕ) (r : Umv × Bytes)
      → estructura ≡ de_tamanio n
      → P u
      → generar_segmento lib u c.id_programa n ≡ some r
      → P r.0)
    (al_eliminar : (u : Umv) → P u → P (eliminar_segmentos lib u c.id_programa).0) where
  mismo-turno : (u : Umv) (o : Option Bytes) (t : Turno) → P u → some (u, o) ≡ some t → P t.0
  mismo-turno u o t s e = subst (λ (x : Turno). P x.0) (some_inj e) s

  comun_lem :
      (u : Umv) (i : ℕ) (t : Turno)
      → P u
      → turno_comun lib u c (record { id_operacion = i; estructura = estructura }) ≡ some t
      → P t.0
  unfolding turno_comun
  comun_lem u i t s e = elim (Bool-cases (i == num_operacion Operacion.almacenar)) [
    | inl si ↦ almacenado estructura refl (rw si at e)
    | inr otra ↦ elim (Bool-cases (i == num_operacion Operacion.cambio_proceso_activo)) [
      | inl si ↦ mismo-turno u _ t s (rw (otra, si) at e)
      | inr ninguna ↦ mismo-turno u _ t s (rw (otra, ninguna) at e)
    ]
  ]
    where
      almacenado :
          (st : Estructura)
          → estructura ≡ st
          → (elim st as (λ _. Option Turno) [
            | de_almacenar a ↦ some (
              (almacenar_bytes lib u c.id_programa a).0,
              some (almacenar_bytes lib u c.id_programa a).1,
            )
            | _ ↦ none
          ])
            ≡ some t
          → P t.0
      almacenado (de_almacenar a) h q = mismo-turno _ _ t (al_almacenar u a h s) q
      almacenado (de_solicitud a) h q = absurd (ground arith)
      almacenado (de_tamanio a) h q = absurd (ground arith)
      almacenado sin_estructura h q = absurd (ground arith)

  kernel_lem :
      (u : Umv) (o : Option Bytes) (i : ℕ) (t : Turno)
      → P u
      → turno_kernel lib c (record { id_operacion = i; estructura = estructura }) (u, o) ≡ some t
      → P t.0
  unfolding turno_kernel
  kernel_lem u o i t s e = elim (Bool-cases (c.tipo_conexion == tipo_kernel)) [
    | inr otro ↦ mismo-turno u o t s (rw otro at e)
    | inl k ↦ elim (Bool-cases (i == num_operacion Operacion.crear_segmento)) [
      | inl crea ↦ creado estructura refl (rw (k, crea) at e)
      | inr otra ↦ elim (Bool-cases (i == num_operacion Operacion.destruir_segmentos)) [
        | inl si ↦ mismo-turno _ _ t (al_eliminar u s) (rw (k, otra, si) at e)
        | inr ninguna ↦ mismo-turno u o t s (rw (k, otra, ninguna) at e)
      ]
    ]
  ]
    where
      creado :
          (st : Estructura)
          → estructura ≡ st
          → (elim st as (λ _. Option Turno) [
            | de_tamanio n ↦
                (generar_segmento lib u c.id_programa n >>= λ (u', buffer). some (u', some buffer))
            | _ ↦ none
          ])
            ≡ some t
          → P t.0
      creado (de_tamanio n) h q = elim (Option-cases (generar_segmento lib u c.id_programa n)) [
        | inl nada ↦ absurd (ground arith)
        | inr (r, hay) ↦ mismo-turno _ _ t (al_generar u n r h s hay) (rw hay at q)
      ]
      creado (de_solicitud a) h q = absurd (ground arith)
      creado (de_almacenar a) h q = absurd (ground arith)
      creado sin_estructura h q = absurd (ground arith)

  pub despachar-mantiene :
      (u : Umv) (i : ℕ) (r : Umv × Bytes)
      → P u
      → despachar lib u c (record { id_operacion = i; estructura = estructura }) ≡ some r
      → P r.0
  unfolding despachar
  despachar-mantiene u i r s e =
      let p : Pedido = record { id_operacion = i; estructura = estructura } in
      elim (Option-cases (turno_comun lib u c p)) [
        | inl nada ↦ absurd (ground arith)
        | inr (t1, e1) ↦ elim (Option-cases (turno_kernel lib c p t1)) [
          | inl nada ↦ absurd (ground arith)
          | inr (t2, e2) ↦ elim (Option-cases (turno_cpu lib c p t2)) [
            | inl nada ↦ absurd (ground arith)
            | inr (t3, e3) ↦
                let s1 = comun_lem u i t1 s e1 in
                let s2 = kernel_lem t1.0 t1.1 i t2 s1 e2 in
                let q = cpu_lem lib t2.0 t2.1 c i estructura t3 e3 in
                let final : t3.0 ≡ r.0 = ground arith in subst P (q ∙ final) s2
          ]
        ]
      ]
