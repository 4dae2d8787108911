-- ===== src/Kernel/Sistema/Cargada.antt =====
-- The loader (plp/PlanificadorPLP.c) and the number of its program.
use tp_sistemas_operativos_u.Base.{
  SiSale, SiSale->>=, SiSale-if, siempre, sale, ℕ, ◌≡◌, refl, ◌==◌, Bool, true, false, Option, none,
  some, List, [], ◌∷◌,
}
use mathlib.Core.Path.{subst}
use tp_sistemas_operativos_u.Commons.{ListLib}
use tp_sistemas_operativos_u.Mensajes.{
  Conexion, Respuesta, Contenido, de_puntero, de_buffer, sin_contenido,
}
use tp_sistemas_operativos_u.Mensajes.Pedidos.{crear_segmento, cambio_proceso_activo}
use tp_sistemas_operativos_u.Protocolo.{Pcb}
use tp_sistemas_operativos_u.Umv.{Segmento, Umv}
use tp_sistemas_operativos_u.Umv.Conexiones.Cliente.{pedir}
use tp_sistemas_operativos_u.Kernel.Carga.{
  NuevoProg, Parte, tamanio_de, poner_base, saludar, guardar_parte, cargar_parte, cargar_partes,
  conectar_umv, de_codigo, de_indice, de_etiquetas, de_pila,
}

si_es_puntero :
    {A : Type 0} (P : A → Type 0) (e : Contenido) (f : ℕ → Option A)
    → ((base : ℕ) → SiSale P (f base))
    → SiSale P (elim e [ de_puntero base ↦ f base | _ ↦ none ])
unfolding SiSale
si_es_puntero P sin_contenido f h = tt
si_es_puntero P (de_puntero base) f h = h base
si_es_puntero P (de_buffer b) f h = tt

si_sigue :
    {A : Type 0} (P : A → Type 0) (b : Bool) (x y : Option A)
    → SiSale P x
    → SiSale P y
    → SiSale P (elim b [ true ↦ x | false ↦ y ])
si_sigue P true x y h g = h
si_sigue P false x y h g = g

poner_base-pid : (pcb : Pcb) (parte : Parte) (base : ℕ) → (poner_base pcb parte base).pid ≡ pcb.pid
unfolding poner_base
poner_base-pid pcb de_codigo base = refl
poner_base-pid pcb de_indice base = refl
poner_base-pid pcb de_etiquetas base = refl
poner_base-pid pcb de_pila base = refl

module _ (lib : ListLib Segmento) where
  cargar_parte-pid :
      (u : Umv) (c : Conexion) (p : NuevoProg) (stack : ℕ) (pcb : Pcb) (parte : Parte)
      → SiSale
          (λ (r : Umv × Conexion × Pcb × Bool). r.2.pid ≡ pcb.pid)
          (cargar_parte lib u c p stack pcb parte)
  unfolding cargar_parte
  cargar_parte-pid u c p stack pcb parte =
      let P = λ (r : Umv × Conexion × Pcb × Bool). r.2.pid ≡ pcb.pid in
      SiSale-if P (tamanio_de p pcb stack parte == 0) _ _ (sale P _ refl) (
        SiSale->>= {A = Umv × Conexion × Respuesta} (λ x. Unit) P
          (pedir lib u c (crear_segmento (tamanio_de p pcb stack parte))) _ (siempre _)
          (λ x h. SiSale-if P _ _ _ (sale P _ refl) (
            si_es_puntero P x.2.estructura _ (λ base.
              SiSale->>= (λ (y : Umv × Conexion). Unit) P
                (guardar_parte lib x.0 x.1 p parte (tamanio_de p pcb stack parte) base)
                (λ y. some (y.0, y.1, poner_base pcb parte base, true)) (siempre _)
                (λ y g.
                  sale P (y.0, y.1, poner_base pcb parte base, true)
                    (poner_base-pid pcb parte base))))))

  cargar_partes-pid :
      (u : Umv) (c : Conexion) (p : NuevoProg) (stack : ℕ) (pcb : Pcb) (partes : List Parte)
      → SiSale
          (λ (r : Umv × Pcb × Bool). r.1.pid ≡ pcb.pid)
          (cargar_partes lib u c p stack pcb partes)
  unfolding cargar_partes
  cargar_partes-pid u c p stack pcb [] =
      sale (λ (r : Umv × Pcb × Bool). r.1.pid ≡ pcb.pid) (u, pcb, true) refl
  cargar_partes-pid u c p stack pcb (parte ∷ partes) =
      SiSale->>= (λ (r : Umv × Conexion × Pcb × Bool). r.2.pid ≡ pcb.pid)
        (λ (r : Umv × Pcb × Bool). r.1.pid ≡ pcb.pid) (cargar_parte lib u c p stack pcb parte) _
        (cargar_parte-pid u c p stack pcb parte)
        (λ r e.
          si_sigue (λ (r : Umv × Pcb × Bool). r.1.pid ≡ pcb.pid) r.3
            (cargar_partes lib r.0 r.1 p stack r.2 partes) (some (r.0, r.2, false))
            (subst
              (λ n.
                SiSale (λ (r : Umv × Pcb × Bool). r.1.pid ≡ n)
                  (cargar_partes lib r.0 r.1 p stack r.2 partes))
              e (cargar_partes-pid r.0 r.1 p stack r.2 partes))
            (sale (λ (r : Umv × Pcb × Bool). r.1.pid ≡ pcb.pid) (r.0, r.2, false) e))

  -- The PCB that the loader leaves has the number it came with.
  pub conectar_umv-pid :
      (u : Umv) (nueva : Conexion) (p : NuevoProg) (stack : ℕ) (pcb : Pcb)
      → SiSale (λ (r : Umv × Pcb × Bool). r.1.pid ≡ pcb.pid) (conectar_umv lib u nueva p stack pcb)
  unfolding conectar_umv
  conectar_umv-pid u nueva p stack pcb =
      let P = λ (r : Umv × Pcb × Bool). r.1.pid ≡ pcb.pid in
      SiSale->>= (λ x. Unit) P (saludar u nueva) _ (siempre _)
        (λ c h.
          SiSale->>= (λ x. Unit) P (pedir lib u c (cambio_proceso_activo pcb.pid)) _ (siempre _)
            (λ x g. cargar_partes-pid x.0 x.1 p stack pcb _))
