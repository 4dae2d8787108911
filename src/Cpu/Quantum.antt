-- ===== src/Cpu/Quantum.antt =====
-- The burst as so many lines of the program, one after the other.
use tp_sistemas_operativos_u.Base.{
  ℕ, zero, suc, ◌-◌, ◌≤◌, ◌<◌, ◌≡◌, refl, sym, ap, ◌∙◌, ◌==◌, not, ◌||◌, Bool, true, false,
  Bool-cases, inl, inr, ◌⊎◌, ◌>>=◌, Option, some, Option-cases, arith, Bytes,
}
use mathlib.Core.Option.{some-injective, none-ne-some}
use tp_sistemas_operativos_u.Commons.{ListLib}
use tp_sistemas_operativos_u.Umv.{Segmento}
use tp_sistemas_operativos_u.Cpu.{Cpu, rafaga_fin_rafaga}
use tp_sistemas_operativos_u.Cpu.Nucleo.{con_estado}
use tp_sistemas_operativos_u.Cpu.Rafaga.{
  puede_seguir_ejecutando, ejecutar_linea, ejecutar_desde, ejecutar_rafaga,
}

unfoldable pub iterar : {A : Type 0} → (A → Option A) → ℕ → A → Option A
iterar f zero a = some a
iterar f (suc n) a = do b ← f a; iterar f n b

-- The program has ended or failed, or has been blocked.
unfoldable pub detenida : (estado_rafaga : ℕ) → Bool
detenida estado = (estado == 8) || ((estado == 4) || ((estado == 9) || (estado == 11)))

-- `r` is what `n` lines from `c` make, at most `tope`; only the last of them stops the program, or
-- they are `tope` of them.
pub record Lineas {D : Type 0} (paso : Cpu D → Option (Cpu D)) (c : Cpu D) (tope : ℕ)
    (r : Option (Cpu D)) : Type 0 where
  pub n : ℕ
  pub a_lo_sumo : n ≤ tope
  pub son : r ≡ iterar paso n c
  pub siguen :
      (m : ℕ) (d : Cpu D) → m < n → iterar paso m c ≡ some d → detenida d.estado_rafaga ≡ false
  pub paran :
      (d : Cpu D) → iterar paso n c ≡ some d → (n ≡ tope) ⊎ (detenida d.estado_rafaga ≡ true)

puede_seguir_lem :
    {D : Type 0} (c : Cpu D) (quantum i : ℕ)
    → i < quantum
    → puede_seguir_ejecutando c quantum i ≡ not (detenida c.estado_rafaga)
unfolding puede_seguir_ejecutando detenida
puede_seguir_lem c quantum i h = ground arith

siguen_suc :
    {D : Type 0} (paso : Cpu D → Option (Cpu D)) (c : Cpu D) (n : ℕ)
    → detenida c.estado_rafaga ≡ false
    → ((m : ℕ) (d : Cpu D)
        → m < n
        → iterar paso (suc m) c ≡ some d
        → detenida d.estado_rafaga ≡ false)
    → (m : ℕ) (d : Cpu D) → m < suc n
    → iterar paso m c ≡ some d
    → detenida d.estado_rafaga ≡ false
unfolding iterar
siguen_suc paso c n s h zero d l e =
    ap (λ (x : Cpu _). detenida x.estado_rafaga) (sym (some-injective _ _ e)) ∙ s
siguen_suc paso c n s h (suc m) d l e = h m d (omega arith) e

module _ (lib : ListLib Segmento) {D : Type 0}
    (analizador_linea : Bytes → Cpu D → Option (Cpu D)) where
  desde-Lineas :
      (quantum quedan : ℕ) (c : Cpu D)
      → quedan ≤ quantum
      → Lineas
          (ejecutar_linea lib analizador_linea)
          c
          quedan
          (ejecutar_desde lib analizador_linea quantum quedan c)
  unfolding ejecutar_desde iterar
  desde-Lineas quantum zero c h = record {
    n = zero;
    a_lo_sumo = omega arith;
    son = refl;
    siguen = λ m d l e. absurd (omega arith);
    paran = λ d e. inl refl;
  }
  desde-Lineas quantum (suc quedan) c h =
      let paso = ejecutar_linea lib analizador_linea in
      let ps = puede_seguir_lem c quantum (quantum - suc quedan) (omega (arith, h)) in
      elim (Bool-cases (detenida c.estado_rafaga)) [
        | inl si ↦
            let no_sigue : puede_seguir_ejecutando c quantum (quantum - suc quedan) ≡ false =
              ps ∙ ap not si in
            record {
              n = zero;
              a_lo_sumo = omega arith;
              son = rw (ejecutar_desde, no_sigue) refl;
              siguen = λ m d l e. absurd (omega arith);
              paran = λ d e.
                  inr (
                    ap (λ (x : Cpu D). detenida x.estado_rafaga) (sym (some-injective _ _ e)) ∙ si);
            }
        | inr sigue ↦
            let si_sigue : puede_seguir_ejecutando c quantum (quantum - suc quedan) ≡ true =
              ps ∙ ap not sigue in
            elim (Option-cases (paso c)) [
              | inl falla ↦ record {
                n = suc zero;
                a_lo_sumo = omega arith;
                son = rw (ejecutar_desde, si_sigue, falla) refl;
                siguen = siguen_suc paso c zero sigue (λ m d l e. absurd (omega arith));
                paran = λ d e. absurd (none-ne-some _ (sym (rw falla refl) ∙ e));
              }
              | inr (c', va) ↦
                  let r = desde-Lineas quantum quedan c' (omega (arith, h)) in
                  record {
                    n = suc r.n;
                    a_lo_sumo = omega (arith, r.a_lo_sumo);
                    son = rw (ejecutar_desde, si_sigue, va) r.son;
                    siguen =
                        siguen_suc paso c r.n sigue
                          (λ m d l e. r.siguen m d l (sym (rw va refl) ∙ e));
                    paran = λ d e. elim (r.paran d (sym (rw va refl) ∙ e)) [
                      | inl todas ↦ inl (ap suc todas)
                      | inr para ↦ inr para
                    ];
                  }
            ]
      ]

  -- A burst executes lines of the program one after the other, at most as many as the quantum, each
  -- but the first only where those before it have not ended the program, failed or blocked it; it
  -- stops there, or after as many as the quantum.
  pub ejecutar_rafaga-Lineas :
      (quantum : ℕ) (c : Cpu D)
      → Lineas
          (ejecutar_linea lib analizador_linea)
          (con_estado c rafaga_fin_rafaga)
          quantum
          (ejecutar_rafaga lib analizador_linea quantum c)
  unfolding ejecutar_rafaga
  ejecutar_rafaga-Lineas quantum c =
      desde-Lineas quantum quantum (con_estado c rafaga_fin_rafaga) (omega arith)
