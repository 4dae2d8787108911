-- ===== src/Kernel/Planificador/Turnos.antt =====
-- The ready queue over several rounds of the threads that take programs from it
-- (soporte/ConexionConCPU.c).
use tp_sistemas_operativos_u.Base.{
  ℕ, zero, suc, ◌-◌, ◌<◌, ◌≡◌, refl, sym, ap, ◌∙◌, ◌>>=◌, Option, some, List, [], ◌∷◌, ◌++◌,
  append_assoc, append-nil, length, ltb, true, arith,
}
use mathlib.Core.Path.{subst}
use mathlib.Core.Option.{some-injective}
use tp_sistemas_operativos_u.Commons.{ListLib}
use tp_sistemas_operativos_u.Kernel.{Kernel}
use tp_sistemas_operativos_u.Kernel.Planificador.{sacar_de_ready}
use tp_sistemas_operativos_u.Kernel.Planificador.Invariante.{IsKernel}
use tp_sistemas_operativos_u.Kernel.Planificador.Colas.{sacar_de_ready-IsKernel}

module _ (lib : (A : Type 0) → ListLib A) where
  -- `n` programs taken one after the other.
  unfoldable pub sacar_varios : (n : ℕ) → Kernel → Option (Kernel × List ℕ)
  sacar_varios zero k = some (k, [])
  sacar_varios (suc n) k = do
    (k', p) ← sacar_de_ready lib k
    (k'', ps) ← sacar_varios n k'
    some (k'', p ∷ ps)

  sacar_primero :
      (n : ℕ) (k : Kernel) (p : ℕ) (ps : List ℕ)
      → IsKernel n k
      → k.lista_ready ≡ p ∷ ps
      → (k' : Kernel) × (sacar_de_ready lib k ≡ some (k', p))
        × (k'.lista_ready ≡ ps)
        × (k'.lista_exec ≡ k.lista_exec ++ p ∷ [])
        × IsKernel n k'
  unfolding sacar_de_ready
  sacar_primero n k p ps i e =
      let q : (lib ℕ).list_remove 0 k.lista_ready ≡ (some p, ps) =
        ap ((lib ℕ).list_remove 0) e ∙ (lib ℕ).list_remove-zero (p ∷ ps) in
      let l : length k.lista_ready ≡ suc (length ps) = ap length e in
      let pos : 0 < k.productor_consumidor = omega (arith, l, i.listos) in
      let hay : ltb 0 k.productor_consumidor ≡ true = ground (arith, pos) in
      let k' : Kernel = record k {
        lista_ready = ps;
        lista_exec = k.lista_exec ++ p ∷ [];
        productor_consumidor = k.productor_consumidor - 1;
      } in
      let s : sacar_de_ready lib k ≡ some (k', p) =
        rw (sacar_de_ready, hay, q, (lib ℕ).list_add_lem k.lista_exec p) refl in
      let r = sacar_de_ready-IsKernel lib n k i pos in
      (
        k',
        s,
        refl,
        refl,
        subst (λ (x : Kernel × ℕ). IsKernel n x.0) (some-injective r.0 (k', p) (sym r.1 ∙ s)) r.5,
      )

  -- Under the invariant of the queues the programs that are ready are taken in their order, whatever
  -- stands behind them: as many rounds as there are programs in front of and including one take those
  -- and put them in that order into execution, and the invariant is kept.
  pub sacar_varios-orden :
      (n : ℕ) (ps : List ℕ) (resto : List ℕ) (k : Kernel)
      → IsKernel n k
      → k.lista_ready ≡ ps ++ resto
      → (k' : Kernel) × (sacar_varios (length ps) k ≡ some (k', ps))
        × (k'.lista_ready ≡ resto)
        × (k'.lista_exec ≡ k.lista_exec ++ ps)
        × IsKernel n k'
  unfolding sacar_varios
  sacar_varios-orden n [] resto k i e = (k, refl, e, sym (append-nil k.lista_exec), i)
  sacar_varios-orden n (p ∷ ps) resto k i e =
      let a = sacar_primero n k p (ps ++ resto) i e in
      let b = sacar_varios-orden n ps resto a.0 a.4 a.2 in
      (
        b.0,
        rw (a.1, b.1) refl,
        b.2,
        b.3 ∙ ap (λ x. x ++ ps) a.3 ∙ append_assoc k.lista_exec (p ∷ []) ps,
        b.4,
      )
