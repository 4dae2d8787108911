-- ===== src/Kernel/Planificador/Cuentas.antt =====
-- How many programs the queues hold, and how the list operations change those numbers.
use tp_sistemas_operativos_u.Base.{
  ap, sym, inl, inr, Bool-cases, some_inj, ℕ, suc, ◌+◌, ◌≡◌, refl, Bool, true, some, List, [], ◌∷◌,
  length, find, erase_first, any, insert_at, arith, All,
}
use mathlib.Core.Path.{subst}
use tp_sistemas_operativos_u.Kernel.{Semaforo, Dispositivo, ℤ, pos, negsuc}
use tp_sistemas_operativos_u.Kernel.Planificador.{cambiar_primero}

-- Those that a semaphore has blocked, and those that a device has.
unfoldable pub en_semaforos : List Semaforo → ℕ
en_semaforos [] = 0
en_semaforos (s ∷ ss) = length s.prog_encolados + en_semaforos ss

unfoldable pub en_dispositivos : List Dispositivo → ℕ
en_dispositivos [] = 0
en_dispositivos (d ∷ ds) = length d.prog_encolados + en_dispositivos ds

-- What a value below 0 stands for.
unfoldable pub deuda : ℤ → ℕ
deuda (pos n) = 0
deuda (negsuc n) = suc n

-- A semaphore that owes as many programs as wait for it, and a device whose semaphore counts its
-- queue.
unfoldable pub EstaSaldado : Semaforo → Type 0
EstaSaldado s = deuda s.i_semaforo ≡ length s.prog_encolados

unfoldable pub EstaContado : Dispositivo → Type 0
EstaContado d = d.semaforo ≡ length d.prog_encolados

module _ {A : Type 0} where
  pub find-any :
      (p : A → Bool) (xs : List A) → any p xs ≡ true → (x : A) × (find p xs ≡ some x) × (p x ≡ true)
  find-any p [] h = absurd (ground arith)
  find-any p (x ∷ xs) h = elim (Bool-cases (p x)) [
    | inl si ↦ (x, ground arith, si)
    | inr otro ↦ let r = find-any p xs (ground arith) in (r.0, rw otro r.1, r.2)
  ]

  pub length-erase_first :
      (p : A → Bool) (xs : List A) → any p xs ≡ true → suc (length (erase_first p xs)) ≡ length xs
  length-erase_first p [] h = absurd (ground arith)
  length-erase_first p (x ∷ xs) h = ground (arith, length-erase_first p xs)

  pub length-insert_at :
      (a : A) (xs : List A) → length (insert_at (length xs) a xs) ≡ suc (length xs)
  length-insert_at a [] = refl
  length-insert_at a (x ∷ xs) = ap suc (length-insert_at a xs)

  -- A change that keeps `P` where it applies keeps it everywhere.
  pub cambiar_primero-All :
      (P : A → Type 0) (p : A → Bool) (f : A → A) (xs : List A) (x : A)
      → find p xs ≡ some x
      → P (f x)
      → All P xs
      → All P (cambiar_primero p f xs)
  unfolding cambiar_primero
  cambiar_primero-All P p f [] x e h a = tt
  cambiar_primero-All P p f (y ∷ ys) x e h a = elim (Bool-cases (p y)) [
    | inl si ↦ rw si (subst (λ y. P (f y)) (sym (some_inj (rw si at e))) h, a.1)
    | inr otro ↦ rw otro (a.0, cambiar_primero-All P p f ys x (rw otro at e) h a.1)
  ]

  -- And what holds of every element holds of the one found.
  pub find-All :
      (P : A → Type 0) (p : A → Bool) (xs : List A) (x : A) → find p xs ≡ some x → All P xs → P x
  find-All P p [] x e a = absurd (ground arith)
  find-All P p (y ∷ ys) x e a = elim (Bool-cases (p y)) [
    | inl si ↦ subst P (some_inj (rw si at e)) a.0
    | inr otro ↦ find-All P p ys x (rw otro at e) a.1
  ]

pub cambiar-en_semaforos :
    (p : Semaforo → Bool) (f : Semaforo → Semaforo) (ss : List Semaforo) (s : Semaforo)
    → find p ss ≡ some s
    → en_semaforos (cambiar_primero p f ss) + length s.prog_encolados
      ≡ en_semaforos ss + length (f s).prog_encolados
unfolding cambiar_primero en_semaforos
cambiar-en_semaforos p f [] s e = absurd (ground arith)
cambiar-en_semaforos p f (t ∷ ts) s e = elim (Bool-cases (p t)) [
  | inl si ↦ ground arith
  | inr otro ↦ ground (arith, cambiar-en_semaforos p f ts s (rw otro at e))
]

pub cambiar-en_dispositivos :
    (p : Dispositivo → Bool) (f : Dispositivo → Dispositivo) (ds : List Dispositivo)
    (d : Dispositivo)
    → find p ds ≡ some d
    → en_dispositivos (cambiar_primero p f ds) + length d.prog_encolados
      ≡ en_dispositivos ds + length (f d).prog_encolados
unfolding cambiar_primero en_dispositivos
cambiar-en_dispositivos p f [] d e = absurd (ground arith)
cambiar-en_dispositivos p f (t ∷ ts) d e = elim (Bool-cases (p t)) [
  | inl si ↦ ground arith
  | inr otro ↦ ground (arith, cambiar-en_dispositivos p f ts d (rw otro at e))
]
