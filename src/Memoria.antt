-- ===== src/Memoria.antt =====
-- The block that `malloc(CANT_MEM)` gives the memory server: a byte at each address, and the copies
-- that the server makes in it. Bytes are kept as `memcpy` moves them.
pub mod Copia
pub mod Rebanadas
pub mod Partes
use tp_sistemas_operativos_u.Base.{ℕ, zero, suc, ◌+◌, List, [], ◌∷◌, Bytes, ◌==◌, if◌then◌else◌}

abbrev pub Memoria : Type 0
Memoria = ℕ → ℕ

-- `*p = b`.
unfoldable pub poner : Memoria → ℕ → ℕ → Memoria
poner m p b q = if p == q then b else m q

-- The `n` bytes from address `p` on.
unfoldable pub leer : Memoria → ℕ → ℕ → Bytes
leer m p zero = []
leer m p (suc n) = m p ∷ leer m (p + 1) n

-- `memcpy` of a buffer to address `p`.
unfoldable pub escribir : Memoria → ℕ → Bytes → Memoria
escribir m p [] = m
escribir m p (b ∷ bs) = escribir (poner m p b) (p + 1) bs

-- The inner loop of `fnCompactar`: `n` bytes, one by one, from `p_moviendo` to `p_compactado`.
unfoldable pub mover : ℕ → (p_moviendo p_compactado : ℕ) → Memoria → Memoria
mover zero p_moviendo p_compactado m = m
mover (suc n) p_moviendo p_compactado m =
    mover n (p_moviendo + 1) (p_compactado + 1) (poner m p_compactado (m p_moviendo))
