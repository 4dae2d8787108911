-- ===== src/Base/Words.antt =====
-- What `memcpy` does between a machine word or a C string and a byte buffer: words of four bytes,
-- least significant first (the x86 of the build), and texts that end in a zero byte.
use Prim.Native.Nat.{ℕ, ◌+◌, ◌-◌, ◌*◌, ◌/◌, ◌%◌, ◌^◌, ◌<◌}
use Prim.Native.Char.{code}
use Prim.Native.String.{String}
use mathlib.Core.Path.{◌≡◌, refl, sym, ap, ◌∙◌}
use mathlib.Core.List.{List, [], ◌∷◌, ◌++◌, append-nil}
use mathlib.Core.Option.{Option, none, some}
use native.Mathlib.Omega.{arith}
use tp_sistemas_operativos_u.Base.Tests.{if◌then◌else◌, ◌==◌, leb}
use tp_sistemas_operativos_u.Base.Lists.{
  length, All, take, drop, length-append, take-append, drop-append,
}

abbrev pub Bytes : Type 0
Bytes = List ℕ

abbrev pub IsWord : ℕ → Type 0
IsWord n = n < 2 ^ 32

-- a + b and a - b on u_int32_t.
abbrev pub add32 : ℕ → ℕ → ℕ
add32 a b = (a + b) % 2 ^ 32

abbrev pub sub32 : ℕ → ℕ → ℕ
sub32 a b = (a + 2 ^ 32 - b) % 2 ^ 32

-- `memcpy(data, &n, sizeof(u_int32_t))`.
unfoldable pub word_bytes : ℕ → Bytes
word_bytes n = n % 256 ∷ n / 256 % 256 ∷ n / 65536 % 256 ∷ n / 16777216 % 256 ∷ []

-- `memcpy(&n, data, sizeof(u_int32_t))`, with what follows; `none` reads behind the buffer.
unfoldable pub read_word : Bytes → Option (ℕ × Bytes)
read_word (a ∷ b ∷ c ∷ d ∷ rest) =
    some (a % 256 + b % 256 * 256 + c % 256 * 65536 + d % 256 * 16777216, rest)
read_word _ = none

pub read_word-word_bytes :
    (n : ℕ) (rest : Bytes) → IsWord n → read_word (word_bytes n ++ rest) ≡ some (n, rest)
unfolding read_word word_bytes
read_word-word_bytes n rest h = ap (λ k. some (k, rest)) (omega arith)

pub length-word_bytes : (n : ℕ) → length (word_bytes n) ≡ 4
unfolding word_bytes
length-word_bytes n = refl

-- `memcpy(p, data, n)`, with what follows; `none` reads behind the buffer.
unfoldable pub read_block : ℕ → Bytes → Option (Bytes × Bytes)
read_block n bytes = if leb n (length bytes) then some (take n bytes, drop n bytes) else none

pub read_block-append :
    (n : ℕ) (bs rest : Bytes) → length bs ≡ n → read_block n (bs ++ rest) ≡ some (bs, rest)
unfolding read_block
read_block-append n bs rest h =
    rw (sym h) (ground (arith, length-append bs rest, take-append bs rest, drop-append bs rest))

pub word_alone : (n : ℕ) → IsWord n → read_word (word_bytes n) ≡ some (n, [])
word_alone n h = ap read_word (sym (append-nil (word_bytes n))) ∙ read_word-word_bytes n [] h

pub read_block_all : (n : ℕ) (bs : Bytes) → length bs ≡ n → read_block n bs ≡ some (bs, [])
read_block_all n bs h = ap (read_block n) (sym (append-nil bs)) ∙ read_block-append n bs [] h

-- The text that starts at the buffer's first byte and what stands behind its zero byte; `none`
-- where no zero byte follows.
unfoldable pub read_text : Bytes → Option (Bytes × Bytes)
read_text [] = none
read_text (c ∷ cs) =
    let rest = read_text cs in
    if c == 0 then some ([], cs) else elim rest [ none ↦ none | some (t, r) ↦ some (c ∷ t, r) ]

-- A C string with no zero byte before its end.
abbrev pub IsText : Bytes → Type 0
IsText = All λ c. 0 < c

pub read_text-append :
    (text rest : Bytes) → IsText text → read_text (text ++ 0 ∷ rest) ≡ some (text, rest)
unfolding read_text
read_text-append [] rest h = refl
read_text-append (c ∷ cs) rest h = ground (arith, read_text-append cs rest h.1)

-- The bytes of an ASCII literal.
abbrev pub codes : String → Bytes
codes String.[] = []
codes (String.◌∷◌ c s) = code c ∷ codes s
