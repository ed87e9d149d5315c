-- ===== src/Wire/Bytes.antt =====
-- Big-endian integers, as `BufMut::put_u32` and `Buf::get_u32` write and read them.
use rusftp.Prelude.{
  ℕ, zero, suc, ◌+◌, ◌*◌, ◌/◌, ◌%◌, ◌^◌, ◌<◌, ◌≡◌, refl, List, [], ◌∷◌, ◌++◌, All, arith, length,
  length-append, All-append,
}
use native.Mathlib.Nat.{pow-suc}
use mathlib.Core.List.{foldl, foldl-append}

abbrev pub IsByte : ℕ → Type 0
IsByte b = b < 256

-- The last `n` base-256 digits, the highest first.
unfoldable pub put_be : ℕ → ℕ → List ℕ
put_be zero v = []
put_be (suc n) v = put_be n (v / 256) ++ ((v % 256) ∷ [])

unfoldable pub get_be : List ℕ → ℕ
get_be = foldl (λ acc b. acc * 256 + b) 0

pub length-put_be : (n v : ℕ) → length (put_be n v) ≡ n
unfolding put_be
length-put_be zero v = refl
length-put_be (suc n) v =
    omega (arith, length-append (put_be n (v / 256)) ((v % 256) ∷ []), length-put_be n (v / 256))

pub put_be-IsByte : (n v : ℕ) → All IsByte (put_be n v)
unfolding put_be
put_be-IsByte zero v = tt
put_be-IsByte (suc n) v =
    All-append IsByte (put_be n (v / 256)) ((v % 256) ∷ []) (put_be-IsByte n (v / 256))
      (omega arith, tt)

pub get_be-append : (xs : List ℕ) (b : ℕ) → get_be (xs ++ b ∷ []) ≡ get_be xs * 256 + b
unfolding get_be
get_be-append xs b = rw foldl-append

-- What fits the width is read back.
pub get_be-put_be : (n v : ℕ) → v < 256 ^ n → get_be (put_be n v) ≡ v
unfolding put_be
get_be-put_be zero v h = unfold get_be in omega arith
get_be-put_be (suc n) v h =
    rw (get_be-append, get_be-put_be n (v / 256) (omega (arith, pow-suc 256 n))) (omega arith)
