-- ===== src/Common/ByteLists.antt =====
-- Lists of bytes.
use Prim.Native.Nat.{ℕ, zero, suc, ◌^◌, ◌<◌}
use mathlib.Core.List.{List, [], ◌∷◌, ◌++◌}
use native.Mathlib.Omega.{arith}
use hydra_os.Common.{get_or, set, replicate}

pub data IsBytes : List ℕ → Type 0 where
  empty : IsBytes []
  byte : {b : ℕ} {bs : List ℕ} → b < 2 ^ 8 → IsBytes bs → IsBytes (b ∷ bs)

pub append-IsBytes : (xs ys : List ℕ) → IsBytes xs → IsBytes ys → IsBytes (xs ++ ys)
append-IsBytes [] ys empty w = w
append-IsBytes (x ∷ xs) ys (byte lt v) w = byte lt (append-IsBytes xs ys v w)

pub set-IsBytes : (xs : List ℕ) (i b : ℕ) → IsBytes xs → b < 2 ^ 8 → IsBytes (set xs i b)
set-IsBytes [] i b empty lt = empty
set-IsBytes (x ∷ xs) zero b (byte l v) lt = byte lt v
set-IsBytes (x ∷ xs) (suc i) b (byte l v) lt = byte l (set-IsBytes xs i b v lt)

pub replicate-IsBytes : (n b : ℕ) → b < 2 ^ 8 → IsBytes (replicate n b)
replicate-IsBytes zero b lt = empty
replicate-IsBytes (suc n) b lt = byte lt (replicate-IsBytes n b lt)

pub get_or-byte : (xs : List ℕ) (i : ℕ) → IsBytes xs → get_or xs i 0 < 2 ^ 8
get_or-byte [] i empty = omega arith
get_or-byte (x ∷ xs) zero (byte lt v) = lt
get_or-byte (x ∷ xs) (suc i) (byte lt v) = get_or-byte xs i v
