-- ===== src/Bytes.antt =====
-- memory.cpp, "Memory utility functions": memcpy, memset and memcmp over a memory of bytes, a
-- function from addresses. A loop recurs on the bytes left, and pointers do not wrap.
pub mod Laws
mod Tests
use hydra_os.Common.{ℕ, zero, suc, ◌+◌, ◌-◌, ◌==◌, if◌then◌else◌, ltb, Bool}

abbrev pub Bytes : Type 0
Bytes = ℕ → ℕ

-- `*p = v`.
unfoldable pub poke : Bytes → ℕ → ℕ → Bytes
poke m p v q = if q == p then v else m q

-- The memory after the call; it returns `dst`.
unfoldable pub memcpy : Bytes → ℕ → ℕ → ℕ → Bytes
memcpy m dst src zero = m
memcpy m dst src (suc n) = memcpy (poke m dst (m src)) (dst + 1) (src + 1) n

pub memset : Bytes → ℕ → ℕ → ℕ → Bytes
memset m dst val zero = m
memset m dst val (suc n) = memset (poke m dst val) (dst + 1) val n

-- The `int` that `memcmp` returns: `minus d` is -d.
pub data Sign : Type 0 where
  equal : Sign
  plus : ℕ → Sign
  minus : ℕ → Sign

-- `*p1 - *p2`, where they differ.
pub difference : ℕ → ℕ → Sign
difference a b = if ltb a b then minus (b - a) else plus (a - b)

pub memcmp : Bytes → ℕ → ℕ → ℕ → Sign
memcmp m s1 s2 zero = equal
memcmp m s1 s2 (suc n) =
    let rest = memcmp m (s1 + 1) (s2 + 1) n in
    if m s1 == m s2 then rest else difference (m s1) (m s2)
