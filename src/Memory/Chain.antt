-- ===== src/Memory/Chain.antt =====
-- The doubly linked list of headers that lies at the addresses of a list of blocks.
use mathlib.Core.Path.{fun_ext}
use hydra_os.Common.{ℕ, ◌+◌, ◌^◌, ◌≤◌, ◌<◌, ◌≡◌, ◌∙◌, ◌≢◌, refl, Bool, List, [], ◌∷◌, arith}
use hydra_os.Memory.{
  Chunk, chunk, Heap, write, set_next, set_allocated, set_size, relink, MemoryManager,
}
use hydra_os.Memory.Blocks.{Block, total, link, end}

-- From address `a` on, the headers of `bs` lie one behind the other; the first points back to `p`.
abbrev pub Chain : Heap → ℕ → ℕ → List Block → Type 0
Chain h p a [] = Unit {0}
Chain h p a (b ∷ bs) = (h a ≡ chunk (link (end a b) bs) p b.used b.size) × Chain h a (end a b) bs

-- The blocks lie in the 32-bit address space, above the null pointer.
pub record Represents (m : MemoryManager) (start : ℕ) (bs : List Block) : Type 0 where
  pub above_null : 0 < start
  pub in_space : start + total bs ≤ 2 ^ 32
  pub first : m.first ≡ link start bs
  pub chain : Chain m.heap 0 start bs

-- `g` agrees with `h` below `a`.
abbrev pub SameBelow : ℕ → Heap → Heap → Type 0
SameBelow a h g = (q : ℕ) → q < a → g q ≡ h q

abbrev pub SameFrom : ℕ → Heap → Heap → Type 0
SameFrom a h g = (q : ℕ) → a ≤ q → g q ≡ h q

pub Chain-frame :
    (h g : Heap) (p a : ℕ) (bs : List Block) → SameFrom a h g → Chain h p a bs → Chain g p a bs
Chain-frame h g p a [] same c = tt
Chain-frame h g p a (b ∷ bs) same c =
    (same a (omega arith) ∙ c.0, Chain-frame h g a (end a b) bs (λ q le. same q (omega arith)) c.1)

pub write_self : (h : Heap) (p : ℕ) (c : Chunk) → write h p c p ≡ c
unfolding write
write_self h p c = ground arith

pub write_ne : (h : Heap) (p q : ℕ) (c : Chunk) → q ≢ p → write h p c q ≡ h q
unfolding write
write_ne h p q c ne = ground arith

-- Two writes to one header are one.
pub set_size-set_next :
    (h : Heap) (a n t : ℕ)
    → set_next (set_size h a n) a t ≡ write h a (record (h a) { size = n; next = t })
unfolding set_size set_next write
set_size-set_next h a n t = fun_ext λ q. ground arith

pub set_allocated-write :
    (h : Heap) (a : ℕ) (c : Chunk) (v : Bool)
    → set_allocated (write h a c) a v ≡ write h a (record c { allocated = v })
unfolding set_allocated write
set_allocated-write h a c v = fun_ext λ q. ground arith

-- A write below a chain is not seen by it.
pub Chain-write :
    (h : Heap) (p q a : ℕ) (c : Chunk) (bs : List Block)
    → q < a
    → Chain h p a bs
    → Chain (write h q c) p a bs
Chain-write h p q a c bs lt =
    Chain-frame h (write h q c) p a bs (λ r le. write_ne h q r c (omega arith))

-- `relink` at the head of a chain changes the back pointer, and nothing else.
pub relink-Chain :
    (h : Heap) (p v a : ℕ) (bs : List Block)
    → 0 < a
    → Chain h p a bs
    → Chain (relink h (link a bs) v) v a bs
unfolding relink
relink-Chain h p v a [] pos c = tt
relink-Chain h p v a (b ∷ bs) pos c =
    (ground arith, Chain-frame h _ a (end a b) bs (λ q le. ground arith) c.1)

-- It leaves everything below the chain alone.
pub relink-SameBelow :
    (h : Heap) (v a : ℕ) (bs : List Block) (q : ℕ) → q < a → relink h (link a bs) v q ≡ h q
unfolding relink
relink-SameBelow h v a [] q lt = refl
relink-SameBelow h v a (b ∷ bs) q lt = ground arith
