-- ===== src/Memory/Split.antt =====
-- The split of a chunk by `malloc`, on a chain: the new chunk, and the links around it.
use mathlib.Core.Path.{fun_ext}
use hydra_os.Common.{
  ℕ, ◌+◌, ◌-◌, ◌^◌, ◌≤◌, ◌<◌, ◌≡◌, ◌≢◌, ◌∙◌, true, false, List, ◌∷◌, ap, sym, subst, sub32, u32,
  arith,
}
use hydra_os.Memory.{
  Chunk, chunk, Heap, header, write, set_next, set_prev, set_allocated, set_size, relink, fill,
  split,
}
use hydra_os.Memory.Blocks.{Block, block, total, link, end}
use hydra_os.Memory.Chain.{
  Chain, SameBelow, Chain-write, set_size-set_next, set_allocated-write, write_self, write_ne,
  relink-Chain, relink-SameBelow,
}

fill_lem :
    (h : Heap) (t a n : ℕ)
    → a ≢ t
    → fill h t a n ≡ write h t (chunk (h a).next a false (sub32 (sub32 (h a).size n) header))
unfolding fill set_next set_prev set_allocated set_size
fill_lem h t a n ne = fun_ext λ q. ground arith

-- The writes of `split`, in terms of the new chunk's address `t` and its header.
split_writes :
    (h : Heap) (a n t : ℕ) (c : Chunk)
    → u32 (a + header + n) ≡ t
    → fill h t a n ≡ write h t c
    → let g = relink (write h t c) c.next t in
      split h a n ≡ write g a (record (g a) { size = n; next = t })
unfolding split
split_writes h a n t c e f =
    ap (λ u. steps u (fill h u a n)) e
    ∙ ap (steps t) f
    ∙ ap (λ v. last (relink (write h t c) v t)) next
    ∙ set_size-set_next (relink (write h t c) c.next t) a n t
  where
    last : Heap → Heap
    last g = set_next (set_size g a n) a t

    steps : ℕ → Heap → Heap
    steps u g = set_next (set_size (relink g (g u).next u) a n) a u

    next : (write h t c t).next ≡ c.next
    next = ap (λ (d : Chunk). d.next) (write_self h t c)

-- The first address behind the chunk that `malloc` carves at `a`.
abbrev pub rest_at : ℕ → ℕ → ℕ
rest_at a n = a + header + n

module _ (h : Heap) (p a n : ℕ) (b : Block) (bs : List Block) (pos : 0 < a)
    (space : a + total (b ∷ bs) ≤ 2 ^ 32) (large : n + header + 1 ≤ b.size)
    (c : Chain h p a (b ∷ bs)) where
  abbrev t : ℕ
  t = rest_at a n

  abbrev rest_chunk : Chunk
  rest_chunk = chunk (link (end a b) bs) a false (b.size - n - header)

  -- What the heap holds once the chunk behind the new one points back to it.
  abbrev linked : Heap
  linked = relink (write h t rest_chunk) (link (end a b) bs) t

  fill-eq-write : fill h t a n ≡ write h t rest_chunk
  fill-eq-write = fill_lem h t a n (omega arith) ∙ ap (write h t) (ground arith)

  linked_head : linked a ≡ h a
  linked_head =
      relink-SameBelow _ t (end a b) bs a (omega arith) ∙ write_ne h t a rest_chunk (omega arith)

  linked_rest : linked t ≡ rest_chunk
  linked_rest = relink-SameBelow _ t (end a b) bs t (omega arith) ∙ write_self h t rest_chunk

  split_lem : split h a n ≡ write linked a (chunk t p b.used n)
  split_lem =
      split_writes h a n t rest_chunk (omega arith) fill-eq-write
      ∙ ap (λ (d : Chunk). write linked a (record d { size = n; next = t })) (linked_head ∙ c.0)

  -- The chain behind the new chunk.
  linked_tail : Chain linked t (end a b) bs
  linked_tail =
      relink-Chain _ a t (end a b) bs (omega arith)
        (Chain-write h a t (end a b) rest_chunk bs (omega arith) c.1)

  rest_end : end (end a (block true n)) (block false (b.size - n - header)) ≡ end a b
  rest_end = omega arith

  marked : set_allocated (split h a n) a true ≡ write linked a (chunk t p true n)
  marked =
      ap (λ (g : Heap). set_allocated g a true) split_lem
      ∙ set_allocated-write linked a (chunk t p b.used n) true

  pub split-Chain :
      Chain
        (set_allocated (split h a n) a true)
        p
        a
        (block true n ∷ block false (b.size - n - header) ∷ bs)
  split-Chain =
      subst (λ (g : Heap). Chain g p a (block true n ∷ block false (b.size - n - header) ∷ bs))
        (sym marked)
        (
          write_self linked a (chunk t p true n),
          (
            write_ne linked a t (chunk t p true n) (omega arith)
                ∙ linked_rest
                ∙ ap (λ e. chunk (link e bs) a false (b.size - n - header)) (sym rest_end),
            subst (λ e. Chain (write linked a (chunk t p true n)) t e bs) (sym rest_end)
                (Chain-write linked t a (end a b) (chunk t p true n) bs (omega arith) linked_tail),
          ),
        )

  pub split-SameBelow : SameBelow a h (set_allocated (split h a n) a true)
  split-SameBelow q lt = rw marked (
      write_ne linked a q (chunk t p true n) (omega arith)
      ∙ relink-SameBelow (write h t rest_chunk) t (end a b) bs q (omega arith)
      ∙ write_ne h t q rest_chunk (omega arith))
