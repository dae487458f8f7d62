-- ===== src/Filesystem/Persist.antt =====
-- The disk keeps the file system: saving and loading on a working machine.
use hydra_os.Common.{
  ℕ, ◌^◌, ◌<◌, ◌≡◌, ◌≢◌, ◌∙◌, refl, sym, ap, subst, false, List, [], length, length-replicate,
  arith, ◌==◌, if◌then◌else◌,
}
use hydra_os.Common.ByteLists.{IsBytes}
use hydra_os.Filesystem.Layout.{
  Superblock, blit, encode_superblock, sector_size, superblock_sec, clear_buffer,
}
use hydra_os.Filesystem.Buffers.{length-blit}
use hydra_os.Filesystem.Machine.{Machine, Working, malloc_sector}
use hydra_os.Filesystem.Images.{superblock-IsBytes}
use hydra_os.Filesystem.Store.{FileSystem, save_superblock}

module _ (m : Machine) (k : Working m) where
  open m use {World, malloc, free, stale, read28, write28}
  open k use {Holding, content}

  -- A world between two calls of the file system.
  abbrev pub Ready : World → Type 0
  Ready w = Holding [] w

  -- Both worlds have the same disk.
  abbrev pub SameDisk : World → World → Type 0
  SameDisk w w' = (s : ℕ) → content w' s ≡ content w s

  pub nonzero : (p : ℕ) → p ≢ 0 → (p == 0) ≡ false
  nonzero p h = ground arith

  pub differs : (s t : ℕ) → s ≢ t → (s == t) ≡ false
  differs s t h = ground arith

  -- The sector of a superblock.
  abbrev pub superblock_image : Superblock → List ℕ
  superblock_image sb = blit clear_buffer 0 (encode_superblock sb)

  length-superblock_image : (sb : Superblock) → length (superblock_image sb) ≡ sector_size
  length-superblock_image sb =
      length-blit clear_buffer 0 (encode_superblock sb) ∙ length-replicate {A = ℕ} 512 0

  -- The world after a buffer was had, one sector written from it, and the buffer given back.
  abbrev pub written : World → ℕ → List ℕ → World
  written w s b = free (write28 (malloc w sector_size).1 s b) (malloc w sector_size).0

  module _ (ps : List ℕ) (w : World) (room : length ps < 2) (h : Holding ps w) where
    pub granted : ((malloc w sector_size).0 == 0) ≡ false
    granted = nonzero _ (malloc_sector m k ps w h room).0

    written-Holding :
        (s : ℕ) (b : List ℕ)
        → s < 2 ^ 28
        → length b ≡ sector_size
        → IsBytes b
        → Holding ps (written w s b)
    written-Holding s b hs e v =
        k.free_returns (malloc w sector_size).0 ps _
          (k.write_keeps _ _ s b (malloc_sector m k ps w h room).1 hs e v)

    content-written :
        (s : ℕ) (b : List ℕ) (t : ℕ)
        → s < 2 ^ 28
        → length b ≡ sector_size
        → IsBytes b
        → content (written w s b) t ≡ (if t == s then b else content w t)
    content-written s b t hs e v =
        k.content-free _ _ t
        ∙ k.content-write28 _ _ s b t (malloc_sector m k ps w h room).1 hs e v
        ∙ ap (λ c. if t == s then b else c) (k.content-malloc w sector_size t)

  save_superblock-eq :
      (ps : List ℕ) (fs : FileSystem m)
      → length ps < 2
      → Holding ps fs.world
      → save_superblock m fs
        ≡ record fs { world = written fs.world superblock_sec (superblock_image fs.superblock) }
  unfolding save_superblock
  save_superblock-eq ps fs room h = rw (granted ps fs.world room h)

  -- What a call leaves: the buffers that were held, one sector changed, and the other fields.
  pub record Saved (ps : List ℕ) (fs fs' : FileSystem m) (s : ℕ) (b : List ℕ) : Type 0 where
    pub holding : Holding ps fs'.world
    pub sector : content fs'.world s ≡ b
    pub others : (t : ℕ) → t ≢ s → content fs'.world t ≡ content fs.world t
    pub fields : fs' ≡ record fs { world = fs'.world }

  -- A saved superblock stands in its sector, and no other sector changes.
  pub save_superblock-Saved :
      (ps : List ℕ) (fs : FileSystem m)
      → length ps < 2
      → Holding ps fs.world
      → IsBytes fs.superblock.label
      → Saved ps fs (save_superblock m fs) superblock_sec (superblock_image fs.superblock)
  save_superblock-Saved ps fs room h lb =
      subst (λ fs'. Saved ps fs fs' superblock_sec image_of) (sym (save_superblock-eq ps fs room h))
        (record {
          holding =
              written-Holding ps fs.world room h superblock_sec image_of (omega arith)
                (length-superblock_image fs.superblock) (superblock-IsBytes fs.superblock lb);
          sector = at_sector superblock_sec;
          others = λ t ne.
              at_sector t
              ∙ ap (λ c. if c then image_of else content fs.world t) (differs t superblock_sec ne);
          fields = refl;
        })
    where
      image_of : List ℕ
      image_of = superblock_image fs.superblock

      at_sector :
          (t : ℕ)
          → content (written fs.world superblock_sec image_of) t
            ≡ (if t == superblock_sec then image_of else content fs.world t)
      at_sector t =
          content-written ps fs.world room h superblock_sec image_of t (omega arith)
            (length-superblock_image fs.superblock) (superblock-IsBytes fs.superblock lb)
