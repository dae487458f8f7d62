-- ===== src/Filesystem/TableLoad.antt =====
-- Loading: `LoadSuperblock` and `LoadInodeTable` on a working machine.
use hydra_os.Common.{
  ℕ, zero, suc, ◌+◌, ◌*◌, ◌^◌, ◌≤◌, ◌<◌, ◌≡◌, ◌∙◌, inl, inr, refl, sym, ap, List, [], length,
  get_or_ext, length-replicate, arith, lt_cases,
}
use hydra_os.Filesystem.Layout.{
  Inode, Superblock, blank, slice, encode_superblock, decode_superblock, superblock_bytes,
  sector_size, superblock_sec, inode_start_sec, clear_buffer,
}
use hydra_os.Filesystem.Buffers.{slice-blit}
use hydra_os.Filesystem.Codec.{IsSuperblock, decode-encode_superblock, length-encode_superblock}
use hydra_os.Filesystem.Machine.{Machine, Working, malloc_sector}
use hydra_os.Filesystem.Store.{FileSystem, load_superblock, load_sectors, load_inode_table}
use hydra_os.Filesystem.Table.{at, AllInodes, length-load_inodes, load_inodes_other, at-load_inodes}
use hydra_os.Filesystem.Persist.{granted, superblock_image}
use hydra_os.Filesystem.TableStore.{StoresTable}

module _ (m : Machine) (k : Working m) where
  open m use {World, malloc, free, stale, read28, write28}
  open k use {Holding, content}

  -- What a load leaves of the world.
  pub record Loaded (w w' : World) : Type 0 where
    pub holding : Holding [] w'
    pub same_disk : (t : ℕ) → content w' t ≡ content w t

  -- The world after one read into a buffer that was had and is given back.
  abbrev pub read_world : World → ℕ → World
  read_world w s =
      free
        (read28 (malloc w sector_size).1 s
          (stale (malloc w sector_size).1 (malloc w sector_size).0)).1
        (malloc w sector_size).0

  read_world-Loaded : (w : World) (s : ℕ) → Holding [] w → s < 2 ^ 28 → Loaded w (read_world w s)
  read_world-Loaded w s h lt = record {
    holding =
        k.free_returns _ [] _ (k.read_keeps _ _ s _ (malloc_sector m k [] w h (omega arith)).1 lt);
    same_disk = λ t.
        k.content-free _ _ t
        ∙ k.content-read28 _ _ s _ t (malloc_sector m k [] w h (omega arith)).1 lt
        ∙ k.content-malloc w sector_size t;
  }

  -- A stored superblock is loaded as it was saved.
  pub load_superblock-eq :
      (fs : FileSystem m) (sb : Superblock)
      → Holding [] fs.world
      → IsSuperblock sb
      → content fs.world superblock_sec ≡ superblock_image m k sb
      → load_superblock m fs
        ≡ record fs { superblock = sb; world = read_world fs.world superblock_sec }
  unfolding load_superblock
  load_superblock-eq fs sb h v e = rw (granted m k [] fs.world (omega arith) h) (
      ap (λ x. record fs { superblock = x; world = read_world fs.world superblock_sec })
        (ap (λ b. decode_superblock (slice b 0 superblock_bytes))
            (k.read28_gives _ _ superblock_sec _ (malloc_sector m k [] fs.world h (omega arith)).1
                (omega arith)
              ∙ k.content-malloc fs.world sector_size superblock_sec
              ∙ e)
          ∙ ap decode_superblock (
              slice-blit clear_buffer 0 superblock_bytes (encode_superblock sb)
                (omega (arith, length-replicate {A = ℕ} 512 0)) (length-encode_superblock sb v))
          ∙ decode-encode_superblock sb v))

  pub load_superblock-Loaded :
      (fs : FileSystem m)
      → Holding [] fs.world
      → Loaded fs.world (read_world fs.world superblock_sec)
  load_superblock-Loaded fs h = read_world-Loaded fs.world superblock_sec h (omega arith)

  module _ (saved : List Inode) (v : AllInodes saved) where
    load_sectors-Holding :
        (ps : List ℕ) (n sector : ℕ) (w : World) (buf : List ℕ) (inodes : List Inode)
        → Holding ps w
        → sector + n ≤ 8
        → Holding ps (load_sectors m n sector w buf inodes).1
    unfolding load_sectors
    load_sectors-Holding ps zero sector w buf inodes h hs = h
    load_sectors-Holding ps (suc n) sector w buf inodes h hs =
        load_sectors-Holding ps n (sector + 1) _ _ _ (k.read_keeps ps w _ buf h (omega arith))
          (omega arith)

    content-load_sectors :
        (ps : List ℕ) (n sector : ℕ) (w : World) (buf : List ℕ) (inodes : List Inode) (t : ℕ)
        → Holding ps w
        → sector + n ≤ 8
        → content (load_sectors m n sector w buf inodes).1 t ≡ content w t
    unfolding load_sectors
    content-load_sectors ps zero sector w buf inodes t h hs = refl
    content-load_sectors ps (suc n) sector w buf inodes t h hs =
        content-load_sectors ps n (sector + 1) _ _ _ t (k.read_keeps ps w _ buf h (omega arith))
          (omega arith)
        ∙ k.content-read28 ps w _ buf t h (omega arith)

    length-load_sectors :
        (n sector : ℕ) (w : World) (buf : List ℕ) (inodes : List Inode)
        → sector + n ≤ 8
        → length (load_sectors m n sector w buf inodes).0 ≡ length inodes
    unfolding load_sectors
    length-load_sectors zero sector w buf inodes hs = refl
    length-load_sectors (suc n) sector w buf inodes hs =
        length-load_sectors n (sector + 1) _ _ _ (omega arith)
        ∙ length-load_inodes 8 0 sector _ inodes (omega arith) (omega arith)

    load_sectors_other :
        (n sector : ℕ) (w : World) (buf : List ℕ) (inodes : List Inode) (j : ℕ)
        → sector + n ≤ 8
        → j < sector * 8
        → at (load_sectors m n sector w buf inodes).0 j ≡ at inodes j
    unfolding load_sectors
    load_sectors_other zero sector w buf inodes j hs lt = refl
    load_sectors_other (suc n) sector w buf inodes j hs lt =
        load_sectors_other n (sector + 1) _ _ _ j (omega arith) (omega arith)
        ∙ load_inodes_other 8 0 sector _ inodes j (omega arith) (omega arith) (inl (omega arith))

    StoresTable-read :
        (ps : List ℕ) (w : World) (s : ℕ) (b : List ℕ)
        → Holding ps w
        → s < 2 ^ 28
        → StoresTable m k w saved
        → StoresTable m k (read28 w s b).1 saved
    StoresTable-read ps w s b h hs st j lt = k.content-read28 ps w s b (2 + j) h hs ∙ st j lt

    at-load_sectors :
        (ps : List ℕ) (n sector : ℕ) (w : World) (buf : List ℕ) (inodes : List Inode) (j : ℕ)
        → Holding ps w
        → sector + n ≤ 8
        → length inodes ≡ 64
        → StoresTable m k w saved
        → sector * 8 ≤ j
        → j < (sector + n) * 8
        → at (load_sectors m n sector w buf inodes).0 j ≡ at saved j
    unfolding load_sectors
    at-load_sectors ps zero sector w buf inodes j h hs e st le lt = absurd (omega arith)
    at-load_sectors ps (suc n) sector w buf inodes j h hs e st le lt =
        elim (lt_cases j (sector * 8 + 8)) [
          | inl here ↦
              load_sectors_other n (sector + 1) _ _ _ j (omega arith) (omega arith)
              ∙ at-load_inodes sector (omega arith) saved v _
                  (k.read28_gives ps w (inode_start_sec + sector) buf h (omega arith)
                    ∙ st sector (omega arith))
                  8 0 inodes j (omega arith) e (omega arith) (omega arith)
          | inr (inl next) ↦
              at-load_sectors ps n (sector + 1) _ _ _ j (k.read_keeps ps w _ buf h (omega arith))
                (omega arith)
                (length-load_inodes 8 0 sector _ inodes (omega arith) (omega arith) ∙ e)
                (StoresTable-read ps w _ buf h (omega arith) st) (omega arith) (omega arith)
          | inr (inr above) ↦
              at-load_sectors ps n (sector + 1) _ _ _ j (k.read_keeps ps w _ buf h (omega arith))
                (omega arith)
                (length-load_inodes 8 0 sector _ inodes (omega arith) (omega arith) ∙ e)
                (StoresTable-read ps w _ buf h (omega arith) st) (omega arith) (omega arith)
        ]

    abbrev pub loaded_world : World → List Inode → World
    loaded_world w inodes =
        let (p, w') = malloc w sector_size in free (load_sectors m 8 0 w' (stale w' p) inodes).1 p

    -- A stored inode table is loaded as it was saved.
    pub load_inode_table-eq :
        (fs : FileSystem m)
        → Holding [] fs.world
        → length fs.inodes ≡ 64
        → length saved ≡ 64
        → StoresTable m k fs.world saved
        → load_inode_table m fs
          ≡ record fs { inodes = saved; world = loaded_world fs.world fs.inodes }
    unfolding load_inode_table
    load_inode_table-eq fs h e e' st =
        rw (granted m k [] fs.world (omega arith) h)
          (ap (λ xs. record fs { inodes = xs; world = loaded_world fs.world fs.inodes }) back)
      where
        w' : World
        w' = (malloc fs.world sector_size).1

        buf : List ℕ
        buf = stale w' (malloc fs.world sector_size).0

        st' : StoresTable m k w' saved
        st' j lt = k.content-malloc fs.world sector_size (2 + j) ∙ st j lt

        len : length (load_sectors m 8 0 w' buf fs.inodes).0 ≡ 64
        len = length-load_sectors 8 0 w' buf fs.inodes (omega arith) ∙ e

        back : (load_sectors m 8 0 w' buf fs.inodes).0 ≡ saved
        back = get_or_ext blank _ saved (len ∙ sym e') λ j lt.
            at-load_sectors _ 8 0 w' buf fs.inodes j
              (malloc_sector m k [] fs.world h (omega arith)).1 (omega arith) e st' (omega arith)
              (omega (arith, len))

    pub load_inode_table-Loaded :
        (fs : FileSystem m)
        → Holding [] fs.world
        → Loaded fs.world (loaded_world fs.world fs.inodes)
    load_inode_table-Loaded fs h = record {
      holding = k.free_returns _ [] _ (
          load_sectors-Holding _ 8 0 _ _ fs.inodes (malloc_sector m k [] fs.world h (omega arith)).1
            (omega arith));
      same_disk = λ t.
          k.content-free _ _ t
          ∙ content-load_sectors _ 8 0 _ _ fs.inodes t
              (malloc_sector m k [] fs.world h (omega arith)).1 (omega arith)
          ∙ k.content-malloc fs.world sector_size t;
    }
