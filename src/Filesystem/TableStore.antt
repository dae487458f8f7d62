-- ===== src/Filesystem/TableStore.antt =====
-- The inode table on disk: `SaveInodeTable` and `LoadInodeTable` on a working machine.
use hydra_os.Common.{
  ℕ, zero, suc, ◌+◌, ◌≤◌, ◌<◌, ◌≡◌, ◌∙◌, ◌⊎◌, inl, inr, refl, sym, ap, subst, true, List, length,
  arith, lt_cases, ◌==◌, if◌then◌else◌,
}
use hydra_os.Filesystem.Layout.{Inode, sector_size, inode_start_sec, clear_buffer}
use hydra_os.Filesystem.Machine.{Machine, Working, malloc_sector}
use hydra_os.Filesystem.Store.{FileSystem, save_sectors, save_inode_table, fill_inodes}
use hydra_os.Filesystem.Table.{AllInodes, length-image}
use hydra_os.Filesystem.Images.{table-IsBytes}
use hydra_os.Filesystem.Persist.{differs, granted}

module _ (m : Machine) (k : Working m) where
  open m use {World, malloc, free, stale, read28, write28}
  open k use {Holding, content}

  -- The disk holds the inode table `saved`.
  abbrev pub StoresTable : World → List Inode → Type 0
  StoresTable w saved =
      (j : ℕ) → j < 8 → content w (inode_start_sec + j) ≡ fill_inodes 8 0 j saved clear_buffer

  module _ (saved : List Inode) (v : AllInodes saved) where
    one_sector-Holding :
        (ps : List ℕ) (sector : ℕ) (w : World)
        → Holding ps w
        → sector < 8
        → Holding ps
            (write28 w (inode_start_sec + sector) (fill_inodes 8 0 sector saved clear_buffer))
    one_sector-Holding ps sector w h hs =
        k.write_keeps ps w (inode_start_sec + sector) _ h (omega arith)
          (length-image sector hs saved v) (table-IsBytes sector saved v)

    save_sectors-Holding :
        (ps : List ℕ) (n sector : ℕ) (w : World)
        → Holding ps w
        → sector + n ≤ 8
        → Holding ps (save_sectors m n sector saved w)
    unfolding save_sectors
    save_sectors-Holding ps zero sector w h hs = h
    save_sectors-Holding ps (suc n) sector w h hs =
        save_sectors-Holding ps n (sector + 1) _ (one_sector-Holding ps sector w h (omega arith))
          (omega arith)

    one_sector :
        (ps : List ℕ) (sector t : ℕ) (w : World)
        → Holding ps w
        → sector < 8
        → content
            (write28 w (inode_start_sec + sector) (fill_inodes 8 0 sector saved clear_buffer))
            t
          ≡ (if t == inode_start_sec + sector
              then fill_inodes 8 0 sector saved clear_buffer
              else content w t)
    one_sector ps sector t w h hs =
        k.content-write28 ps w (inode_start_sec + sector) _ t h (omega arith)
          (length-image sector hs saved v) (table-IsBytes sector saved v)

    save_sectors_other :
        (ps : List ℕ) (n sector t : ℕ) (w : World)
        → Holding ps w
        → sector + n ≤ 8
        → (t < inode_start_sec + sector) ⊎ (inode_start_sec + sector + n ≤ t)
        → content (save_sectors m n sector saved w) t ≡ content w t
    unfolding save_sectors
    save_sectors_other ps zero sector t w held hs h = refl
    save_sectors_other ps (suc n) sector t w held hs h =
        save_sectors_other ps n (sector + 1) t _ (one_sector-Holding ps sector w held (omega arith))
          (omega arith) (ground arith)
        ∙ one_sector ps sector t w held (omega arith)
        ∙ ap (λ c. if c then fill_inodes 8 0 sector saved clear_buffer else content w t)
            (differs m k t (inode_start_sec + sector) (ground arith))

    save_sectors_at :
        (ps : List ℕ) (n sector j : ℕ) (w : World)
        → Holding ps w
        → sector + n ≤ 8
        → sector ≤ j
        → j < sector + n
        → content (save_sectors m n sector saved w) (inode_start_sec + j)
          ≡ fill_inodes 8 0 j saved clear_buffer
    unfolding save_sectors
    save_sectors_at ps zero sector j w held hs le lt = absurd (omega arith)
    save_sectors_at ps (suc n) sector j w held hs le lt = elim (lt_cases sector j) [
      | inl above ↦
          save_sectors_at ps n (sector + 1) j _ (one_sector-Holding ps sector w held (omega arith))
            (omega arith) (omega arith) (omega arith)
      | inr (inl here) ↦
          save_sectors_other ps n (sector + 1) (inode_start_sec + j) _
            (one_sector-Holding ps sector w held (omega arith)) (omega arith) (inl (omega arith))
          ∙ one_sector ps sector (inode_start_sec + j) w held (omega arith)
          ∙ ap
              (λ c.
                if c
                then fill_inodes 8 0 sector saved clear_buffer
                else content w (inode_start_sec + j))
              (same (inode_start_sec + j) (inode_start_sec + sector) (omega arith))
          ∙ ap (λ i. fill_inodes 8 0 i saved clear_buffer) here
      | inr (inr below) ↦ absurd (omega arith)
    ]
      where
        same : (s t : ℕ) → s ≡ t → (s == t) ≡ true
        same s t e = ground arith

    -- The world that `SaveInodeTable` leaves.
    abbrev pub table_saved : World → World
    table_saved w =
        free (save_sectors m 8 0 saved (malloc w sector_size).1) (malloc w sector_size).0

    save_inode_table-eq :
        (ps : List ℕ) (fs : FileSystem m)
        → length ps < 2
        → Holding ps fs.world
        → fs.inodes ≡ saved
        → save_inode_table m fs ≡ record fs { world = table_saved fs.world }
    unfolding save_inode_table
    save_inode_table-eq ps fs room h e = rw (granted m k ps fs.world room h) (
        ap
          (λ xs. record fs {
            world =
                free (save_sectors m 8 0 xs (malloc fs.world sector_size).1)
                  (malloc fs.world sector_size).0;
          })
          e)

  pub record TableSaved (ps : List ℕ) (fs fs' : FileSystem m) : Type 0 where
    pub holding : Holding ps fs'.world
    pub stores : StoresTable fs'.world fs.inodes
    pub others : (t : ℕ) → (t < 2) ⊎ (10 ≤ t) → content fs'.world t ≡ content fs.world t
    pub fields : fs' ≡ record fs { world = fs'.world }

  -- A saved inode table stands in its eight sectors, and no other sector changes.
  pub save_inode_table-TableSaved :
      (ps : List ℕ) (fs : FileSystem m)
      → length ps < 2
      → Holding ps fs.world
      → AllInodes fs.inodes
      → TableSaved ps fs (save_inode_table m fs)
  save_inode_table-TableSaved ps fs room h v =
      subst (TableSaved ps fs) (sym (save_inode_table-eq fs.inodes v ps fs room h refl)) (record {
        holding = k.free_returns _ ps _ (
            save_sectors-Holding fs.inodes v _ 8 0 _ (malloc_sector m k ps fs.world h room).1
              (omega arith));
        stores = λ j lt.
            k.content-free _ _ (inode_start_sec + j)
            ∙ save_sectors_at fs.inodes v _ 8 0 j _ (malloc_sector m k ps fs.world h room).1
                (omega arith) (omega arith) (omega arith);
        others = λ t out.
            k.content-free _ _ t
            ∙ save_sectors_other fs.inodes v _ 8 0 t _ (malloc_sector m k ps fs.world h room).1
                (omega arith) (ground arith)
            ∙ k.content-malloc fs.world sector_size t;
        fields = refl;
      })
