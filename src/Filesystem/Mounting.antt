-- ===== src/Filesystem/Mounting.antt =====
-- `Format`, `Unmount` and `Mount`: the disk carries a file system from one boot to the next.
use hydra_os.Common.{
  ℕ, ◌+◌, ◌≤◌, ◌≡◌, ◌∙◌, inl, inr, refl, sym, ap, subst, Bool, true, false, not, List, [], length,
  arith, ◌==◌, if◌then◌else◌,
}
use hydra_os.Common.ByteLists.{IsBytes}
use hydra_os.Filesystem.Layout.{Inode, Superblock, superblock_sec, magic_number}
use hydra_os.Filesystem.Codec.{IsSuperblock}
use hydra_os.Filesystem.Machine.{Machine, Working}
use hydra_os.Filesystem.Store.{FileSystem, load_inode_table, save_superblock, save_inode_table}
use hydra_os.Filesystem.Files.{mount, unmount}
use hydra_os.Filesystem.Table.{AllInodes}
use hydra_os.Filesystem.Persist.{superblock_image, save_superblock-Saved, Saved}
use hydra_os.Filesystem.TableStore.{StoresTable, save_inode_table-TableSaved, TableSaved}
use hydra_os.Filesystem.TableLoad.{
  Loaded, read_world, loaded_world, load_superblock-eq, load_superblock-Loaded, load_inode_table-eq,
  load_inode_table-Loaded,
}

module _ (m : Machine) (k : Working m) where
  open m use {World}
  open k use {Holding, content}

  -- A file system whose fields fit their types, between two calls.
  pub record IsValid (fs : FileSystem m) : Type 0 where
    pub ready : Holding [] fs.world
    pub table_len : length fs.inodes ≡ 64
    pub table : AllInodes fs.inodes
    pub super : IsSuperblock fs.superblock

  -- The disk of `w` holds this superblock and this inode table.
  pub record Stores (w : World) (sb : Superblock) (inodes : List Inode) : Type 0 where
    pub super : content w superblock_sec ≡ superblock_image m k sb
    pub table : StoresTable m k w inodes

  -- `fs'` was made from `fs` by writing its superblock and its inode table to the disk.
  pub record IsSaved (fs fs' : FileSystem m) : Type 0 where
    pub ready : Holding [] fs'.world
    pub stores : Stores fs'.world fs.superblock fs.inodes
    pub fields : fs' ≡ record fs { world = fs'.world }
    pub data_sectors : (t : ℕ) → 10 ≤ t → content fs'.world t ≡ content fs.world t

  -- Superblock first, as in `Format` and `Unmount`.
  pub save_both :
      (fs : FileSystem m) → IsValid fs → IsSaved fs (save_inode_table m (save_superblock m fs))
  save_both fs v = record {
    ready = t.holding;
    stores = record {
      super = t.others superblock_sec (inl (omega arith)) ∙ s.sector;
      table = subst (StoresTable m k (save_inode_table m fs1).world) same t.stores;
    };
    fields =
        t.fields
        ∙ ap (λ (g : FileSystem m). record g { world = (save_inode_table m fs1).world }) s.fields;
    data_sectors = λ n le. t.others n (inr le) ∙ s.others n (omega arith);
  }
    where
      fs1 : FileSystem m
      fs1 = save_superblock m fs

      s : Saved m k [] fs fs1 superblock_sec (superblock_image m k fs.superblock)
      s = save_superblock-Saved m k [] fs (omega arith) v.ready v.super.label_bytes

      same : fs1.inodes ≡ fs.inodes
      same = ap (λ (g : FileSystem m). g.inodes) s.fields

      t : TableSaved m k [] fs1 (save_inode_table m fs1)
      t =
          save_inode_table-TableSaved m k [] fs1 (omega arith) s.holding
            (subst AllInodes (sym same) v.table)

  -- The inode table first, as in `CreateFile` and `DeleteFile`.
  pub save_table_first :
      (fs : FileSystem m) → IsValid fs → IsSaved fs (save_superblock m (save_inode_table m fs))
  save_table_first fs v = record {
    ready = s.holding;
    stores = record {
      super = s.sector ∙ ap (superblock_image m k) same;
      table = λ j lt. s.others (2 + j) (omega arith) ∙ t.stores j lt;
    };
    fields =
        s.fields
        ∙ ap (λ (g : FileSystem m). record g { world = (save_superblock m fs1).world }) t.fields;
    data_sectors = λ n le. s.others n (omega arith) ∙ t.others n (inr le);
  }
    where
      fs1 : FileSystem m
      fs1 = save_inode_table m fs

      t : TableSaved m k [] fs fs1
      t = save_inode_table-TableSaved m k [] fs (omega arith) v.ready v.table

      same : fs1.superblock ≡ fs.superblock
      same = ap (λ (g : FileSystem m). g.superblock) t.fields

      s :
          Saved m k [] fs1
            (save_superblock m fs1)
            superblock_sec
            (superblock_image m k fs1.superblock)
      s =
          save_superblock-Saved m k [] fs1 (omega arith) t.holding
            (subst (λ (sb : Superblock). IsBytes sb.label) (sym same) v.super.label_bytes)

  -- A mounted file system that shows what the disk holds.
  pub record IsMounted (fs : FileSystem m) (sb : Superblock) (inodes : List Inode) : Type 0 where
    pub is_mounted : fs.mounted ≡ true
    pub shows_super : fs.superblock ≡ sb
    pub shows_table : fs.inodes ≡ inodes
    pub ready : Holding [] fs.world
    pub disk : Stores fs.world sb inodes

  pub mount-Stores :
      (fs : FileSystem m) (sb : Superblock) (saved : List Inode)
      → Holding [] fs.world
      → length fs.inodes ≡ 64
      → length saved ≡ 64
      → AllInodes saved
      → IsSuperblock sb
      → sb.magic ≡ magic_number
      → Stores fs.world sb saved
      → ((mount m fs).0 ≡ true) × IsMounted (mount m fs).1 sb saved
  mount-Stores fs sb saved h e e' v vs right st =
      subst (λ (r : Bool × FileSystem m). (r.0 ≡ true) × IsMounted r.1 sb saved) (sym mounts)
        (
          refl,
          record {
            is_mounted = refl;
            shows_super = refl;
            shows_table = refl;
            ready = l2.holding;
            disk = record {
              super = l2.same_disk superblock_sec ∙ l1.same_disk superblock_sec ∙ st.super;
              table = λ j lt. l2.same_disk (2 + j) ∙ st1 j lt;
            };
          },
        )
    where
      fs1 : FileSystem m
      fs1 = record fs { superblock = sb; world = read_world m k fs.world superblock_sec }

      l1 : Loaded m k fs.world fs1.world
      l1 = load_superblock-Loaded m k fs h

      st1 : StoresTable m k fs1.world saved
      st1 j lt = l1.same_disk (2 + j) ∙ st.table j lt

      w2 : World
      w2 = loaded_world m k saved v fs1.world fs1.inodes

      l2 : Loaded m k fs1.world w2
      l2 = load_inode_table-Loaded m k saved v fs1 l1.holding

      after : FileSystem m → Bool × FileSystem m
      after g =
          if not (g.superblock.magic == magic_number)
          then (false, g)
          else (true, record (load_inode_table m g) { mounted = true })

      checked : (not (sb.magic == magic_number)) ≡ false
      checked = ground arith

      mounts : mount m fs ≡ (true, record fs1 { inodes = saved; world = w2; mounted = true })
      mounts =
          unfold mount in
          ap after (load_superblock-eq m k fs sb h vs st.super)
          ∙ ap
              (λ c.
                if c
                then (false, fs1)
                else (true, record (load_inode_table m fs1) { mounted = true }))
              checked
          ∙ ap (λ g. (true, record g { mounted = true }))
              (load_inode_table-eq m k saved v fs1 l1.holding e e' st1)

  -- On a working disk and heap, a valid mounted file system with the right magic number that is
  -- unmounted, and then mounted by any object with 64 inode slots on the same disk, mounts
  -- successfully with the superblock and all the inodes that it had.
  pub mount-unmount :
      (fs fresh : FileSystem m)
      → IsValid fs
      → fs.mounted ≡ true
      → fs.superblock.magic ≡ magic_number
      → fresh.world ≡ (unmount m fs).world
      → length fresh.inodes ≡ 64
      → ((mount m fresh).0 ≡ true) × IsMounted (mount m fresh).1 fs.superblock fs.inodes
  mount-unmount fs fresh v on right same_world e =
      mount-Stores fresh fs.superblock fs.inodes (subst (Holding []) (sym at_world) s.ready) e
        v.table_len v.table v.super right
        (subst (λ w. Stores w fs.superblock fs.inodes) (sym at_world) s.stores)
    where
      s : IsSaved fs (save_inode_table m (save_superblock m fs))
      s = save_both fs v

      at_world : fresh.world ≡ (save_inode_table m (save_superblock m fs)).world
      at_world =
          same_world
          ∙ unfold unmount in
            ap
              (λ c.
                (if c
                  then record (save_inode_table m (save_superblock m fs)) { mounted = false }
                  else fs).world)
              on
