-- ===== src/Filesystem/Allocating.antt =====
-- The sectors that `WriteFile` takes and the bytes that it puts into them.
use hydra_os.Common.{
  ℕ, ◌+◌, ◌-◌, ◌^◌, ◌≤◌, ◌<◌, ◌≡◌, ◌∙◌, ◌⊎◌, refl, sym, ap, subst, Bool, true, false, List, length,
  get_or, length-replicate, arith, ltb, if◌then◌else◌, u32,
}
use hydra_os.Common.ByteLists.{IsBytes}
use hydra_os.Filesystem.Images.{blit-IsBytes, slice-IsBytes, clear_buffer-IsBytes}
use hydra_os.Filesystem.Layout.{superblock_sec, blit, slice, clear_buffer}
use hydra_os.Filesystem.Codec.{IsSuperblock}
use hydra_os.Filesystem.Buffers.{length-blit, length-slice, get_or-blit_inside, get_or-slice}
use hydra_os.Filesystem.Machine.{Machine, Working}
use hydra_os.Filesystem.Store.{FileSystem, allocate_sector, save_superblock}
use hydra_os.Filesystem.Data.{write_count, next_sector}
use hydra_os.Filesystem.Persist.{superblock_image, Saved, save_superblock-Saved}

-- The bytes that go into a sector.
unfoldable pub chunk : List ℕ → ℕ → ℕ → List ℕ
chunk buffer done count = blit clear_buffer 0 (slice buffer done count)

pub length-chunk : (buffer : List ℕ) (done count : ℕ) → length (chunk buffer done count) ≡ 512
unfolding chunk
length-chunk buffer done count = length-blit clear_buffer 0 _ ∙ length-replicate {A = ℕ} 512 0

pub chunk-IsBytes :
    (buffer : List ℕ) (done count : ℕ) → IsBytes buffer → IsBytes (chunk buffer done count)
unfolding chunk
chunk-IsBytes buffer done count v =
    blit-IsBytes clear_buffer 0 _ clear_buffer-IsBytes (slice-IsBytes buffer done count v)

pub get_or-chunk :
    (buffer : List ℕ) (done count j : ℕ)
    → count ≤ 512
    → j < count
    → get_or (chunk buffer done count) j 0 ≡ get_or buffer (done + j) 0
unfolding chunk
get_or-chunk buffer done count j le lt =
    ap (λ n. get_or (chunk buffer done count) n 0) {y = 0 + j} (omega arith)
    ∙ get_or-blit_inside clear_buffer 0 (slice buffer done count) j
        (omega (arith, length-slice buffer done count, length-replicate {A = ℕ} 512 0))
        (omega (arith, length-slice buffer done count))
    ∙ get_or-slice buffer done count j lt

pub write_count_lem :
    (done size : ℕ)
    → done < size
    → size + 511 < 2 ^ 32
    → (write_count done size ≡ 512 × (done + 512 ≤ size))
      ⊎ ((write_count done size ≡ size - done) × (size < done + 512))
unfolding write_count
write_count_lem done size le lt = ground arith

module _ (m : Machine) (k : Working m) where
  open m use {World, write28}
  open k use {Holding, content}

  -- The disk holds the superblock.
  abbrev pub Shown : FileSystem m → Type 0
  Shown fs = content fs.world superblock_sec ≡ superblock_image m k fs.superblock

  -- `fs'` differs from `fs` in the superblock and below the data sectors alone.
  pub record Quiet (ps : List ℕ) (fs fs' : FileSystem m) : Type 0 where
    pub holding : Holding ps fs'.world
    pub table : fs'.inodes ≡ fs.inodes
    pub stays : fs'.mounted ≡ fs.mounted
    pub super : IsSuperblock fs'.superblock
    pub stored : Shown fs → Shown fs'
    pub sectors : (t : ℕ) → 10 ≤ t → content fs'.world t ≡ content fs.world t

  pub allocate_sector-Quiet :
      (ps : List ℕ) (fs : FileSystem m)
      → length ps < 2
      → Holding ps fs.world
      → IsSuperblock fs.superblock
      → Quiet ps fs (allocate_sector m fs).1
  unfolding allocate_sector
  allocate_sector-Quiet ps fs room h lb = record {
    holding = s.holding;
    table = ap (λ (g : FileSystem m). g.inodes) s.fields;
    stays = ap (λ (g : FileSystem m). g.mounted) s.fields;
    super = subst IsSuperblock (sym same) good;
    stored = λ e. s.sector ∙ ap (superblock_image m k) (sym same);
    sectors = λ t le. s.others t (λ e. absurd (omega arith));
  }
    where
      counted : FileSystem m
      counted = record fs {
        superblock = record (fs.superblock) { used_sectors = u32 (fs.superblock.used_sectors + 1) };
      }

      good : IsSuperblock counted.superblock
      good = record {
        magic_lt = lb.magic_lt;
        total_lt = lb.total_lt;
        used_lt = omega arith;
        count_lt = lb.count_lt;
        label_len = lb.label_len;
        label_bytes = lb.label_bytes;
      }

      s :
          Saved m k ps counted
            (save_superblock m counted)
            superblock_sec
            (superblock_image m k counted.superblock)
      s = save_superblock-Saved m k ps counted room h good.label_bytes

      same : (save_superblock m counted).superblock ≡ counted.superblock
      same = ap (λ (g : FileSystem m). g.superblock) s.fields

  pub next_sector-Quiet :
      (ps : List ℕ) (i : ℕ) (fs : FileSystem m)
      → length ps < 2
      → Holding ps fs.world
      → IsSuperblock fs.superblock
      → Quiet ps fs (next_sector m i fs)
  unfolding next_sector
  next_sector-Quiet ps i fs room h lb = picks (ltb 0 i)
    where
      picks : (b : Bool) → Quiet ps fs (if b then (allocate_sector m fs).1 else fs)
      picks true = allocate_sector-Quiet ps fs room h lb
      picks false = record {
        holding = h;
        table = refl;
        stays = refl;
        super = lb;
        stored = λ e. e;
        sectors = λ t le. refl;
      }
