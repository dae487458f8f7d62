-- ===== src/Filesystem/Writing.antt =====
-- The loop of `WriteFile` on a working machine.
use hydra_os.Common.{
  ℕ, zero, suc, ◌+◌, ◌-◌, ◌*◌, ◌/◌, ◌%◌, ◌^◌, ◌≤◌, ◌<◌, ◌≡◌, ◌∙◌, ◌⊎◌, inl, inr, refl, ap, Bool,
  true, false, List, length, get_or, arith, lt_cases, ◌==◌, if◌then◌else◌, u32,
}
use hydra_os.Common.ByteLists.{IsBytes}
use hydra_os.Filesystem.Layout.{superblock_sec}
use hydra_os.Filesystem.Codec.{IsSuperblock}
use hydra_os.Filesystem.Machine.{Machine, Working}
use hydra_os.Filesystem.Store.{FileSystem}
use hydra_os.Filesystem.Data.{write_count, next_sector, write_loop}
use hydra_os.Filesystem.Allocating.{
  chunk, length-chunk, chunk-IsBytes, get_or-chunk, write_count_lem, Shown, Quiet,
  next_sector-Quiet,
}

module _ (m : Machine) (k : Working m) where
  open m use {World, write28}
  open k use {Holding, content}

  -- The `n` sectors from the `i`-th on hold the bytes of `buffer` up to `size`; no data sector
  -- but these has changed.
  pub record Wrote (ps : List ℕ) (fs fs' : FileSystem m) (start i n : ℕ) (buffer : List ℕ)
      (size : ℕ) : Type 0 where
    pub holding : Holding ps fs'.world
    pub table : fs'.inodes ≡ fs.inodes
    pub stays : fs'.mounted ≡ fs.mounted
    pub super : IsSuperblock fs'.superblock
    pub stored : Shown m k fs → Shown m k fs'
    pub others :
        (t : ℕ)
        → 10 ≤ t
        → (t < start + i) ⊎ (start + i + n ≤ t)
        → content fs'.world t ≡ content fs.world t
    pub bytes :
        (q : ℕ)
        → 512 * i ≤ q
        → q < size
        → q < 512 * (i + n)
        → get_or (content fs'.world (start + q / 512)) (q % 512) 0 ≡ get_or buffer q 0

  Wrote-join :
      (ps : List ℕ) (fs fs1 fs2 : FileSystem m) (start i n : ℕ) (buffer : List ℕ) (size : ℕ)
      → 10 ≤ start
      → Wrote ps fs fs1 start i 1 buffer size
      → Wrote ps fs1 fs2 start (i + 1) n buffer size
      → Wrote ps fs fs2 start i (suc n) buffer size
  Wrote-join ps fs fs1 fs2 start i n buffer size low a b = record {
    holding = b.holding;
    table = b.table ∙ a.table;
    stays = b.stays ∙ a.stays;
    super = b.super;
    stored = λ e. b.stored (a.stored e);
    others = λ t le out. b.others t le (ground arith) ∙ a.others t le (ground arith);
    bytes = λ q ge lt end. elim (lt_cases q (512 * (i + 1))) [
      | inl here ↦
          ap (λ s. get_or s (q % 512) 0)
            (b.others (start + q / 512) (omega arith) (inl (omega arith)))
          ∙ a.bytes q ge lt (omega arith)
      | inr (inl next) ↦ b.bytes q (omega arith) lt (omega arith)
      | inr (inr later) ↦ b.bytes q (omega arith) lt (omega arith)
    ];
  }

  -- One round of the loop.
  put : ℕ → ℕ → List ℕ → FileSystem m → FileSystem m
  put i start bytes fs = record (next_sector m i fs) {
    world = write28 (next_sector m i fs).world (u32 (start + i)) bytes;
  }

  put_sector :
      (ps : List ℕ) (i start t : ℕ) (bytes : List ℕ) (fs : FileSystem m)
      → length ps < 2
      → Holding ps fs.world
      → IsSuperblock fs.superblock
      → start + i < 2 ^ 28
      → length bytes ≡ 512
      → IsBytes bytes
      → content (put i start bytes fs).world t
        ≡ (if t == start + i then bytes else content (next_sector m i fs).world t)
  unfolding put
  put_sector ps i start t bytes fs room h lb lt e v =
      ap (λ n. content (write28 (next_sector m i fs).world n bytes) t)
        (same (start + i) (omega arith))
      ∙ k.content-write28 ps _ (start + i) bytes t (next_sector-Quiet m k ps i fs room h lb).holding
          lt e v
    where
      same : (n : ℕ) → n < 2 ^ 32 → u32 n ≡ n
      same n lt = omega arith

  put-content :
      (ps : List ℕ) (i start t : ℕ) (bytes : List ℕ) (fs : FileSystem m)
      → length ps < 2
      → Holding ps fs.world
      → IsSuperblock fs.superblock
      → start + i < 2 ^ 28
      → length bytes ≡ 512
      → IsBytes bytes
      → 10 ≤ t
      → content (put i start bytes fs).world t
        ≡ (if t == start + i then bytes else content fs.world t)
  put-content ps i start t bytes fs room h lb lt e v low =
      put_sector ps i start t bytes fs room h lb lt e v
      ∙ ap (λ c. if t == start + i then bytes else c)
          ((next_sector-Quiet m k ps i fs room h lb).sectors t low)

  put-Wrote :
      (ps : List ℕ) (i start done count size : ℕ) (buffer : List ℕ) (fs : FileSystem m)
      → length ps < 2
      → Holding ps fs.world
      → IsSuperblock fs.superblock
      → IsBytes buffer
      → start + i < 2 ^ 28
      → 10 ≤ start
      → done ≡ 512 * i
      → (count ≡ 512) ⊎ (count ≡ size - done)
      → count ≤ 512
      → Wrote ps fs (put i start (chunk buffer done count) fs) start i 1 buffer size
  put-Wrote ps i start done count size buffer fs room h lb vb lt low e counts le = record {
    holding =
        unfold put in
        k.write_keeps ps _ _ _ quiet.holding (omega arith) (length-chunk buffer done count)
          (chunk-IsBytes buffer done count vb);
    table = unfold put in quiet.table;
    stays = unfold put in quiet.stays;
    super = unfold put in quiet.super;
    stored = λ e. before_all ∙ (unfold put in quiet.stored e);
    others = λ t ge out. at t ge ∙ ap (picks t) (apart t out);
    bytes = λ q ge below end.
        ap (λ s. get_or s (q % 512) 0)
          (at (start + q / 512) (omega arith)
            ∙ ap (picks (start + q / 512)) (here (start + q / 512) (omega arith)))
        ∙ get_or-chunk buffer done count (q % 512) le (ground arith)
        ∙ ap (λ n. get_or buffer n 0) (omega arith);
  }
    where
      quiet : Quiet m k ps fs (next_sector m i fs)
      quiet = next_sector-Quiet m k ps i fs room h lb

      picks : ℕ → Bool → List ℕ
      picks t b = if b then chunk buffer done count else content fs.world t

      at :
          (t : ℕ)
          → 10 ≤ t
          → content (put i start (chunk buffer done count) fs).world t ≡ picks t (t == start + i)
      at t ge =
          put-content ps i start t (chunk buffer done count) fs room h lb lt
            (length-chunk buffer done count) (chunk-IsBytes buffer done count vb) ge

      here : (t : ℕ) → t ≡ start + i → (t == start + i) ≡ true
      here t e = ground arith

      apart : (t : ℕ) → (t < start + i) ⊎ (start + i + 1 ≤ t) → (t == start + i) ≡ false
      apart t out = ground arith

      before_all :
          content (put i start (chunk buffer done count) fs).world superblock_sec
          ≡ content (next_sector m i fs).world superblock_sec
      before_all =
          put_sector ps i start superblock_sec (chunk buffer done count) fs room h lb lt
            (length-chunk buffer done count) (chunk-IsBytes buffer done count vb)
          ∙ ap
              (λ b.
                if b
                then chunk buffer done count
                else content (next_sector m i fs).world superblock_sec)
              (apart superblock_sec (inl (omega arith)))

  pub write_loop-Wrote :
      (ps : List ℕ) (n i start size done : ℕ) (buffer : List ℕ) (fs : FileSystem m)
      → length ps < 2
      → Holding ps fs.world
      → IsSuperblock fs.superblock
      → IsBytes buffer
      → start + i + n ≤ 2 ^ 28
      → 10 ≤ start
      → size + 511 < 2 ^ 32
      → (0 < n → (done ≡ 512 * i) × (512 * (i + n) < size + 512))
      → Wrote ps fs (write_loop m n i start buffer size done fs).1 start i n buffer size
  unfolding write_loop chunk put
  write_loop-Wrote ps zero i start size done buffer fs room h lb vb space low small at = record {
    holding = h;
    table = refl;
    stays = refl;
    super = lb;
    stored = λ e. e;
    others = λ t ge out. refl;
    bytes = λ q ge lt end. absurd (omega arith);
  }
  write_loop-Wrote ps (suc n) i start size done buffer fs room h lb vb space low small at =
      Wrote-join ps fs _ _ start i n buffer size low first (
        write_loop-Wrote ps n (i + 1) start size _ buffer _ room first.holding first.super vb
          (omega arith) low small next)
    where
      here : (done ≡ 512 * i) × (512 * (i + suc n) < size + 512)
      here = at (omega arith)

      count :
          (write_count done size ≡ 512 × (done + 512 ≤ size))
          ⊎ ((write_count done size ≡ size - done) × (size < done + 512))
      count = write_count_lem done size (omega (arith, here.0, here.1)) small

      first :
          Wrote ps fs
            (put i start (chunk buffer done (write_count done size)) fs)
            start
            i
            1
            buffer
            size
      first =
          put-Wrote ps i start done (write_count done size) size buffer fs room h lb vb
            (omega arith) low here.0 (ground (arith, count)) (ground (arith, count))

      next :
          0 < n
          → (u32 (done + write_count done size) ≡ 512 * (i + 1)) × (512 * (i + 1 + n) < size + 512)
      next more = ground (arith, count, here)

  -- All bytes are written.
  pub write_loop-done :
      (n i start size done : ℕ) (buffer : List ℕ) (fs : FileSystem m)
      → size + 511 < 2 ^ 32
      → (0 < n → (done ≡ 512 * i) × (512 * (i + n) < size + 512))
      → size ≤ 512 * (i + n)
      → (n ≡ 0 → done ≡ size)
      → (write_loop m n i start buffer size done fs).0 ≡ size
  unfolding write_loop
  write_loop-done zero i start size done buffer fs small at end all = all refl
  write_loop-done (suc n) i start size done buffer fs small at end all =
      write_loop-done n (i + 1) start size _ buffer _ small (λ more. ground (arith, count, here))
        (omega arith) (λ e. ground (arith, count, here))
    where
      here : (done ≡ 512 * i) × (512 * (i + suc n) < size + 512)
      here = at (omega arith)

      count :
          (write_count done size ≡ 512 × (done + 512 ≤ size))
          ⊎ ((write_count done size ≡ size - done) × (size < done + 512))
      count = write_count_lem done size (omega (arith, here.0, here.1)) small
