-- ===== src/Filesystem/Fetching.antt =====
-- `ReadFile` gives back what `WriteFile` left.
use hydra_os.Common.{
  ℕ, ◌%◌, ◌^◌, ◌≤◌, ◌<◌, ◌≡◌, ◌∙◌, inr, sym, ap, subst, Bool, true, false, not, ◌||◌, ◌&&◌, List,
  ◌∷◌, Option, none, some, length, get_or, arith, ltb, leb, ◌==◌, if◌then◌else◌,
}
use hydra_os.Filesystem.Layout.{sector_size, max_files, type_empty}
use hydra_os.Filesystem.Machine.{Machine, Working, malloc_sector}
use hydra_os.Filesystem.Store.{FileSystem}
use hydra_os.Filesystem.Data.{
  count_result, count_result-lt, sectors_for, read_loop, read_data, read_file,
}
use hydra_os.Filesystem.Table.{at}
use hydra_os.Filesystem.Persist.{granted}
use hydra_os.Filesystem.Reading.{IsLimit, IsLimit-le, starts, byte_at, WasRead, read_loop-WasRead}
use hydra_os.Filesystem.Contents.{sectors_for_lem, HasFile, HasRoom}

module _ (m : Machine) (k : Working m) where
  open m use {World, malloc, free}
  open k use {Holding, content}

  -- What `ReadFile` leaves: `limit` bytes of `buffer` in front of what `target` held, and the disk
  -- as it was.
  pub record Shows (ps : List ℕ) (fs : FileSystem m) (limit : ℕ) (buffer target : List ℕ)
      (r : Option ℕ × List ℕ × FileSystem m) : Type 0 where
    pub same_length : length r.1 ≡ length target
    pub count : r.0 ≡ some limit
    pub read : (q : ℕ) → q < limit → get_or r.1 q 0 ≡ get_or buffer q 0
    pub rest : (q : ℕ) → limit ≤ q → get_or r.1 q 0 ≡ get_or target q 0
    pub holding : Holding ps r.2.world
    pub same_disk : (t : ℕ) → content r.2.world t ≡ content fs.world t

  module _ (ps : List ℕ) (room_for : length ps < 2) (fs : FileSystem m) (i : ℕ) (name : List ℕ)
      (start : ℕ) (buffer : List ℕ) (size : ℕ) (file : HasFile m k ps fs i name start buffer size)
      (target : List ℕ) (request limit : ℕ) (l : IsLimit limit size request) where
    -- The loop of `ReadFile` on the file.
    fetched : ℕ × List ℕ × World
    fetched =
        read_loop m (sectors_for (at fs.inodes i).size) 0 (at fs.inodes i) request 0
          (m.stale (malloc fs.world sector_size).1 (malloc fs.world sector_size).0) target
          (malloc fs.world sector_size).1

    read_data-eq :
        0 < size
        → 0 < start
        → read_data m fs (at fs.inodes i) target request ≡ (
          count_result fetched.0,
          fetched.1,
          record fs { world = free fetched.2 (malloc fs.world sector_size).0 },
        )
    unfolding read_data fetched
    read_data-eq nonempty placed =
        ap
          (λ b.
            if b
            then if (malloc fs.world sector_size).0 == 0
              then (some 0, target, record fs { world = (malloc fs.world sector_size).1 })
              else (
                count_result fetched.0,
                fetched.1,
                record fs { world = free fetched.2 (malloc fs.world sector_size).0 },
              )
            else (some 0, target, fs))
          (both (at fs.inodes i).size (at fs.inodes i).start_sector (omega (arith, file.size_is))
            (omega (arith, file.start_is)))
        ∙ ap
            (λ b.
              if b
              then (some 0, target, record fs { world = (malloc fs.world sector_size).1 })
              else (
                count_result fetched.0,
                fetched.1,
                record fs { world = free fetched.2 (malloc fs.world sector_size).0 },
              ))
            (granted m k ps fs.world room_for file.holding)
      where
        both : (a b : ℕ) → 0 < a → 0 < b → (ltb 0 a && ltb 0 b) ≡ true
        both a b p q = ground arith

    read_file-eq :
        i < 64
        → read_file m fs (some i) target request ≡ read_data m fs (at fs.inodes i) target request
    unfolding read_file
    read_file-eq lt =
        ap
          (λ b.
            if b
            then (none, target, fs)
            else if (at fs.inodes i).type == type_empty
            then (none, target, fs)
            else read_data m fs (at fs.inodes i) target request)
          (open_slot fs.mounted file.on)
        ∙ ap (λ b. if b then (none, target, fs) else read_data m fs (at fs.inodes i) target request)
            file.used
      where
        open_slot : (b : Bool) → b ≡ true → (not b || leb max_files i) ≡ false
        open_slot true e = ground arith
        open_slot false e = absurd (differ e)
          where
            differ : false ≡ true → ⊥
            differ e = cc

    pub read_file-Shows :
        HasRoom m k start size
        → i < 64
        → 0 < size
        → request < 2 ^ 32
        → limit < 2 ^ 31
        → limit ≤ length target
        → Shows ps fs limit buffer target (read_file m fs (some i) target request)
    unfolding fetched
    read_file-Shows room lt nonempty small positive fits =
        subst (Shows ps fs limit buffer target)
          (sym (read_file-eq lt ∙ read_data-eq nonempty (omega (arith, room.low))))
          record {
            same_length = r.fetched.same_length;
            count = ap count_result r.count ∙ count_result-lt limit positive;
            read = λ q below. r.fetched.inside q (omega arith) below ∙ k_bytes q below;
            rest = λ q above. r.fetched.outside q (inr above);
            holding = k.free_returns _ ps _ r.holding;
            same_disk =
                λ t. k.content-free _ _ t ∙ r.same_disk t ∙ k.content-malloc fs.world sector_size t;
          }
      where
        r :
            WasRead m k
              ((malloc fs.world sector_size).0 ∷ ps)
              (malloc fs.world sector_size).1
              (at fs.inodes i).start_sector
              0
              limit
              target
              fetched
        r =
            read_loop-WasRead m k (at fs.inodes i) request limit
              (subst (λ n. IsLimit limit n request) (sym file.size_is) l)
              (omega (arith, room.small, file.size_is)) small _ (sectors_for (at fs.inodes i).size)
              0 0 _ target _ (malloc_sector m k ps fs.world file.holding room_for).1
              (omega (arith, room.high, ap sectors_for file.size_is, file.start_is))
              (starts m k limit)
              (omega (
                arith,
                (sectors_for_lem size room.small).0,
                ap sectors_for file.size_is,
                file.size_is,
              ))
              (λ more. omega (
                arith,
                (sectors_for_lem size room.small).1
                    (omega (arith, more, ap sectors_for file.size_is)),
                ap sectors_for file.size_is,
                file.size_is,
              ))
              fits

        k_bytes :
            (q : ℕ)
            → q < limit
            → byte_at m k (malloc fs.world sector_size).1 (at fs.inodes i).start_sector q
              ≡ get_or buffer q 0
        k_bytes q below =
            ap (λ c. get_or c (q % 512) 0) (k.content-malloc fs.world sector_size _)
            ∙ ap (λ s. byte_at m k fs.world s q) file.start_is
            ∙ file.bytes q (omega (arith, below, IsLimit-le limit size request l))
