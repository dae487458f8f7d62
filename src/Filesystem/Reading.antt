-- ===== src/Filesystem/Reading.antt =====
-- The loop of `ReadFile` on a working machine.
use hydra_os.Common.{
  ℕ, zero, suc, ◌+◌, ◌-◌, ◌*◌, ◌/◌, ◌%◌, ◌^◌, ◌≤◌, ◌<◌, ◌≡◌, ◌∙◌, ◌⊎◌, inl, inr, refl, sym, ap,
  subst, Bool, true, false, List, length, get_or, arith, lt_cases, ltb, if◌then◌else◌, u32,
}
use hydra_os.Filesystem.Layout.{Inode, blit, slice}
use hydra_os.Filesystem.Buffers.{
  length-blit, length-slice, get_or-blit_inside, get_or-blit_outside, get_or-slice,
}
use hydra_os.Filesystem.Machine.{Machine, Working}
use hydra_os.Filesystem.Data.{read_count, read_loop}

-- A request for `size` bytes of a file of `file_size` bytes ends at `limit`.
abbrev pub IsLimit : ℕ → ℕ → ℕ → Type 0
IsLimit limit file_size size =
    ((limit ≡ size) × (size ≤ file_size)) ⊎ ((limit ≡ file_size) × (file_size ≤ size))

pub IsLimit-le : (limit file_size size : ℕ) → IsLimit limit file_size size → limit ≤ file_size
IsLimit-le limit file_size size l = ground arith

read_count_lem :
    (done file_size size limit : ℕ)
    → IsLimit limit file_size size
    → done < limit
    → file_size + 511 < 2 ^ 32
    → size < 2 ^ 32
    → (read_count done file_size size ≡ 512 × (done + 512 ≤ limit))
      ⊎ ((read_count done file_size size ≡ limit - done) × (limit < done + 512))
unfolding read_count
read_count_lem done file_size size limit l lt small small' = ground arith

module _ (m : Machine) (k : Working m) where
  open m use {World, read28}
  open k use {Holding, content}

  -- Byte `q` of the file that starts at sector `start`.
  abbrev pub byte_at : World → ℕ → ℕ → ℕ
  byte_at w start q = get_or (content w (start + q / 512)) (q % 512) 0

  -- `buffer'` is `buffer` with the bytes of the file from `done` to `limit`.
  pub record Fetched (w : World) (start done limit : ℕ) (buffer buffer' : List ℕ) : Type 0 where
    pub same_length : length buffer' ≡ length buffer
    pub inside : (q : ℕ) → done ≤ q → q < limit → get_or buffer' q 0 ≡ byte_at w start q
    pub outside : (q : ℕ) → (q < done) ⊎ (limit ≤ q) → get_or buffer' q 0 ≡ get_or buffer q 0

  pub record WasRead (ps : List ℕ) (w : World) (start done limit : ℕ) (buffer : List ℕ)
      (r : ℕ × List ℕ × World) : Type 0 where
    pub count : r.0 ≡ limit
    pub fetched : Fetched w start done limit buffer r.1
    pub holding : Holding ps r.2
    pub same_disk : (t : ℕ) → content r.2 t ≡ content w t

  -- A sector's bytes go to their place in the buffer.
  fetch :
      (w : World) (start i done count : ℕ) (sector buffer : List ℕ)
      → sector ≡ content w (start + i)
      → done ≡ 512 * i
      → count ≤ 512
      → done + count ≤ length buffer
      → Fetched w start done (done + count) buffer (blit buffer done (slice sector 0 count))
  fetch w start i done count sector buffer at e le room = record {
    same_length = length-blit buffer done _;
    inside = λ q ge lt.
        ap (λ n. get_or (blit buffer done (slice sector 0 count)) n 0) {y = done + (q - done)}
          (omega arith)
        ∙ get_or-blit_inside buffer done (slice sector 0 count) (q - done)
            (omega (arith, length-slice sector 0 count))
            (omega (arith, length-slice sector 0 count))
        ∙ get_or-slice sector 0 count (q - done) (omega arith)
        ∙ ap (λ n. get_or sector n 0) {y = q % 512} (omega arith)
        ∙ ap (λ s. get_or s (q % 512) 0) at
        ∙ ap (λ n. get_or (content w (start + n)) (q % 512) 0) {y = q / 512} (omega arith);
    outside = λ q out.
        get_or-blit_outside buffer done (slice sector 0 count) q
          (ground (arith, length-slice sector 0 count));
  }

  Fetched-join :
      (w w' : World) (start done next limit : ℕ) (buffer buffer' buffer'' : List ℕ)
      → done ≤ next
      → next ≤ limit
      → ((t : ℕ) → content w' t ≡ content w t)
      → Fetched w start done next buffer buffer'
      → Fetched w' start next limit buffer' buffer''
      → Fetched w start done limit buffer buffer''
  Fetched-join w w' start done next limit buffer buffer' buffer'' le le' disk a b = record {
    same_length = b.same_length ∙ a.same_length;
    inside = λ q ge lt. elim (lt_cases q next) [
      | inl early ↦ b.outside q (inl early) ∙ a.inside q ge early
      | inr (inl e) ↦ b.inside q (omega arith) lt ∙ ap (λ s. get_or s (q % 512) 0) (disk _)
      | inr (inr late) ↦ b.inside q (omega arith) lt ∙ ap (λ s. get_or s (q % 512) 0) (disk _)
    ];
    outside = λ q out. b.outside q (ground arith) ∙ a.outside q (ground arith);
  }

  empty_fetch :
      (w : World) (start limit : ℕ) (buffer : List ℕ) → Fetched w start limit limit buffer buffer
  empty_fetch w start limit buffer = record {
    same_length = refl;
    inside = λ q ge lt. absurd (omega arith);
    outside = λ q out. refl;
  }

  -- Where the loop stands: at a sector's start, or behind the last byte.
  pub Stands : ℕ → ℕ → ℕ → Type 0
  Stands done i limit =
      ((done ≡ 512 * i) × (512 * i ≤ limit)) ⊎ ((done ≡ limit) × (limit ≤ 512 * i))

  pub starts : (limit : ℕ) → Stands 0 0 limit
  unfolding Stands
  starts limit = inl (omega arith, omega arith)

  module _ (inode : Inode) (size limit : ℕ) (l : IsLimit limit inode.size size)
      (small : inode.size + 511 < 2 ^ 32) (small' : size < 2 ^ 32) where
    limit-le : (limit ≤ size) × (limit ≤ inode.size) × ((limit ≡ size) ⊎ (limit ≡ inode.size))
    limit-le = ground (arith, l)

    finished :
        (ps : List ℕ) (w : World) (done : ℕ) (buffer : List ℕ)
        → Holding ps w
        → done ≡ limit
        → WasRead ps w inode.start_sector done limit buffer (done, buffer, w)
    finished ps w done buffer h e = record {
      count = e;
      fetched =
          subst (λ d. Fetched w inode.start_sector d limit buffer buffer) (sym e)
            (empty_fetch w inode.start_sector limit buffer);
      holding = h;
      same_disk = λ t. refl;
    }

    -- One round, and then the others.
    WasRead-step :
        (ps : List ℕ) (w w' : World) (start done next : ℕ) (buffer buffer' : List ℕ)
        (r : ℕ × List ℕ × World)
        → done ≤ next
        → next ≤ limit
        → ((t : ℕ) → content w' t ≡ content w t)
        → Fetched w start done next buffer buffer'
        → WasRead ps w' start next limit buffer' r
        → WasRead ps w start done limit buffer r
    WasRead-step ps w w' start done next buffer buffer' r le le' disk f rest = record {
      count = rest.count;
      fetched =
          Fetched-join w w' start done next limit buffer buffer' r.1 le le' disk f rest.fetched;
      holding = rest.holding;
      same_disk = λ t. rest.same_disk t ∙ disk t;
    }

    done_all :
        (i done : ℕ) → Stands done i limit → (inode.size ≤ 512 * i) ⊎ (size ≤ done) → done ≡ limit
    unfolding Stands
    done_all i done at all = ground (arith, limit-le)

    done_some :
        (n i done : ℕ)
        → Stands done i limit
        → done < size
        → 512 * (i + suc n) < inode.size + 512
        → (done ≡ 512 * i) × (done < limit)
    unfolding Stands
    done_some n i done at lt last = ground (arith, limit-le)

    -- The sector that round `i` reads, and the buffer that it leaves.
    abbrev sector : ℕ → List ℕ → World → List ℕ × World
    sector i disk_buffer w = read28 w (u32 (inode.start_sector + i)) disk_buffer

    abbrev filled : ℕ → ℕ → List ℕ → List ℕ → World → List ℕ
    filled i done disk_buffer buffer w =
        blit buffer done (slice (sector i disk_buffer w).0 0 (read_count done inode.size size))

    abbrev next : ℕ → ℕ
    next done = u32 (done + read_count done inode.size size)

    round :
        (ps : List ℕ) (n i done : ℕ) (disk_buffer buffer : List ℕ) (w : World)
        → Holding ps w
        → inode.start_sector + i + suc n ≤ 2 ^ 28
        → 512 * (i + suc n) < inode.size + 512
        → limit ≤ length buffer
        → done ≡ 512 * i
        → done < limit
        → (Stands (next done) (i + 1) limit
            → WasRead ps
                (sector i disk_buffer w).1
                inode.start_sector
                (next done)
                limit
                (filled i done disk_buffer buffer w)
                (read_loop m n
                  (i + 1)
                  inode
                  size
                  (next done)
                  (sector i disk_buffer w).0
                  (filled i done disk_buffer buffer w)
                  (sector i disk_buffer w).1))
        → WasRead ps w inode.start_sector done limit buffer (
            read_loop m n
              (i + 1)
              inode
              size
              (next done)
              (sector i disk_buffer w).0
              (filled i done disk_buffer buffer w)
              (sector i disk_buffer w).1)
    round ps n i done disk_buffer buffer w h space last room e lt rest =
        WasRead-step ps w _ inode.start_sector done (next done) buffer _ _ (ground (arith, counts))
          (ground (arith, counts)) (λ t. k.content-read28 ps w _ disk_buffer t h (omega arith))
          (subst
            (λ d. Fetched w inode.start_sector done d buffer (filled i done disk_buffer buffer w))
            {y = next done} (ground (arith, counts))
            (fetch w inode.start_sector i done (read_count done inode.size size) _ buffer is_content
              e (ground (arith, counts)) (ground (arith, counts))))
          (rest (unfold Stands in ground (arith, counts)))
      where
        counts :
            (read_count done inode.size size ≡ 512 × (done + 512 ≤ limit))
            ⊎ ((read_count done inode.size size ≡ limit - done) × (limit < done + 512))
        counts = read_count_lem done inode.size size limit l lt small small'

        is_content : (sector i disk_buffer w).0 ≡ content w (inode.start_sector + i)
        is_content =
            ap (λ s. (read28 w s disk_buffer).0) {y = inode.start_sector + i} (omega arith)
            ∙ k.read28_gives ps w (inode.start_sector + i) disk_buffer h (omega arith)

    picks_read :
        (ps : List ℕ) (w : World) (done : ℕ) (buffer : List ℕ) (b : Bool) (r : ℕ × List ℕ × World)
        → (b ≡ true → WasRead ps w inode.start_sector done limit buffer r)
        → (b ≡ false → WasRead ps w inode.start_sector done limit buffer (done, buffer, w))
        → WasRead ps w inode.start_sector done limit buffer (if b then r else (done, buffer, w))
    picks_read ps w done buffer true r p q = p refl
    picks_read ps w done buffer false r p q = q refl

    pub read_loop-WasRead :
        (ps : List ℕ) (n i done : ℕ) (disk_buffer buffer : List ℕ) (w : World)
        → Holding ps w
        → inode.start_sector + i + n ≤ 2 ^ 28
        → Stands done i limit
        → inode.size ≤ 512 * (i + n)
        → (0 < n → 512 * (i + n) < inode.size + 512)
        → limit ≤ length buffer
        → WasRead ps w inode.start_sector done limit buffer
            (read_loop m n i inode size done disk_buffer buffer w)
    unfolding read_loop
    read_loop-WasRead ps zero i done disk_buffer buffer w h space at all last room =
        finished ps w done buffer h (done_all i done at (inl (omega arith)))
    read_loop-WasRead ps (suc n) i done disk_buffer buffer w h space at all last room =
        picks_read ps w done buffer (ltb done size) _
          (λ more.
            let here = done_some n i done at (ground arith) (last (omega arith)) in
            round ps n i done disk_buffer buffer w h space (last (omega arith)) room here.0 here.1
              (λ at'.
                read_loop-WasRead ps n (i + 1) (next done) _ _ _
                  (k.read_keeps ps w _ disk_buffer h (omega arith)) (omega arith) at' (omega arith)
                  (λ more'. omega (arith, last (omega arith)))
                  (omega (
                    arith,
                    length-blit buffer done
                        (slice (sector i disk_buffer w).0 0 (read_count done inode.size size)),
                  ))))
          (λ stop. finished ps w done buffer h (done_all i done at (inr (ground arith))))
