-- ===== src/Filesystem/Images.antt =====
-- What the file system writes to a sector is bytes.
use hydra_os.Common.{
  ℕ, zero, suc, ◌+◌, ◌*◌, List, [], ◌∷◌, get_or, set, arith, ltb, if◌then◌else◌, Bool, true, false,
}
use hydra_os.Common.ByteLists.{
  IsBytes, empty, byte, append-IsBytes, set-IsBytes, replicate-IsBytes, get_or-byte,
}
use hydra_os.Filesystem.Layout.{
  Inode, Superblock, blank, max_files, le32, slice, blit, encode_inode, encode_superblock,
  clear_buffer,
}
use hydra_os.Filesystem.Store.{copy_string, fill_inodes}
use hydra_os.Filesystem.Table.{at, AllInodes}

pub blit-IsBytes :
    (buf : List ℕ) (o : ℕ) (bs : List ℕ) → IsBytes buf → IsBytes bs → IsBytes (blit buf o bs)
unfolding blit
blit-IsBytes buf o [] v empty = v
blit-IsBytes buf o (b ∷ bs) v (byte lt w) =
    blit-IsBytes (set buf o b) (o + 1) bs (set-IsBytes buf o b v lt) w

pub slice-IsBytes : (buf : List ℕ) (o n : ℕ) → IsBytes buf → IsBytes (slice buf o n)
unfolding slice
slice-IsBytes buf o zero v = empty
slice-IsBytes buf o (suc n) v = byte (get_or-byte buf o v) (slice-IsBytes buf (o + 1) n v)

pub copy_string-IsBytes :
    (left i : ℕ) (s dest : List ℕ) → IsBytes s → IsBytes dest → IsBytes (copy_string left i s dest)
unfolding copy_string
copy_string-IsBytes zero i s dest v w = set-IsBytes dest i 0 w (omega arith)
copy_string-IsBytes (suc left) i [] dest v w = set-IsBytes dest i 0 w (omega arith)
copy_string-IsBytes (suc left) i (c ∷ s) dest (byte lt v) w =
    copy_string-IsBytes left (i + 1) s (set dest i c) v (set-IsBytes dest i c w lt)

pub clear_buffer-IsBytes : IsBytes clear_buffer
clear_buffer-IsBytes = replicate-IsBytes 512 0 (omega arith)

le32-IsBytes : (x : ℕ) → IsBytes (le32 x)
unfolding le32
le32-IsBytes x =
    byte (omega arith) (byte (omega arith) (byte (omega arith) (byte (omega arith) empty)))

encode_inode-IsBytes : (x : Inode) → IsBytes x.name → IsBytes (encode_inode x)
unfolding encode_inode
encode_inode-IsBytes x v = append-IsBytes _ _ v (
    append-IsBytes _ _ (le32-IsBytes x.size) (
      append-IsBytes _ _ (le32-IsBytes x.start_sector) (
        append-IsBytes _ _ (le32-IsBytes x.type)
          (append-IsBytes _ _ (le32-IsBytes x.created) (le32-IsBytes x.modified)))))

encode_superblock-IsBytes : (s : Superblock) → IsBytes s.label → IsBytes (encode_superblock s)
unfolding encode_superblock
encode_superblock-IsBytes s v = append-IsBytes _ _ (le32-IsBytes s.magic) (
    append-IsBytes _ _ (le32-IsBytes s.total_sectors) (
      append-IsBytes _ _ (le32-IsBytes s.used_sectors)
        (append-IsBytes _ _ (le32-IsBytes s.inode_count) v)))

pub superblock-IsBytes :
    (s : Superblock) → IsBytes s.label → IsBytes (blit clear_buffer 0 (encode_superblock s))
superblock-IsBytes s v =
    blit-IsBytes clear_buffer 0 _ clear_buffer-IsBytes (encode_superblock-IsBytes s v)

fill_inodes-IsBytes :
    (n i sector : ℕ) (inodes : List Inode) (buf : List ℕ)
    → AllInodes inodes
    → IsBytes buf
    → IsBytes (fill_inodes n i sector inodes buf)
unfolding fill_inodes
fill_inodes-IsBytes zero i sector inodes buf v w = w
fill_inodes-IsBytes (suc n) i sector inodes buf v w =
    fill_inodes-IsBytes n (i + 1) sector inodes _ v (either (ltb (sector * 8 + i) max_files))
  where
    either :
        (b : Bool)
        → IsBytes (
            if b
            then blit buf (i * 64) (encode_inode (get_or inodes (sector * 8 + i) blank))
            else buf)
    either true =
        blit-IsBytes buf (i * 64) _ w
          (encode_inode-IsBytes (at inodes (sector * 8 + i)) (v (sector * 8 + i)).name_bytes)
    either false = w

pub table-IsBytes :
    (sector : ℕ) (inodes : List Inode)
    → AllInodes inodes
    → IsBytes (fill_inodes 8 0 sector inodes clear_buffer)
table-IsBytes sector inodes v =
    fill_inodes-IsBytes 8 0 sector inodes clear_buffer v clear_buffer-IsBytes
