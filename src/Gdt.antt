-- ===== src/Gdt.antt =====
-- gdt.cpp: the segment descriptors, byte by byte. Where the source joins disjoint bits with `|`,
-- the model adds them.
pub mod Fields
mod Tests
use hydra_os.Common.{
  ℕ, ◌+◌, ◌-◌, ◌*◌, ◌/◌, ◌%◌, ◌^◌, Bool, true, false, not, leb, ◌==◌, if◌then◌else◌, u32, sub32,
}

-- The eight bytes `target[0]` to `target[7]` of a `SegmentDescriptor`.
pub record SegmentDescriptor : Type 0 where
  pub byte0 : ℕ
  pub byte1 : ℕ
  pub byte2 : ℕ
  pub byte3 : ℕ
  pub byte4 : ℕ
  pub byte5 : ℕ
  pub byte6 : ℕ
  pub byte7 : ℕ

-- The last line of the constructor's `if` joins the flags with bits 16 to 19 of the limit.
pub with_limit : ℕ → ℕ → ℕ → ℕ → SegmentDescriptor
with_limit flags base limit type = record {
  byte0 = limit % 2 ^ 8;
  byte1 = limit / 2 ^ 8 % 2 ^ 8;
  byte2 = base % 2 ^ 8;
  byte3 = base / 2 ^ 8 % 2 ^ 8;
  byte4 = base / 2 ^ 16 % 2 ^ 8;
  byte5 = type;
  byte6 = flags + limit / 2 ^ 16 % 16;
  byte7 = base / 2 ^ 24 % 2 ^ 8;
}

-- The limit in pages of 4 KB.
pub pages : ℕ → ℕ
pages limit = if not (limit % 2 ^ 12 == 0xFFF) then sub32 (limit / 2 ^ 12) 1 else limit / 2 ^ 12

pub segment_descriptor : ℕ → ℕ → ℕ → SegmentDescriptor
unfolding with_limit pages
segment_descriptor base limit type =
    if leb limit 65536
    then with_limit 0x40 base limit type
    else with_limit 0xC0 base (pages limit) type

pub base : SegmentDescriptor → ℕ
base d =
    let result = d.byte7 in
    let result' = u32 (u32 (result * 2 ^ 8) + d.byte4) in
    let result'' = u32 (u32 (result' * 2 ^ 8) + d.byte3) in u32 (u32 (result'' * 2 ^ 8) + d.byte2)

pub limit : SegmentDescriptor → ℕ
limit d =
    let result = d.byte6 % 16 in
    let result' = u32 (u32 (result * 2 ^ 8) + d.byte1) in
    let result'' = u32 (u32 (result' * 2 ^ 8) + d.byte0) in
    if d.byte6 / 2 ^ 6 % 4 == 3 then u32 (result'' * 2 ^ 12) + 0xFFF else result''

pub record GlobalDescriptorTable : Type 0 where
  pub null_segment_selector : SegmentDescriptor
  pub unused_segment_selector : SegmentDescriptor
  pub code_segment_selector : SegmentDescriptor
  pub data_segment_selector : SegmentDescriptor

pub global_descriptor_table : GlobalDescriptorTable
unfolding segment_descriptor
global_descriptor_table = record {
  null_segment_selector = segment_descriptor 0 0 0;
  unused_segment_selector = segment_descriptor 0 0 0;
  code_segment_selector = segment_descriptor 0 (64 * 1024 * 1024) 0x9A;
  data_segment_selector = segment_descriptor 0 (64 * 1024 * 1024) 0x92;
}

-- `sizeof(SegmentDescriptor)`.
abbrev pub descriptor_size : ℕ
descriptor_size = 8

-- The offset of `codeSegmentSelector` in the table.
abbrev pub code_segment_selector_offset : ℕ
code_segment_selector_offset = 2 * descriptor_size

abbrev pub data_segment_selector_offset : ℕ
data_segment_selector_offset = 3 * descriptor_size
