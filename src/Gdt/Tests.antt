-- ===== src/Gdt/Tests.antt =====
-- The code segment's descriptor.
use hydra_os.Common.{◌+◌, ◌-◌, ◌*◌, ◌/◌, ◌^◌, ◌≡◌, leb, arith, refl, if◌then◌else◌}
use hydra_os.Gdt.{segment_descriptor, base, limit, with_limit, pages}
use hydra_os.Gdt.Fields.{segment_descriptor_lem}

segment_descriptor_example :
    (base (segment_descriptor 4096 67108864 0x9A) ≡ 4096)
    × ((segment_descriptor 4096 67108864 0x9A).byte5 ≡ 0x9A)
    × (limit (segment_descriptor 4096 67108864 0x9A)
        ≡ (if leb 67108864 65536 then 67108864 else (67108864 + 1) / 2 ^ 12 * 2 ^ 12 - 1))
segment_descriptor_example = segment_descriptor_lem 4096 67108864 0x9A (omega arith) (omega arith)

-- The code segment of 64 MB ends at its last byte.
code_limit : limit (segment_descriptor 0 67108864 0x9A) ≡ 67108863
unfolding limit segment_descriptor with_limit pages
code_limit = refl
