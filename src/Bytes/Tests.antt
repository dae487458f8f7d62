-- ===== src/Bytes/Tests.antt =====
-- The byte routines on a memory that holds each address, modulo 256.
use hydra_os.Common.{◌+◌, ◌-◌, ◌%◌, ◌≡◌, inl, arith, if◌then◌else◌}
use hydra_os.Bytes.{Bytes, memcpy}
use hydra_os.Bytes.Laws.{inside, memcpy_lem}

abbrev ramp : Bytes
ramp q = q % 256

memcpy_example :
    memcpy ramp 10 100 4 12 ≡ (if inside 10 4 12 then ramp (100 + (12 - 10)) else ramp 12)
memcpy_example = memcpy_lem ramp 10 100 4 12 (inl (omega arith))
