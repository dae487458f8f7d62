-- ===== src/Gdt/Fields.antt =====
-- What `Base` and `Limit` read from a descriptor that the constructor made.
use hydra_os.Common.{ℕ, ◌+◌, ◌-◌, ◌*◌, ◌/◌, ◌^◌, ◌<◌, ◌≡◌, refl, leb, if◌then◌else◌, arith}
use hydra_os.Gdt.{with_limit, pages, segment_descriptor, base, limit}

with_limit-base : (f b l t : ℕ) → b < 2 ^ 32 → base (with_limit f b l t) ≡ b
unfolding base with_limit
with_limit-base f b l t lt = omega arith

with_limit-small : (b l t : ℕ) → l < 2 ^ 20 → limit (with_limit 0x40 b l t) ≡ l
unfolding limit with_limit
with_limit-small b l t lt = ground arith

with_limit-large : (b l t : ℕ) → l < 2 ^ 20 → limit (with_limit 0xC0 b l t) ≡ l * 2 ^ 12 + 0xFFF
unfolding limit with_limit
with_limit-large b l t lt = ground arith

pages-lt : (l : ℕ) → l < 2 ^ 32 → 65536 < l → pages l < 2 ^ 20
unfolding pages
pages-lt l lt gt = ground arith

pages-end :
    (l : ℕ) → l < 2 ^ 32 → 65536 < l → pages l * 2 ^ 12 + 0xFFF ≡ (l + 1) / 2 ^ 12 * 2 ^ 12 - 1
unfolding pages
pages-end l lt gt = ground arith

-- From a descriptor made with a 32-bit base and limit, Base gives back the base, the access
-- byte is the given one, and Limit gives back the limit, cut above 64 KB to the end of the last
-- whole page of 4 KB below it.
pub segment_descriptor_lem :
    (b l t : ℕ)
    → b < 2 ^ 32
    → l < 2 ^ 32
    → (base (segment_descriptor b l t) ≡ b)
      × ((segment_descriptor b l t).byte5 ≡ t)
      × (limit (segment_descriptor b l t)
          ≡ (if leb l 65536 then l else (l + 1) / 2 ^ 12 * 2 ^ 12 - 1))
unfolding segment_descriptor
segment_descriptor_lem b l t hb hl = ground (
  arith,
  with_limit-base 0x40 b l t hb,
  with_limit-base 0xC0 b (pages l) t hb,
  access 0x40 l,
  access 0xC0 (pages l),
  with_limit-small b l t,
  with_limit-large b (pages l) t,
  pages-lt l hl,
  pages-end l hl,
)
  where
    access : (f n : ℕ) → (with_limit f b n t).byte5 ≡ t
    access f n = unfold with_limit in refl
