-- ===== src/Interrupts/Entries.antt =====
-- What the constructor leaves in the interrupt descriptor table.
use hydra_os.Common.{
  ℕ, zero, suc, ◌+◌, ◌-◌, ◌*◌, ◌^◌, ◌≤◌, ◌<◌, ◌≡◌, ◌∙◌, inl, inr, refl, ap, ◌&&◌, leb, ltb, ◌==◌,
  if◌then◌else◌, arith, lt_cases,
}
use hydra_os.Interrupts.{
  GateDescriptor, Table, Stubs, gate, set_entry, ignore_entries, set_entries, fill_table,
  interrupt_gate,
}

ignore_entries_lem :
    (i n : ℕ) (g : GateDescriptor) (t : Table)
    → i < 256
    → n < 256
    → ignore_entries i g t n ≡ (if ltb 0 n && leb n i then g else t n)
unfolding ignore_entries set_entry
ignore_entries_lem zero n g t hi hn = ground arith
ignore_entries_lem (suc i) n g t hi hn =
    ignore_entries_lem i n g (set_entry t (suc i) g) (omega arith) hn ∙ ground arith

set_entries_lem :
    (k i base n : ℕ) (g : ℕ → GateDescriptor) (t : Table)
    → base + i + k ≤ 256
    → n < 256
    → set_entries k i base g t n
      ≡ (if leb (base + i) n && ltb n (base + i + k) then g (n - base) else t n)
unfolding set_entries set_entry
set_entries_lem zero i base n g t hk hn = ground arith
set_entries_lem (suc k) i base n g t hk hn =
    set_entries_lem k (i + 1) base n g (set_entry t (base + i) (g i)) (omega arith) hn
    ∙ elim (lt_cases n (base + i)) [
      | inl lt ↦ ground arith
      | inr (inl e) ↦ ground (arith, ap g (here e))
      | inr (inr gt) ↦ ground arith
    ]
  where
    here : n ≡ base + i → i ≡ n - base
    here e = omega arith

-- The routine that an entry jumps to.
pub address : GateDescriptor → ℕ
address g = g.handler_address_high_bits * 2 ^ 16 + g.handler_address_low_bits

address-gate : (c h p t : ℕ) → h < 2 ^ 32 → address (gate c h p t) ≡ h
unfolding address gate
address-gate c h p t lt = omega arith

-- The stub for an interrupt's number.
pub stub_for : Stubs → ℕ → ℕ → ℕ
stub_for s offset n =
    if leb offset n && ltb n (offset + 16)
    then s.request (n - offset)
    else if n == 0x80
    then s.exception 0x80
    else if ltb n 20
    then s.exception n
    else s.ignore

module _ (s : Stubs) (offset c : ℕ) (t : Table) where
  entry : ℕ → GateDescriptor
  entry handler = gate c handler 0 interrupt_gate

  -- The table after the first entries.
  ignored : Table
  unfolding entry
  ignored = set_entry (ignore_entries 255 (entry s.ignore) t) 0 (entry s.ignore)

  excepted : Table
  unfolding entry ignored
  excepted = set_entries 20 0 0 (λ i. entry (s.exception i)) ignored

  called : Table
  unfolding entry excepted
  called = set_entry excepted 0x80 (entry (s.exception 0x80))

  ignored_lem : (n : ℕ) → n < 256 → ignored n ≡ entry s.ignore
  unfolding ignored set_entry
  ignored_lem n lt = ground (arith, ignore_entries_lem 255 n (entry s.ignore) t (omega arith) lt)

  excepted_lem :
      (n : ℕ) → n < 256 → excepted n ≡ (if ltb n 20 then entry (s.exception n) else entry s.ignore)
  unfolding excepted
  excepted_lem n lt = ground (
    arith,
    set_entries_lem 20 0 0 n (λ i. entry (s.exception i)) ignored (omega arith) lt,
    ignored_lem n lt,
  )

  called_lem :
      (n : ℕ)
      → n < 256
      → called n ≡ (
          if n == 0x80
          then entry (s.exception 0x80)
          else if ltb n 20
          then entry (s.exception n)
          else entry s.ignore)
  unfolding called set_entry
  called_lem n lt = ground (arith, excepted_lem n lt)

  fill_table-gate :
      (n : ℕ)
      → offset + 16 ≤ 256
      → n < 256
      → fill_table s offset c t n ≡ entry (stub_for s offset n)
  unfolding fill_table stub_for called
  fill_table-gate n ho hn = ground (
    arith,
    set_entries_lem 16 0 offset n (λ i. entry (s.request i)) called (omega arith) hn,
    called_lem n hn,
  )

  -- With stubs at 32-bit addresses and the 16 hardware interrupts at an offset that keeps them
  -- below 256, each of the 256 entries that the constructor fills is a present ring-0 interrupt
  -- gate in the given code segment, to the stub of its number: a hardware interrupt's, the
  -- system call's, the exception's below 20, and else the one that ignores.
  pub fill_table_lem :
      (n : ℕ)
      → offset + 16 ≤ 256
      → n < 256
      → ((i : ℕ) → s.exception i < 2 ^ 32)
      → ((i : ℕ) → s.request i < 2 ^ 32)
      → s.ignore < 2 ^ 32
      → (address (fill_table s offset c t n) ≡ stub_for s offset n)
        × ((fill_table s offset c t n).gdt_code_segment_selector ≡ c)
        × ((fill_table s offset c t n).access ≡ 0x8E)
  unfolding entry
  fill_table_lem n ho hn he hr hi = (
    ap address (fill_table-gate n ho hn)
        ∙ address-gate c (stub_for s offset n) 0 interrupt_gate bounded,
    ap (λ (g : GateDescriptor). g.gdt_code_segment_selector) (fill_table-gate n ho hn)
        ∙ unfold gate in refl,
    ap (λ (g : GateDescriptor). g.access) (fill_table-gate n ho hn) ∙ unfold gate in refl,
  )
    where
      bounded : stub_for s offset n < 2 ^ 32
      bounded = unfold stub_for in ground (arith, he 0x80, he n, hr (n - offset))
