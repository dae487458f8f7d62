-- ===== src/Syscalls/Laws.antt =====
-- What a program gets from its system calls.
use hydra_os.Common.{
  ℕ, ◌+◌, ◌++◌, arith, ◌≡◌, ◌≢◌, ◌∙◌, inl, inr, refl, sym, ap, subst, Option, none, some, List, [],
  ◌∷◌, Bool, true, false, ◌==◌, if◌then◌else◌, some_inj,
}
use hydra_os.Memory.{MemoryManager, header}
use hydra_os.Memory
use hydra_os.Memory.Blocks.{Block, total, release}
use hydra_os.Memory.Laws.{Holds, malloc-Holds, free-Holds, free-malloc}
use hydra_os.Memory.Globals
use hydra_os.Multitasking.{CpuState}
use hydra_os.TextMode.{Screen, set_color, print, print_hex32}
use hydra_os.TextMode.Cursor.{OnScreen, Safe}
use hydra_os.TextMode.Drawing.{same_Safe, set_color-Safe, then_print-Safe, print_hex32-Safe}
use hydra_os.Syscalls.{
  Kernel, print_call, print_to, start_text, pointer_text, content_text, null_text, answer,
  malloc_call, dispatch, handle_interrupt,
}

-- The kernel's heap: not there yet, or well formed.
pub data HeapReady (a : Globals.Active) : Type 0 where
  absent : a ≡ none → HeapReady a
  holds :
      (m : MemoryManager) (start : ℕ) (bs : List Block)
      → a ≡ some m
      → Holds m start bs
      → HeapReady a

-- What system call 7 may be given: the payload of a chunk of the heap, where there is a heap.
pub data MayFree (a : Globals.Active) (ptr : ℕ) : Type 0 where
  no_heap : a ≡ none → MayFree a ptr
  payload :
      (m : MemoryManager) (start : ℕ) (before : List Block) (b : Block) (after : List Block)
      → a ≡ some m
      → Holds m start (before ++ b ∷ after)
      → ptr ≡ start + total before + header
      → MayFree a ptr

-- What every call keeps: the registers but EAX, the heap's invariant, and the screen's bounds.
pub record Returns (cpu : CpuState) (k : Kernel) (r : CpuState × Kernel) : Type 0 where
  pub registers : r.0 ≡ record cpu { eax = r.0.eax }
  pub heap : HeapReady r.1.heap
  pub screen : (s s' : Screen) → k.vga ≡ some s → OnScreen s → r.1.vga ≡ some s' → Safe s s'

pub print_call-Safe :
    (strings : ℕ → List ℕ) (s : Screen) (arg1 : ℕ) → OnScreen s → Safe s (print_call strings s arg1)
unfolding print_call
print_call-Safe strings s arg1 v =
    set_color-Safe s _ (then_print-Safe s _ (set_color-Safe s _ (middle (arg1 == 0)) 14 0) _) 15 0
  where
    s1 : Screen
    s1 = print (print_hex32 (print (set_color s 14 0) start_text) arg1) (10 ∷ [])

    s2 : Screen
    s2 = print (print_hex32 (print s1 pointer_text) arg1) content_text

    begun : Safe s s1
    begun =
        then_print-Safe s _
          (print_hex32-Safe s _ (then_print-Safe s _ (set_color-Safe s s (same_Safe s v) 14 0) _)
            arg1)
          _

    told : Safe s s2
    told = then_print-Safe s _ (print_hex32-Safe s _ (then_print-Safe s s1 begun _) arg1) _

    middle :
        (b : Bool)
        → Safe s (if b then print s1 null_text else print (set_color s2 15 0) (strings arg1))
    middle true = then_print-Safe s s1 begun _
    middle false = then_print-Safe s _ (set_color-Safe s s2 told 15 0) _

kept_screen :
    (cpu : CpuState) (k : Kernel) (heap : Globals.Active) (v : ℕ)
    → HeapReady heap
    → Returns cpu k (record cpu { eax = v }, record k { heap = heap })
kept_screen cpu k heap v ready = record {
  registers = refl;
  heap = ready;
  screen = λ s s' e on e'. subst (Safe s) (some_inj (sym e ∙ e')) (same_Safe s on);
}

print_to-Returns :
    (strings : ℕ → List ℕ) (cpu : CpuState) (k : Kernel) (vga : Option Screen)
    → HeapReady k.heap
    → k.vga ≡ vga
    → Returns cpu k (record cpu { eax = 0 }, record k { vga = print_to strings vga cpu.ebx })
unfolding print_to
print_to-Returns strings cpu k none ready at = record {
  registers = refl;
  heap = ready;
  screen = λ s s' e on e'. absurd (none≢some e');
}
  where
    none≢some : {s : Screen} → none ≡ some s → ⊥
    none≢some e = cc
print_to-Returns strings cpu k (some t) ready at = record {
  registers = refl;
  heap = ready;
  screen = λ s s' e on e'.
      subst (Safe s) (ap (λ u. print_call strings u cpu.ebx) (some_inj (sym e ∙ at)) ∙ some_inj e')
        (print_call-Safe strings s cpu.ebx on);
}

-- A result of the handler.
Answers : CpuState → Kernel → Option (CpuState × Kernel) → Type 0
Answers cpu k o = (r : CpuState × Kernel) × (o ≡ some r) × Returns cpu k r

malloc_call-eq :
    (cpu : CpuState) (k : Kernel) (p : ℕ) (heap : Globals.Active)
    → Globals.malloc k.heap cpu.ebx ≡ some (p, heap)
    → malloc_call cpu k ≡ some (record cpu { eax = p }, record k { heap = heap })
unfolding malloc_call
malloc_call-eq cpu k p heap e =
    ap
      (λ (o : Option (ℕ × Globals.Active)). elim o [
        | none ↦ none
        | some (q, h) ↦ some (record cpu { eax = q }, record k { heap = h })
      ])
      e

malloc_call-Answers :
    (cpu : CpuState) (k : Kernel) → HeapReady k.heap → Answers cpu k (malloc_call cpu k)
unfolding Answers
malloc_call-Answers cpu k (absent e) = (
  (record cpu { eax = 0 }, record k { heap = none }),
  malloc_call-eq cpu k 0 none
      (ap (λ h. Globals.malloc h cpu.ebx) e ∙ Globals.malloc_inactive cpu.ebx),
  kept_screen cpu k none 0 (absent refl),
)
malloc_call-Answers cpu k (holds m start bs e h) = elim (malloc-Holds m start cpu.ebx bs h) [
  | inl (none_fits, ok) ↦ answered 0 m bs ok h
  | inr (q, m', ok, granted) ↦ answered q m' _ ok granted.holds
]
  where
    answered :
        (q : ℕ) (m' : MemoryManager) (bs' : List Block)
        → Memory.malloc m cpu.ebx ≡ some (q, m')
        → Holds m' start bs'
        → Answers cpu k (malloc_call cpu k)
    answered q m' bs' ok h' = (
      (record cpu { eax = q }, record k { heap = some m' }),
      malloc_call-eq cpu k q (some m')
          (ap (λ g. Globals.malloc g cpu.ebx) e ∙ Globals.malloc_active m m' cpu.ebx q ok),
      kept_screen cpu k (some m') q (holds m' start bs' refl h'),
    )

answer-Answers :
    (cpu : CpuState) (k : Kernel) (heap : Globals.Active) (v : ℕ)
    → HeapReady heap
    → Answers cpu k (answer cpu (record k { heap = heap }) v)
unfolding Answers answer
answer-Answers cpu k heap v ready =
    ((record cpu { eax = v }, record k { heap = heap }), refl, kept_screen cpu k heap v ready)

free-HeapReady : (a : Globals.Active) (ptr : ℕ) → MayFree a ptr → HeapReady (Globals.free a ptr)
free-HeapReady a ptr (no_heap e) =
    absent (ap (λ h. Globals.free h ptr) e ∙ Globals.free_inactive ptr)
free-HeapReady a ptr (payload m start before b after e h at) =
    holds (Memory.free m ptr) start (release before b after)
      (ap (λ h'. Globals.free h' ptr) e ∙ Globals.free_active m ptr)
      (free-Holds m start ptr before b after h at)

-- System call 7, when it is the one called; else it does not matter what the argument is.
free-Answers :
    (strings : ℕ → List ℕ) (cpu : CpuState) (k : Kernel)
    → HeapReady k.heap
    → (cpu.eax ≡ 7 → MayFree k.heap cpu.ebx)
    → Answers cpu k (
        if cpu.eax == 7
        then answer cpu (record k { heap = Globals.free k.heap cpu.ebx }) 0
        else answer cpu k 0xFFFFFFFF)
free-Answers strings cpu k ready may = chosen (cpu.eax == 7) (λ e. may (ground (arith, e)))
  where
    chosen :
        (b : Bool)
        → (b ≡ true → MayFree k.heap cpu.ebx)
        → Answers cpu k (
            if b
            then answer cpu (record k { heap = Globals.free k.heap cpu.ebx }) 0
            else answer cpu k 0xFFFFFFFF)
    chosen true may' =
        answer-Answers cpu k (Globals.free k.heap cpu.ebx) 0
          (free-HeapReady k.heap cpu.ebx (may' refl))
    chosen false may' = answer-Answers cpu k k.heap 0xFFFFFFFF ready

if-Answers :
    (cpu : CpuState) (k : Kernel) (b : Bool) (x y : Option (CpuState × Kernel))
    → Answers cpu k x
    → Answers cpu k y
    → Answers cpu k (if b then x else y)
if-Answers cpu k true x y p q = p
if-Answers cpu k false x y p q = q

print-Answers :
    (strings : ℕ → List ℕ) (cpu : CpuState) (k : Kernel)
    → HeapReady k.heap
    → Answers cpu k (answer cpu (record k { vga = print_to strings k.vga cpu.ebx }) 0)
unfolding Answers answer
print-Answers strings cpu k ready = (
  (record cpu { eax = 0 }, record k { vga = print_to strings k.vga cpu.ebx }),
  refl,
  print_to-Returns strings cpu k k.vga ready refl,
)

-- When the kernel's heap is absent or well formed, and an address in EBX that system call 7
-- frees is the payload of one of its chunks, every system call returns, changes no register but
-- EAX, and leaves the heap well formed if there is one; where the screen's cursor is in bounds,
-- it keeps it there and changes no cell of video memory beyond the screen. The heap, video
-- memory and the saved registers are taken to share no bytes.
pub handle_interrupt-Returns :
    (strings : ℕ → List ℕ) (cpu : CpuState) (k : Kernel)
    → HeapReady k.heap
    → (cpu.eax ≡ 7 → MayFree k.heap cpu.ebx)
    → (r : CpuState × Kernel) × (handle_interrupt strings cpu k ≡ some r) × Returns cpu k r
unfolding handle_interrupt dispatch Answers
handle_interrupt-Returns strings cpu k ready may =
    if-Answers cpu k (cpu.eax == 1) _ _ (print-Answers strings cpu k ready) (
      if-Answers cpu k (cpu.eax == 2) _ _ (answer-Answers cpu k k.heap 0 ready) (
        if-Answers cpu k (cpu.eax == 3) _ _ (answer-Answers cpu k k.heap cpu.ebx ready) (
          if-Answers cpu k (cpu.eax == 4) _ _ (answer-Answers cpu k k.heap 0 ready) (
            if-Answers cpu k (cpu.eax == 5) _ _ (answer-Answers cpu k k.heap 0 ready) (
              if-Answers cpu k (cpu.eax == 6) _ _ (malloc_call-Answers cpu k ready)
                (free-Answers strings cpu k ready may))))))

malloc_result :
    (strings : ℕ → List ℕ) (cpu : CpuState) (k : Kernel) (p : ℕ) (heap : Globals.Active)
    → cpu.eax ≡ 6
    → Globals.malloc k.heap cpu.ebx ≡ some (p, heap)
    → handle_interrupt strings cpu k ≡ some (record cpu { eax = p }, record k { heap = heap })
unfolding handle_interrupt dispatch
malloc_result strings cpu k p heap number e =
    ap (λ n. dispatch strings n cpu k) number ∙ malloc_call-eq cpu k p heap e

free_result :
    (strings : ℕ → List ℕ) (cpu : CpuState) (k : Kernel)
    → cpu.eax ≡ 7
    → handle_interrupt strings cpu k
      ≡ some (record cpu { eax = 0 }, record k { heap = Globals.free k.heap cpu.ebx })
unfolding handle_interrupt dispatch answer
free_result strings cpu k number = ap (λ n. dispatch strings n cpu k) number

-- On a kernel whose heap is well formed, when malloc grants the bytes in EBX, system call 6
-- answers the address in EAX, and then system call 7 on that address answers 0 and leaves a
-- heap that holds the same blocks as before the two calls.
pub free-malloc_call :
    (strings : ℕ → List ℕ) (cpu cpu' : CpuState) (k : Kernel) (m m' : MemoryManager) (start p : ℕ)
    (bs : List Block)
    → k.heap ≡ some m
    → Holds m start bs
    → cpu.eax ≡ 6
    → Memory.malloc m cpu.ebx ≡ some (p, m')
    → p ≢ 0
    → cpu'.eax ≡ 7
    → cpu'.ebx ≡ p
    → (k' : Kernel) × (m'' : MemoryManager) × (handle_interrupt strings cpu k
        ≡ some (record cpu { eax = p }, k'))
      × (handle_interrupt strings cpu' k'
          ≡ some (record cpu' { eax = 0 }, record k { heap = some m'' }))
      × Holds m'' start bs
free-malloc_call strings cpu cpu' k m m' start p bs at h call ok ne call' same = (
  record k { heap = some m' },
  Memory.free m' p,
  malloc_result strings cpu k p (some m') call
      (ap (λ g. Globals.malloc g cpu.ebx) at ∙ Globals.malloc_active m m' cpu.ebx p ok),
  free_result strings cpu' (record k { heap = some m' }) call'
      ∙ ap (λ q. some (record cpu' { eax = 0 }, record k { heap = Globals.free (some m') q })) same
      ∙ ap (λ g. some (record cpu' { eax = 0 }, record k { heap = g })) (Globals.free_active m' p),
  free-malloc m start cpu.ebx p bs m' h ok ne,
)
