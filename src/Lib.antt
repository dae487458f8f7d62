-- ===== src/Lib.antt =====
-- HydraOS: a 32-bit hobby kernel in C++ with a heap, a text screen, drivers and a file system.
--
-- This library models the kernel's own code as functions on explicit states and proves what makes
-- each part correct. A pointer, a sector number and every unsigned integer is a natural number with
-- its wrap-around written out (Common/Word has the widths); a C string is the list of its bytes
-- without the terminator; an `int32_t` that the code only tests for being negative is an option,
-- `none` for a negative value.
--
-- The parts, and the files that model them:
--
--   src/memory.cpp (include/memory.h), the first-fit allocator: Memory. `MemoryManager` is a record
--   over a heap of chunk headers; `malloc` and `free` are the two methods, in the steps of the
--   code. Memory/Blocks is the specification, a list of blocks; Chain relates it to the headers;
--   Split, Malloc, Merge and Free prove the refinement; FirstFit, Coalesce, Laws and History draw
--   the laws; Globals has the global functions. The search runs on fuel for 2 ^ 28 chunks, which is
--   more than 16-byte headers can stand in a 32-bit address space, so that it never runs out.
--
--   src/memory.cpp, memcpy, memset and memcmp: Bytes, on a memory of bytes.
--
--   src/filesystem.cpp (include/filesystem.h), the inode file system: Filesystem. Layout has the
--   structures and their bytes on disk, Machine what the code calls of the disk driver and the
--   allocator (a parameter, with its documented behaviour in the record `Working`), Store the
--   superblock and the inode table, Files the operations on the directory, Data the contents of
--   files. Codec, Buffers, Table, Persist, TableStore, TableLoad and Mounting prove that the disk
--   carries the file system; Names, Lookup, Directory, Operations, Opening, Deleting and Formatting
--   prove what the operations do to the directory; Allocating, Writing, Reading, Contents, Placing,
--   Fetching and RoundTrip prove that a file keeps its bytes, and Rewriting that WriteFile keeps
--   the rest; Images proves that what goes to the disk is bytes, and Session follows a disk from
--   Format to its first file. The tests run it on a RAM disk. Hardware is the machine that the heap
--   and the disk driver make: Heap and Works prove that it behaves as documented, and Booting puts
--   it together with Session.
--
--   src/drivers/vga.cpp: class VGATextMode is TextMode, with the cells in TextMode/Cells, the
--   cursor in TextMode/Cursor and the numbers in TextMode/Digits; printing a number has fuel for
--   ten digits, which a 32-bit number never exceeds. Class VideoGraphicsArray is Graphics, over
--   ports and a memory of bytes, with the picture in Graphics/Pixels, the card's registers, a
--   parameter, in Graphics/Registers and the mode in Graphics/Mode.
--
--   src/gdt.cpp: Gdt. src/multitasking.cpp: Multitasking, with the order of the tasks in
--   RoundRobin. src/drivers/mouse.cpp: Mouse. src/kernel.cpp, class MouseToConsole, which hears the
--   mouse driver: Pointer; its printf and printfHex: Console. src/drivers/keyboard.cpp: Keyboard.
--   src/drivers/pit.cpp: Timer, whose busy wait sees one interrupt a round and has fuel for as many
--   as it waits for.
--
--   What Activate of the keyboard and mouse drivers says to their controller: Controller, on ports.
--   Protocol is the controller, a parameter, and Activation what the drivers leave of it. Each wait
--   has fuel, and rounds for the bytes that the controller holds are enough. Kernel/Boot has
--   kernelMain wait on it.
--
--   src/hardwarecommunication/interrupts.cpp: Interrupts, with the table in Entries and the
--   dispatch in Dispatch and what every handler keeps in Keeping.
--   src/hardwarecommunication/interruptstubs.s, int_bottom: Interrupts/Stub. src/syscalls.cpp:
--   Syscalls, over the heap's global functions and the screen; Wrappers has what a program calls,
--   through the stub, which faults where a segment register takes no selector. The heap, video
--   memory and the saved registers are separate memories here, as they are for every pointer that
--   malloc gave.
--
--   src/drivers/driver.cpp: Drivers, with the order of activation in Order. A driver's own Activate
--   is virtual, and is a parameter.
--
--   src/hardwarecommunication/port.cpp: Ports, over the in and out instructions, a parameter.
--
--   src/drivers/ata.cpp: Ata, on these ports. Ata/Drive is the protocol of the drive that the
--   driver relies on, a parameter; Polling, Selecting, Moving, Ready, Reading and Writing in it are
--   about the steps of a transfer, and Timeout is about a drive that does not answer. The loops
--   that wait recur on the source's own timeout.
--
--   src/shell.cpp: Shell. Output is what the shell calls of the screen driver, Info, Uptime, Files
--   and Disk are the commands, with Files/Printing and Files/Contents about what they print, Editor
--   the shell's state, the keys and the dispatch; Strings has the string routines on memory, whose
--   loops have fuel for one round more than the string has characters, which is what they take.
--   Below Editor, Line, Keys and Session are about the line editor, Words and Typing about the
--   lines that it runs, Commands about typed commands, and Safety about the screen.
--
--   src/kernel.cpp, kernelMain: Kernel has the parts that it builds as one world and the handlers
--   of the interrupts that change it, Kernel/Boot the function itself and its texts. Safety and
--   Running are about the screen under any interrupts but system calls of malloc and free,
--   Boot/Startup about the world that kernelMain leaves, Typing about keys. The file system's world
--   holds the heap that the system calls use, and a system call that does not return is an absent
--   world. An interrupt comes with what the ports and the stack hold at that time.
--
-- How they interact: the kernel makes one heap and one disk, on which the file system works
-- (Filesystem/Hardware); the screen is shared by all; the interrupt handlers are called with the
-- bytes that the ports deliver.
--
-- Not modelled: the boot code and the entries of the interrupt stubs in assembly, what the in and
-- out instructions do (the screen driver's port traffic is a list of writes), how objects and
-- handlers are compared by address, and the demo tasks, which loop.
mod Common
pub mod Memory
pub mod Bytes
pub mod Filesystem
pub mod TextMode
pub mod Gdt
pub mod Multitasking
pub mod Mouse
pub mod Pointer
pub mod Kernel
pub mod Keyboard
pub mod Timer
pub mod Syscalls
pub mod Interrupts
pub mod Shell
pub mod Drivers
pub mod Ports
pub mod Ata
pub mod Graphics
pub mod Console
pub mod Controller
