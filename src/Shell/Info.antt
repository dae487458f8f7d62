-- ===== src/Shell/Info.antt =====
-- shell.cpp: the commands that only print, the prompt and the greeting.
use hydra_os.Common.{ℕ, List, [], ◌∷◌}
use hydra_os.Shell.Output.{Output, color, text, chars, wipe}
use hydra_os.Shell.Colors.{light_blue, light_green, light_cyan, light_magenta, light_brown, white}

pub print_prompt : List Output
print_prompt =
    color light_green
    ∷ text "hydra"
    ∷ color white
    ∷ text "@"
    ∷ color light_blue
    ∷ text "OS"
    ∷ color white
    ∷ text " $ "
    ∷ []

pub start : List Output
start =
    color light_cyan
    ∷ text "\n=====================================\n"
    ∷ color light_magenta
    ∷ text "  Welcome to HydraOS Shell v0.1\n"
    ∷ color light_cyan
    ∷ text "=====================================\n"
    ∷ color white
    ∷ text "Type 'help' for available commands\n"
    ∷ color light_brown
    ∷ text "Tip: Run 'format' then 'mount' to use filesystem\n\n"
    ∷ color white
    ∷ print_prompt

pub command_help : List Output
command_help =
    color light_cyan
    ∷ text "Available commands:\n"
    ∷ color white
    ∷ color light_green
    ∷ text "  help"
    ∷ color white
    ∷ text "     - Show this help message\n"
    ∷ color light_green
    ∷ text "  clear"
    ∷ color white
    ∷ text "    - Clear the screen\n"
    ∷ color light_green
    ∷ text "  echo"
    ∷ color white
    ∷ text "     - Print text to the screen\n"
    ∷ color light_green
    ∷ text "  uptime"
    ∷ color white
    ∷ text "   - Show system uptime\n"
    ∷ color light_green
    ∷ text "  about"
    ∷ color white
    ∷ text "    - About HydraOS\n"
    ∷ color light_green
    ∷ text "  meminfo"
    ∷ color white
    ∷ text "  - Show memory information\n"
    ∷ color light_green
    ∷ text "  uname"
    ∷ color white
    ∷ text "    - Show system information\n"
    ∷ color light_green
    ∷ text "  syscall"
    ∷ color white
    ∷ text "  - Test system call interface\n"
    ∷ color light_green
    ∷ text "  disk"
    ∷ color white
    ∷ text "     - Test ATA/IDE disk operations\n"
    ∷ color light_green
    ∷ text "  format"
    ∷ color white
    ∷ text "   - Format the file system\n"
    ∷ color light_green
    ∷ text "  mount"
    ∷ color white
    ∷ text "    - Mount the file system\n"
    ∷ color light_green
    ∷ text "  ls"
    ∷ color white
    ∷ text "       - List files\n"
    ∷ color light_green
    ∷ text "  touch"
    ∷ color white
    ∷ text "    - Create a file\n"
    ∷ color light_green
    ∷ text "  write"
    ∷ color white
    ∷ text "    - Write text to a file\n"
    ∷ color light_green
    ∷ text "  cat"
    ∷ color white
    ∷ text "      - Display file contents\n"
    ∷ color light_green
    ∷ text "  rm"
    ∷ color white
    ∷ text "       - Delete a file\n"
    ∷ text "\n"
    ∷ color light_brown
    ∷ text "Filesystem workflow: format -> mount -> touch/write/cat/rm\n"
    ∷ []

pub command_about : List Output
command_about =
    color light_cyan
    ∷ text "=====================================\n"
    ∷ color light_magenta
    ∷ text "         HydraOS v0.1\n"
    ∷ color light_cyan
    ∷ text "=====================================\n"
    ∷ color white
    ∷ text "A custom x86 operating system\n"
    ∷ text "Built from scratch in C++ and Assembly\n\n"
    ∷ color light_brown
    ∷ text "Author:\n"
    ∷ color light_green
    ∷ text "  Shubham Phapale\n"
    ∷ color white
    ∷ text "  GitHub: ShubhamPhapale\n\n"
    ∷ color light_brown
    ∷ text "Features:\n"
    ∷ color white
    ∷ text "  - Protected mode with GDT\n"
    ∷ text "  - Interrupt handling (IDT, PIC)\n"
    ∷ text "  - VGA text mode with colors\n"
    ∷ text "  - Keyboard and mouse drivers\n"
    ∷ text "  - Heap memory management (10MB)\n"
    ∷ text "  - Programmable Interval Timer\n"
    ∷ text "  - Cooperative multitasking\n"
    ∷ text "  - System calls (int 0x80)\n"
    ∷ text "  - ATA/IDE disk driver\n"
    ∷ text "  - Simple inode-based filesystem\n"
    ∷ text "  - Interactive shell with 16 commands\n\n"
    ∷ color light_green
    ∷ text "Developed: 2025\n"
    ∷ color white
    ∷ []

pub command_meminfo : List Output
command_meminfo =
    color light_cyan
    ∷ text "Memory Information:\n"
    ∷ color white
    ∷ text "  Heap start: 0x00A00000 (10 MB)\n"
    ∷ text "  Heap size:  10 MB\n"
    ∷ text "  Allocation: First-fit with coalescing\n"
    ∷ []

pub command_uname : List Output
command_uname =
    color light_cyan
    ∷ text "HydraOS"
    ∷ color white
    ∷ text " v0.1 x86 i686\n"
    ∷ text "Author: Shubham Phapale\n"
    ∷ text "Features: multitasking, memory-management, vga, pit, shell, syscalls, ata, filesystem\n"
    ∷ []

pub command_syscall : List Output
command_syscall =
    color light_cyan
    ∷ text "Testing System Call Interface...\n\n"
    ∷ color white
    ∷ text "System call interface has been initialized at interrupt 0x80.\n"
    ∷ text "The syscall handler is ready to handle:\n"
    ∷ text "  1. syscall_printf (print string)\n"
    ∷ text "  2. syscall_getchar (get character)\n"
    ∷ text "  3. syscall_exit (exit process)\n"
    ∷ text "  4. syscall_sleep (sleep)\n"
    ∷ text "  5. syscall_get_uptime (get uptime)\n"
    ∷ text "  6. syscall_malloc (allocate memory)\n"
    ∷ text "  7. syscall_free (free memory)\n\n"
    ∷ color light_green
    ∷ text "System call infrastructure ready!\n"
    ∷ color light_brown
    ∷ text "Note: Software interrupts from kernel mode require\n"
    ∷ text "      proper privilege level configuration.\n"
    ∷ color white
    ∷ []

pub command_clear : List Output
command_clear = wipe ∷ []

pub command_echo : List ℕ → List Output
command_echo args = chars args ∷ text "\n" ∷ []
