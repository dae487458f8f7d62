-- ===== src/Shell/Strings.antt =====
-- shell.cpp, the string routines, on C strings in a memory of bytes. A loop runs on fuel, since
-- it ends only where the strings do, or on the characters left; its index is the source's, which
-- does not wrap here.
pub mod Laws
pub mod Copy
mod Tests
use hydra_os.Common.{
  ℕ, zero, suc, ◌+◌, ◌==◌, if◌then◌else◌, Bool, true, false, not, ◌&&◌, Option, none, some,
}
use hydra_os.Bytes.{Bytes, poke}

strlen_loop : ℕ → Bytes → ℕ → ℕ → Option ℕ
strlen_loop zero m str len = none
strlen_loop (suc fuel) m str len =
    let rest = strlen_loop fuel m str (suc len) in
    if not (m (str + len) == 0) then rest else some len

pub strlen : ℕ → Bytes → ℕ → Option ℕ
strlen fuel m str = strlen_loop fuel m str 0

strcmp_loop : ℕ → Bytes → ℕ → ℕ → ℕ → Option Bool
strcmp_loop zero m str1 str2 i = none
strcmp_loop (suc fuel) m str1 str2 i =
    let rest = strcmp_loop fuel m str1 str2 (suc i) in
    if not (m (str1 + i) == 0) && not (m (str2 + i) == 0)
    then (if not (m (str1 + i) == m (str2 + i)) then some false else rest)
    else some (m (str1 + i) == m (str2 + i))

pub strcmp : ℕ → Bytes → ℕ → ℕ → Option Bool
strcmp fuel m str1 str2 = strcmp_loop fuel m str1 str2 0

strncmp_loop : ℕ → Bytes → ℕ → ℕ → ℕ → Bool
strncmp_loop zero m str1 str2 i = true
strncmp_loop (suc left) m str1 str2 i =
    let rest = strncmp_loop left m str1 str2 (suc i) in
    if not (m (str1 + i) == m (str2 + i)) then false else (if m (str1 + i) == 0 then true else rest)

pub strncmp : Bytes → ℕ → ℕ → ℕ → Bool
strncmp m str1 str2 n = strncmp_loop n m str1 str2 0

strcpy_loop : ℕ → Bytes → ℕ → ℕ → ℕ → Option Bytes
strcpy_loop zero m dest src i = none
strcpy_loop (suc fuel) m dest src i =
    let rest = strcpy_loop fuel (poke m (dest + i) (m (src + i))) dest src (suc i) in
    if not (m (src + i) == 0) then rest else some (poke m (dest + i) 0)

-- The memory after the call.
pub strcpy : ℕ → Bytes → ℕ → ℕ → Option Bytes
strcpy fuel m dest src = strcpy_loop fuel m dest src 0
