-- ===== src/Shell/Files/Tests.antt =====
-- The commands on files, on a drive that was formatted.
use hydra_os.Common.{◌≡◌, refl, length-replicate, arith}
use hydra_os.Ata.Drive.Tests.{bus, disk, bus-IsDrive}
use hydra_os.Memory.Tests.{heap0}
use hydra_os.Filesystem.Layout.{Inode, blank}
use hydra_os.Filesystem.Files.{mount}
use hydra_os.Filesystem.Store.{FileSystem}
use hydra_os.Filesystem.Session.{IsFresh, format-IsFresh}
use hydra_os.Filesystem.Tests.{name_a, name_a-IsString, name_a-IsBytes}
use hydra_os.Filesystem.Hardware.Booting.{Booted-IsValid}
use hydra_os.Filesystem.Hardware.Tests.{
  small, works, memory, memory-long, booted, booted-Booted, next_boot,
}
use hydra_os.Shell.Files.{named_text, command_touch, command_write, command_cat}
use hydra_os.Shell.Files.Printing.{Prints}
use hydra_os.Shell.Files.Contents.{wrote_text, command_cat-command_write}

abbrev on_drive : FileSystem small
on_drive = (mount small next_boot).1

on_drive-IsFresh : IsFresh small works on_drive
on_drive-IsFresh =
    (format-IsFresh small works booted next_boot name_a
      (Booted-IsValid bus disk bus-IsDrive memory memory-long heap0 16 4000 booted booted-Booted)
      name_a-IsBytes refl (length-replicate {A = Inode} 64 blank)).1

command_cat-command_write_example :
    (let touched = command_touch small on_drive name_a in
      let wrote = command_write small touched.1 name_a in
      (touched.0 ≡ named_text name_a "' created.\n")
      × (wrote.0 ≡ wrote_text small works name_a)
      × Prints small works wrote.1 (command_cat small wrote.1 name_a))
command_cat-command_write_example =
    command_cat-command_write small works on_drive name_a on_drive-IsFresh name_a-IsString
      (omega arith) (omega arith)
