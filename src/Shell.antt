-- ===== src/Shell.antt =====
-- shell.cpp and shell.h: the interactive shell. A command's calls of the screen driver are a list
-- of outputs, which `show` makes in order; no command looks at the screen, so the outputs of a
-- command are made when its work on the disk is done.
pub mod Strings
pub mod Output
pub mod Colors
pub mod Info
pub mod Uptime
pub mod Files
pub mod Disk
pub mod Editor
