-- ===== src/Lib.antt =====
-- NANO S16: an operating system for 16-bit x86 computers in real mode.
--
-- The development models the parts of the system that are C code with a state of their own, as
-- functions on explicit states, and proves what makes them correct.
--
-- Heap.antt, kernel heap, source/kernel.c: `heap_init`, `heap_alloc`, `heap_free` over the block
-- table. Proofs in Heap/Search (the scan), Heap/Alloc, Heap/Invariant, Heap/Reach.
-- FarMemory.antt, memory of user programs, source/kernel.c: `lmem_init`, `lmem_alloc`, `lmem_free`
-- over the sorted table of blocks. Proofs in FarMemory/Layout (the order of the table), Slot, Insert,
-- Alloc, Free, RoundTrip, Limit and Reach.
-- Strings.antt, source/ulib/ulib.c: the string functions that the file system uses.
-- Memory.antt, source/ulib/ulib.c: `memcpy`, `memset`, `memcmp`, `lmemcpy`, `lmemset`. Proofs in
-- Memory/Copy and Memory/Range.
-- Disk.antt, byte access to disks, source/fs.c: `read_disk` and `write_disk`. Proofs in Disk/Bytes, Disk/Stored, Disk/Read,
-- Disk/Write, Disk/Success, Disk/Masked, Disk/Aligned.
-- Fs, the file system, source/fs.c and source/fs.h: Fs/Types (structures and constants), Fs/Image
-- (their bytes), Fs/Time (time stamps; the clock of source/kernel.c), Fs/Monad (the globals and the
-- error returns), Fs/Table (the entries table), Fs/Chain (chained entries), Fs/Paths (names and
-- paths), Fs/Files (reading and writing files), Fs/Dirs (directories) and Fs/Format (whole disks). The theorems stand in the child modules of these.
-- Editor.antt, source/programs/edit.c: the conversions of positions; Editor/Keys and Editor/Session:
-- the loop of `main` (the mouse, the keys, saving and scrolling). Proofs in the child modules.
-- Assembler, the assembler of user programs, source/programs/nas.c: Assembler/Tables (`r_data`,
-- `i_data`), Assembler/Encode (`encode_instruction`, `encode_data`), Assembler/Tokens (`read_line`,
-- `tokenize_line`), Assembler/Symbols (the two tables of symbols, `find_instruction`),
-- Assembler/Program (a line, the body of the loop of `main`) and Assembler/Pass (its loops).
-- Assembler/Machine is an independent description of how an 8086 reads instructions, and
-- Assembler/Symbols/Names of what the table of symbols stands for; the other modules are proofs.
-- Net, the network stack, source/net.c: Net/Crc (`xor32`, `crc32_byte`), Net/Checksum (`net_checksum`),
-- Net/State (the globals), Net/Arp (`get_effective_ip`, `find_mac_in_table`, `arp_recv_process`),
-- Net/Receive (`ip_recv_process`, `net_recv`) and Net/Send (`eth_send`, `arp_request`, `arp_reply`,
-- `ip_send`, `provide_mac_address`, `udp_send`). Net/Crc/Xor has the laws of exclusive or. The packets
-- that come in while `provide_mac_address` waits are a parameter.
-- Format, the formatted output of source/ulib/ulib.c (`format_str_outchar`, `formatstr`, `ip_to_str`),
-- and LineInput, its `getstr`.
-- Pci, source/pci.c: the scan of the bus and the search in its table. Mouse, `mouse_handler` of
-- source/kernel.c. Video, source/video.c: the pixels of the graphics mode and its emulated cursor;
-- proofs in Video/Pixels (reading and setting), Frame, Loops, Restore (the loops over six pixels),
-- Cursor, Screen and Reach (the cursor as steps).
-- Each file system function calls those of the file before it, down to `read_disk` and
-- `write_disk`, the way the source does.
--
-- Numbers are natural numbers; 16-bit and 32-bit wrap-around is written out as `u16`, `u32`, `sub16`
-- and `sub32`. Buffers are lists of bytes; a pointer that is passed on is an address next to the
-- list. What the C code would read or write past an array is read as 0 and written nowhere.
--
-- Outside the program: the BIOS. `read_disk_sector` and `write_disk_sector` give the statuses that
-- the record `Bios` holds, for every call by its disk, first sector and count, and a call with
-- status 0 moves whole sectors of 512 bytes.
--
-- Loops over an array or a counter are structural recursions or have the counter as fuel. Loops over
-- a chain of entries and recursions over a tree of directories have 2 ^ 16 turns, more than there
-- are 16-bit indices; one that needs more goes round a cycle, and the result is `stuck`. The loop of
-- `lmem_free` has 129 turns, and is proved to end by its test. The loop over the lines of an assembler
-- file of n bytes has n + 1 turns, which is proved to be enough, and `tokenize_line` has a turn for
-- each byte of the line. Where the C code of the assembler would store outside its tables or its
-- output buffer, the model ends with `overrun`.
--
-- Not modelled: the assembly code, drivers and everything that is only port access (source/hw86.s, the
-- driver of the card in source/net.c), glyphs, scrolling and terminal output in source/video.c, the
-- command interpreter source/cli.c, the unpacking of system calls in source/kernel.c, the rest of the programs under
-- source/programs and the host tool fstools/mkfs.c. Each operation is
-- modelled as a whole: interrupts that come in while one runs are not. Those of the timer, the mouse
-- and the card call `video_blink_cursor`, `mouse_handler`, `ip_recv_process` and `arp_recv_process`
-- while services run with interrupts enabled; here these are steps between the others.
pub mod Prelude
pub mod Strings
pub mod Memory
pub mod Heap
pub mod FarMemory
pub mod Disk
pub mod Fs
pub mod Editor
pub mod Assembler
pub mod Net
pub mod Format
pub mod LineInput
pub mod Pci
pub mod Mouse
pub mod Video
