-- ===== src/Lib.antt =====
-- JMOS, a small x86-64 kernel: a model of its memory management, its C library, its interrupts and its
-- console.
--
-- The boot loader's memory map is captured first (Bootinfo). The frame allocator (Pmm) takes the usable
-- regions from it and hands out frames of 4 KiB by a bitmap; the kernel heap (Kalloc) takes runs of
-- frames from the allocator and hands out blocks of bytes. Both write memory with the C library's
-- functions (Cstring, Cstdlib, Cstdio). The interrupt table (Interrupt) dispatches the controllers'
-- interrupts to registered handlers, of which the timer's (Pit) is one; the segments that its gates
-- name are packed by Gdt. Paging maps pages by tables of frames from Pmm, and Memory starts allocator,
-- paging and heap in their order. The console writes text on the framebuffer (Console) with a font
-- that is copied into the heap (Font); the serial port (Serial) is the kernel's log.
--
-- Where the code stands:
--   Prelude   numbers, tests, lists, machine words, masks and integers that the parts share
--   Bootinfo  src/kernel/memory/bootinfo.c: bootinfo_capture and its getters; the loader's responses
--             are arguments
--   Pmm       src/kernel/memory/pmm.c: pmm_init, alloc_frame, alloc_frames, free_frame, free_frames,
--             pmm_reclaim_bootloader, pmm_total_bytes, pmm_free_bytes. The statics are the record Pmm,
--             the bitmap's bytes a function from their index. Below it Bitmap and Count have lemmas on
--             bits and on the number of free frames, Inv the invariant, Alloc, Run, Frames and Free the
--             operations, Ranges, Marking, Layout, Init and Boot the start, Calls sequences of calls
--   Kalloc    src/kernel/memory/kalloc.c: kheap_init, kmalloc, kcalloc, kfree, krealloc, heap_grow,
--             free_insert. The statics, the block headers and the payload are the record Kheap. Below it
--             Blocks views the list as blocks, Link and Insert treat free_insert, Take the search and
--             the cut, Grow heap_grow and the invariant, Malloc, Live, Free and Realloc the interface,
--             Client sequences of calls, Edge the start and the greatest sizes
--   Cstring   src/libs/string.c: the functions on strings and on blocks of bytes, and strerror; the
--             memory is a function from addresses to bytes
--   Cstdlib   src/libs/stdlib.c: atoi, atol, atoll, strtol, strtoll, strtoul, strtoull, itoa, abs, labs,
--             llabs. Parse and Itoa treat reading and writing, Trip one after the other
--   Cstdio    src/libs/stdio.c: vsprintf, emit_uint, emit_int, emit_str; the variable arguments are a list
--             of 64-bit words, and the count of characters is taken to stay below 2^31. Emit treats
--             numbers, Plain formats without conversions
--   Interrupt src/kernel/interrupt/idt.c, isr.c and init_syscalls of syscall.c: the table, the
--             controllers' set-up and irq_handler; writes to ports and calls of handlers are a list of
--             events
--   Exception isr_handler of src/kernel/interrupt/isr.c, as a list of calls of the serial port's functions,
--             whose text Layout describes; Report is its run
--   Gdt       src/kernel/memory/gdt.c: gdt_set_gate and the table of init_gdt
--   Pit       src/kernel/timer/pit.c: init_timer, timer_callback, register_timer_callback, get_tick
--   Paging    src/kernel/memory/paging.c: map_page, next_level, vmm_clone_kernel_space, vmm_load_space.
--             The tables are words at their addresses in the direct map. Below it Entry has lemmas on
--             entries, Walk, Space and Tour walk the tables and own their frames, Grow and Next treat a
--             level, Level and Leaf the ways to the page, Map the mapping, Moved, Tree, Held, Round,
--             Loop and Clone the copy of a tree of tables
--   Memory    src/kernel/memory/memory.c: memory_init over the parts that it calls
--   Serial    src/libs/serial.c: the set-up, the wait for the line and the writing of texts and numbers;
--             Putc, Text and Number treat them
--   Font      src/drivers/font/psf2.c and font.c: the PSF2 font and its loading, which Glyphs and Psf2
--             treat
--   Console   src/drivers/char_device/tui_device.c: writing to the framebuffer, opening and closing.
--             Draw treats the pixels, Cursor the place of the text, Open the allocation, and Print is
--             printf of src/libs/stdio.c
-- The modules called Tests have runs and the theorems at concrete inputs.
--
-- Loops with a bound in the code recurse on it. Walks along the heap's list take fuel, of which the
-- number of blocks and a few more is enough, and the loop of kmalloc takes fuel for two rounds, of
-- which its theorem proves that they are enough. The string functions take fuel above the length of
-- their strings, itoa fuel above 2^32 + 1. The wait of serial_putc takes as much fuel as the port
-- answers that it is not ready; the digits of serial_put_dec are at most 20, and its loop has fuel for
-- 21. `none` is a result only where fuel ran out, where C leaves a signed overflow, a division, a missing
-- argument or a read outside an array undefined, or where the code itself gives up, as each file says.
--
-- uint64_t and size_t arithmetic is reduced modulo 2^64. Pointer arithmetic inside one object does not
-- wrap. Interrupts do not come between the statements of a function, and one processor runs.
--
-- Not modelled: strcpy_s, which the preprocessor leaves out; sprintf and the port instructions of stdio.c;
-- char_device_init, which stores two addresses; abort; the lines that memory.c and kernel_main.c log; the
-- assembler's stubs; limine.h, which is the boot loader's; kernel_main.c, which only calls the rest.
pub mod Bootinfo
pub mod Console
pub mod Cstdio
pub mod Cstdlib
pub mod Cstring
pub mod Exception
pub mod Font
pub mod Gdt
pub mod Interrupt
pub mod Kalloc
pub mod Memory
pub mod Paging
pub mod Pit
pub mod Pmm
pub mod Prelude
pub mod Serial
