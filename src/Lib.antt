-- ===== src/Lib.antt =====
-- A verification library for the kernel of the NJU operating systems labs. It models the C sources
-- of the kernel and proves properties of the models. Paths are from the root of the repository.
--
-- The parts and how they interact. The kernel's memory manager (kernel/src/pmm.c) hands out objects
-- from slabs (kernel/src/slab.c), which take their memory from the page allocator
-- (kernel/src/page.c); both use the exchange locks and the alignment helpers of
-- kernel/src/common.c. Every interrupt enters `trap` (kernel/src/os.c), which calls the handlers
-- that the other modules registered with `on_irq`: the one of kernel/src/kmt.c that saves the
-- context first, its scheduler last, the device drivers between them. Tasks synchronise by spin
-- locks (kernel/src/spinlock.c), which switch off the interrupts of their CPU with `interrupt_off`
-- and `interrupt_on` (kernel/src/os.c), and by semaphores (kernel/src/sem.c), which are built on
-- spin locks. The terminal (kernel/src/dev/dev_tty.c) changes its screen under a semaphore. The
-- drivers use the string functions of abstract-machine/klib/src/string.c; the task of the terminal
-- reads the events that the input device (kernel/src/dev/dev_input.c) makes of keys, and the disk
-- (kernel/src/dev/dev_sd.c) moves whole blocks. Below the kernel, the boot loader
-- (abstract-machine/am/src/x86/qemu/boot/main.c) copies it into memory, `__am_irq_handle`
-- (abstract-machine/am/src/x86/qemu/cte.c) turns an interrupt into an event and a context for `trap`, and
-- abstract-machine/am/src/x86/qemu/vme.c keeps the page tables of address spaces.
--
-- The files:
--   Prelude.antt, Prelude/: what the other modules share: the names of the libraries, Boolean tests,
--     lists over the native numbers, arithmetic of 64-bit words (`u64`, `sub64`), masks, and the
--     ruleset.
--   Common.antt: `_lock`, `_unlock`, `_try_lock` (`lock`, `unlock`, `try_lock`), `align_ptr` and
--     `is_aligned` of kernel/src/common.c. Common/Align.antt: their properties.
--   Buddy.antt: the state of kernel/src/page.c (`PageSystem`: the globals, and the bytes of each page
--     record as a function from node numbers), `trans_page_size`, `page_init`, `page_system_init`.
--     Buddy/Alloc.antt: `page_alloc` and what it calls. Buddy/Free.antt: `page_free`. The other files
--     of Buddy/ are proofs: Tree, Place, Blocks and Classes on the abstract view (a unit is a tree of
--     free, allocated and split blocks), Space, Search and Scan on the steps of an allocation, Valid
--     on the invariant, Grant on `page_alloc`, Levels and Booting on the start, Leak on `page_free`,
--     History on sequences of calls, Sample on a heap of one unit, Tests on concrete memories.
--   Slab.antt: kernel/src/slab.c on blocks and slabs at addresses; the page allocator is an argument.
--     Slab/Layout, Chain, Free, Valid, Blocks and Lists are about the free list of a slab and the
--     lists of slabs, Pages and Cache about a new slab, Served and Alloc about `slab_alloc`, Return
--     about `slab_free`; Sample and Tests are a concrete memory.
--   Pmm.antt: `kalloc` and `kfree` of kernel/src/pmm.c. Pmm/Route.antt: which allocator gets a pointer
--     back.
--   Klib.antt: abstract-machine/klib/src/string.c on a memory of bytes. Klib/Memory.antt: `memmove`.
--     Klib/Text.antt: `strlen`, `strcpy` and `strcat`. Klib/Compare.antt: `strncmp` and `strcmp`.
--   Irq.antt: `on_irq` and `trap` of kernel/src/os.c on the list of requests, for handlers on any
--     state. Irq/Order.antt: the order of the list. Irq/Dispatch.antt: what `trap` runs.
--   Spin.antt: `interrupt_off` and `interrupt_on` of kernel/src/os.c and `init_cpu` of
--     kernel/src/kmt.c on one CPU. Spin/Nesting.antt: nested sections. Spin/Exclusion.antt: the
--     calls of kernel/src/spinlock.c as steps of several CPUs that interleave.
--   Sem.antt: `sem_init`, `sem_wait` and `sem_signal` of kernel/src/sem.c. Sem/Queue.antt: the ring as
--     a list. Sem/Refine.antt: an abstract semaphore, and each call against it. Sem/Counting.antt:
--     sequences of calls.
--   Kmt.antt: `kmt_schedule`, `kmt_context_save`, `create` and `teardown` of kernel/src/kmt.c on tasks
--     at addresses. Kmt/Init.antt: `kmt_init`. Kmt/Poll.antt, Kmt/Outcomes.antt and
--     Kmt/RoundRobin.antt: `kmt_schedule` against a turn through a list. Kmt/Tasks.antt: the list under
--     `create` and `teardown`. Kmt/Turns.antt and Kmt/Contexts.antt: a saved context until its task is
--     taken up again.
--   Tty.antt: the screen of kernel/src/dev/dev_tty.c, which `tty_write` changes by `tty_putc`.
--     Tty/Screen.antt: the validity of a screen, and characters. Tty/Rows.antt: line feeds and
--     carriage returns. Tty/Output.antt: sequences of bytes. Tty/Queue.antt: the queue of typed lines,
--     `tty_enqueue`, `tty_pop_back`, `tty_cook` and the loop of `tty_read`. Tty/Cook.antt: backspaces.
--     Tty/Draw.antt: `tty_render` and `tty_write`, and the sprites of `fb_write`
--     (kernel/src/dev/dev_video.c). Tty/Drawn.antt, Tty/Shown.antt: what the display shows behind
--     them. Tty/Bytes.antt: characters stay bytes. Tty/Synced.antt: the display shows the screen.
--   Input.antt: the ring of events, the keys and the rounds of the input task of
--     kernel/src/dev/dev_input.c. Input/Keys.antt: the codes of keys and the table of characters.
--     Input/Ring.antt: the ring as a list. Input/Typing.antt and Input/Keydown.antt: keys against a
--     keyboard that knows which keys are held. Input/History.antt: rounds and reads in any order.
--   Disk.antt: `sd_read` and `sd_write` of kernel/src/dev/dev_sd.c. Disk/Read.antt, Disk/Write.antt:
--     what they copy.
--   Stdio.antt: `_itos`, `vsprintf`, `sprintf` and `snprintf` of abstract-machine/klib/src/stdio.c and
--     `atoi` of abstract-machine/klib/src/stdlib.c. Stdio/Digits.antt: the digits that `_itos` writes.
--     Stdio/Atoi.antt: `atoi` on them. Stdio/Numbers.antt: one directive. Stdio/Format.antt and
--     Stdio/Printing.antt: formats in pieces. Stdio/Bounded.antt: `snprintf`.
--   Vme.antt: `vme_init`, `protect`, `unprotect`, `map`, `ucontext` and what they call, of
--     abstract-machine/am/src/x86/qemu/vme.c as built for x86_64. Vme/Entries.antt: the bit operations.
--     Vme/Translate.antt: what the processor reads out of the tables, and their shape. Vme/Grow.antt: a
--     new table. Vme/Walk.antt: `ptwalk`. Vme/Leaf.antt, Vme/Marks.antt: the write of `map`.
--     Vme/Mapping.antt: `map` and the translation. Vme/Fresh.antt: `protect`. Vme/Teardown.antt: `unprotect`.
--     Vme/History.antt: sequences of `map`.
--   Cte.antt: `__am_irq_handle` and `kcontext` of abstract-machine/am/src/x86/qemu/cte.c. Cte/Resume.antt:
--     contexts that are saved and loaded. Cte/Events.antt: events and acknowledgements.
--   Boot.antt: `copy_from_disk`, `load_program`, `load_elf64` and `load_elf32` of
--     abstract-machine/am/src/x86/qemu/boot/main.c. Boot/Load.antt: what a segment is in memory.
--   Video.antt: `texture_fill` and `font_load` of kernel/src/dev/dev_video.c. Video/Glyphs.antt: the
--     textures of characters.
--   The files called Tests apply the theorems to concrete states.
--
-- Numbers. Addresses and sizes are natural numbers with `uintptr_t` and `size_t` arithmetic written
-- out modulo 2 ^ 64; an `int` that can be negative is its bit pattern. `NULL` is 0.
--
-- Bounds and fuel. `trans_page_size` has thirteen classes to try, and `page_init` thirteen levels to
-- write, and both models take that many rounds. `get_space_in_page` and `free_space_in_page` recur on
-- the size class, which falls by one at each level. `page_system_init` runs on 257 rounds of fuel:
-- `page_pool` has 256 entries, and a run that needs more rounds has written past its end before, an
-- outcome of the model; the theorems about it show that it does not run out of fuel. The loop of
-- `kmt_schedule` has the bound of the source, `poll_times`; that of `teardown` takes its fuel as an
-- argument, and one round for each task is enough. A walk through the slabs of a class takes its
-- fuel as an argument, and one round for each slab is enough; `strlen` needs one for each byte of
-- the string and one more, and the loop of `tty_read` one for each byte up to the next 0. The
-- loops of `sd_read` and `sd_write` move a byte or more in each round, so that one round more than
-- bytes is enough; a number of `vsprintf` has at most twenty digits, for which the model takes 66
-- rounds, and a format one round for each piece and each byte of a string. A wait for a lock that
-- is held is an outcome of its own (`none`, `stuck`), which the theorems about the allocator exclude
-- when calls come one after another.
--
-- The loops of `map`, `protect` and `teardown` have the bounds of the source. `copy_from_disk` takes its
-- fuel as an argument, and two rounds more than whole sectors are enough.
--
-- What is modelled is the build without `DEBUG`, in which the assertions are early returns, for x86_64.
-- Parameters: the handlers behind `trap` and `__am_irq_handle`, and `pgalloc`, whose answers are
-- supposed to be whole pages, none of them twice. Not modelled: the interleaving of calls inside the
-- page allocator and the page tables; names of locks and tasks; the loop of yields at the end of
-- `sem_wait`, which runs while the task is blocked; the table of drivers (kernel/src/dev/dev.c), the
-- start and the task of the terminal, `sd_init`, `fb_init` and `fb_read`, which ask the hardware for
-- sizes and hand out memory; the font, which is data; `printf`, and `rand`, `srand` and `abs`, which
-- the kernel does not rely on. Of abstract-machine the rest is port I/O, descriptor tables, assembly
-- and system calls of the host, for which there is no description in the repository to prove it
-- against; abstract-machine/klib/src/int64.c is a copy of another project's library. The kernel's
-- tests, and the folders libco, pstree and crepl, which are empty exercises, are left out.
pub mod Prelude
pub mod Common
pub mod Boot
pub mod Buddy
pub mod Cte
pub mod Disk
pub mod Input
pub mod Irq
pub mod Klib
pub mod Kmt
pub mod Pmm
pub mod Sem
pub mod Slab
pub mod Spin
pub mod Stdio
pub mod Tty
pub mod Video
pub mod Vme
