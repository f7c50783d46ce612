-- ===== src/Lib.antt =====
-- FOS, an educational operating system kernel for 32-bit x86 with demand paging, and its user library.
-- Paths are those of the repository, below FOS_Project_2016_Template/.
--
-- A user program gets memory from malloc of lib/uheap.c, which searches its own table of pages and
-- asks the kernel for the pages. The first access to such a page faults; page_fault_handler of
-- kern/trap.c brings the page in, and replaces one where the working set of kern/memory_manager.c is
-- full. kern/sched.c ages the pages for LRU. The kernel keeps its environments and frames in the lists of
-- inc/queue.h: an environment of kern/user_environment.c comes from the list of free ones, goes through
-- the queues of kern/sched.c, and back. lib/string.c has the block moves and strings of both sides, and
-- lib/printfmt.c their formatted output.
--
-- Base has the shared names, Base/Outcome the results of code that may fault or run out of
-- fuel, Base/Circle circular order.
-- Mmu is the address arithmetic of inc/mmu.h, inc/memlayout.h and inc/types.h.
-- Queue is inc/queue.h: a list macro is the function of its name over the list's head and the links of
--   all elements. Queue/Seg describes a list by the sequence of its elements; Queue/Insert,
--   Queue/Before, Queue/Remove and Queue/Walk are about the operations.
-- UserHeap is lib/uheap.c: malloc is `place` for the search, with a loop per strategy, and `finish`
--   for the tables; free is `find_addr` and `free_at`. UserHeap/Valid has the invariant of the
--   tables, UserHeap/First, Fit and Next the searches, UserHeap/Occupy the tables' update.
-- WorkingSet is the env_page_ws_ and env_table_ws_ functions of kern/memory_manager.c, without the
--   prefix; WorkingSet/Count is about sizes, WorkingSet/Find about
--   invalidation, WorkingSet/Tables about addTableToTableWorkingSet.
-- PageFault is page_fault_handler of kern/trap.c and update_WS_time_stamps of kern/sched.c.
--   PageFault/Lru and Clock the choice of a victim, PageFault/Slot
--   the search for room, PageFault/Handler the whole handler.
-- Sched is the queues of kern/sched.c and fos_scheduler up to its call of env_run: Sched/Turn is the
--   order in which the ready environments run, Sched/Leave their removal.
-- Envs is the life of an environment: the lists of kern/user_environment.c, the commands of kern/sched.c
--   that run, exit and kill environments, and envid2env of kern/helpers.c. Envs/Queues relates the lists
--   to the statuses, with Envs/Statuses; Envs/Moves and Turnover are about the single steps,
--   Envs/Find about the searches, Envs/Commands, Kills and KillAll about the commands,
--   Envs/Init about env_init, Envs/Counting about how often an environment stands in a list,
--   Envs/Ids about the identifiers, and Envs/Reach about the states that are reached.
-- Programs is the program segments of kern/user_environment.c over the headers of inc/elf.h, with
--   Programs/Segments.
-- Boot is the allocation of memory and the page tables of kern/memory_manager.c before the paging is on:
--   Boot/Tables is about boot_get_page_table, Boot/Mapped and Checked about boot_map_range, as
--   check_va2pa of kern/helpers.c reads its result.
-- Permissions is the pd_ and pt_ functions of kern/memory_manager.c on the flags of entries, with
--   Permissions/Bits on bits and Permissions/Entries on entries.
-- Frames is the frames of kern/memory_manager.c and their mapping where the page tables are in memory:
--   Frames/Counted has the reference counts, Frames/Mapping is about unmap_frame and Frames/Remapping
--   about map_frame; Frames/Start is initialize_paging. KernelHeap is kern/kheap.c on top of it, with
--   KernelHeap/Inverse on kmalloc and the two address tables, and KernelHeap/Calls on calls of kmalloc
--   one after the other.
-- Strings is lib/string.c; Strings/Move is about blocks, Strings/Length about strings and
--   Strings/Bounded about strlcpy. Strings/Numbers is its strtol and ltostr, with
--   Strings/Parsed, and Strings/Words is strsplit.
-- Format is vprintfmt of lib/printfmt.c, with Format/Digits on printnum. Print is where its characters
--   go: Print/Bounded is about vsnprintf of lib/printfmt.c, Print/Flushed about vcprintf of lib/printf.c.
-- PageFile is kern/file_manager.c: the page file and the table file over the disk's sectors.
--   PageFile/Apart is its invariant, PageFile/Keeps the operations that keep it, PageFile/Reach the states
--   that are reached, PageFile/Created and RoundTrip what is read after a page is added.
-- Console, Screen and Keyboard are kern/console.c: Console its buffer of input characters, with
--   Console/Fifo; Screen cga_putc, with Screen/Scroll and Screen/Bounds; Keyboard kbd_proc_data,
--   with Keyboard/Codes. Readline is lib/readline.c, with Readline/Edit.
-- Examples has the theorems at concrete inputs, and tests.
--
-- Numbers are natural numbers, with the wrap of uint32 written out where the source can reach it. An
-- access outside an array, a failed assertion and a panic are `fault`.
--
-- Fuel: a search of malloc passes each of the 131072 pages at most once, NEXT FIT with one wrap, and has
-- fuel for 131074 steps. CLOCK has fuel for two rounds of the working set, of which one and a step are
-- used; the search for an empty element has one step more than elements. The fuel of a string
-- loop is the number of bytes it may read. printnum has fuel for 64 digits, as many as a number of 64
-- bits has in base 2. The loops over a queue have more fuel than it has elements, and those over the
-- program headers more than there are headers. boot_map_range has more fuel than the range has pages.
--
-- In the page fault handler what pf_read_env_page returns and the frame that allocate_frame finds are arguments of the handler;
-- its calls of the pager and of the page file are recorded as actions. The elements that it reads at
-- `__uptr_pws`, the user's mapping of the page working set, are those of the working set. The page table entries are a
-- function of the page.
--
-- Not modelled: page tables that are not in memory and their creation after the start, page buffering, the loading of a
-- program's pages and the registers of an environment, kmallocFirstFit and kmallocBestFit (which
-- nothing calls); the commands of the prompt, boot, devices, system call dispatch and everything
-- else that is input, output or assembly; shared memory and semaphores, which panic.
pub mod Base
pub mod Mmu
pub mod Queue
pub mod UserHeap
pub mod WorkingSet
pub mod PageFault
pub mod Strings
pub mod Sched
pub mod Frames
pub mod Boot
pub mod Permissions
pub mod KernelHeap
pub mod Console
pub mod Screen
pub mod Readline
pub mod Keyboard
pub mod PageFile
pub mod Format
pub mod Print
pub mod Envs
pub mod Programs
mod Examples
