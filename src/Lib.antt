-- ===== src/Lib.antt =====
-- Verification of the system programming labs.
--
-- The repository holds independent C programs. Modelled here are the directory listing of the I/O
-- lab, the dynamic memory manager of the memory lab with the data segment that it allocates from,
-- the block list of its test program, the command lines, their execution, the job list and the job
-- control of the shell lab, and the line transfer, the server and the client of the network lab.
--
-- - Common: library names passed on, Boolean tests, lists, and `Run`, the outcome of C code: a
--   value, a memory fault, a call that ends the process, or a loop out of fuel.
-- - Memory.DataSegment: lab-3-memory/src/dataseg.c. ds_allocate, ds_release, ds_sbrk and the rest
--   under their names. The kernel (mmap, getpagesize, mprotect) is a parameter.
-- - Memory.Manager: lab-3-memory/src/memmgr.c, the global variables and macros; Manager.Policies
--   has the three searches, Manager.Operations mm_init, mm_malloc, mm_calloc, mm_realloc, mm_free and
--   mm_check. The heap is a function from byte addresses to 64-bit words; every access is checked
--   against the area that the data segment marked READ/WRITE. Manager.Layout has the abstract view, the
--   list of blocks between the sentinels; the modules below it prove the operations against it.
-- - Memory.BlockList: lab-3-memory/src/blocklist.c. BlockList.Links has insert_block,
--   find_block and delete_block over nodes with prev and next pointers, whose loops run on as much
--   fuel as nodes were ever allocated; the blocks between the sentinels as a list are their
--   specification. The operations that read the list are functions of it, with indices for pointers.
-- - Shell.Jobs: lab-4-shell/csapsh.c, the job list; Shell.Control the signal handlers, fg and bg,
--   and waitfg. Shell.Control.Foreground has the step relation over launches, commands, reaped
--   children and the end of a wait, in any order.
-- - Shell.Parser: parseline of the same file, over the characters of a line. Each of its rounds
--   moves past a character, so that the length of the line and one bounds them.
-- - Shell.Pipeline: the pipes of eval in the same file, over the tables of open descriptors of the
--   shell and of its children. pipe, dup2, open and close are a parameter, with their documented
--   behaviour as named laws. Shell.Eval: eval and builtin_cmd, which put the parser, the job list
--   and the pipelines together. Shell.Main: the read/eval loop of main over the characters of its
--   input, with the children that sigchld_handler reaps for each line and the wait of waitfg; each round reads at least one of them, so that their number and one bounds the rounds.
--   Shell.Parser.Grammar: the command lines of the comment above parseline as data, with their text
--   and their meaning.
-- - Network: lab-5-network/net.c, transfer_data with get_data and put_data; Network.Line get_line and
--   put_line. recv and send are a list of results that the loops consume: transfer_data takes no
--   fuel, and get_line takes a round for each result.
-- - Server: lab-5-network/mcdonalds.c. Server.Orders has the linked list of orders on a memory of
--   nodes, Server.Buffer the buffer of connections, Server.Threads serve_client and kitchen_task as
--   step functions over the place where a thread stands, and the step relation over connections,
--   threads, signals and SIGINT in any order. Server.Start has init_mcdonalds, Server.Listening
--   start_server over the results of its calls, and Server.Closing the statistics and the handlers of
--   SIGINT.
-- - Client: lab-5-network/client.c, thread_task. Client.Conversation runs it against the line
--   transfer and the steps of serve_client.
-- - Tree: lab-2-io/dirtree.c, processDir over the tree that the file system shows. Its fuel is the
--   depth of the recursion, and the depth of the tree is enough. qsort of the C library is an insertion sort.
--   Tree.Main: main, with its options, the loop over the directories and the grand total.
-- - The modules named Tests apply the theorems at concrete states.
--
-- Words are 64 bits: sums in size_t and the brk are taken modulo 2 ^ 64. A loop over the blocks
-- takes `heap_end + 1` rounds of fuel, which is enough where every block has a positive size, since
-- the pointer moves up in each round and stays at most `heap_end`. On a heap with a block of size 0
-- the C loop does not end, and then no fuel is enough.
--
-- Not modelled: log and other output, the test program of the memory lab; the options of
-- the shell, its installation of handlers, its signal mask and a failing fork; the text of the
-- reports of the I/O lab; and of the network lab getsocklist, the start and the join of threads by
-- the mains, and all messages. A step of a server thread takes its accesses to the list of orders
-- as one, although the code takes no lock for them; a wait may end without a signal in any state.
-- The policy of mm_init is one of the three of its enum, a number given to fg or bg is in the range of
-- int, for which atoi is defined, and ds_sbrk is called less than 2^63 times.
mod Common
pub mod Memory
pub mod Shell
pub mod Network
pub mod Server
pub mod Client
pub mod Tree
