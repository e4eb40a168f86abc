-- ===== src/Lib.antt =====
-- Verification of redshell, a simple UNIX shell in C.
--
-- The program reads a line, expands its history and hands it to `parseInput` (src/parser.c), which
-- the state machine of src/parser.rl generates. The parser collects the text of each command and
-- the names of its redirections in three arrays, lets `expandAlias` (src/helper.c, with the aliases of
-- src/alias.c) rewrite the command's first word and `wordexp` split the result into words, and puts
-- the commands into a queue (src/queue.c), which src/jobs.c executes. The builtin commands of
-- src/builtins.c change the aliases.
--
-- The files:
--   Base       Boolean tests, lists, strings and runs that may reach undefined behaviour
--   Command    src/command.c and src/command.h: the command, its connection and what it frees
--   Queue      src/queue.c: the linked list on a heap of nodes, and how src/parser.c and src/jobs.c use
--              it (Roundtrip)
--   Alias      src/alias.c over the hash table of src/hash-table.h, which is a parameter
--   Helper     src/helper.c: `expand` and `expandGlob` over `wordexp`, which is a parameter, and
--              `expandAlias`
--   Parser     src/parser.c: the tables (Tables), the two binary searches over them (Lookup), the
--              arrays of `struct params` (Buffer), the actions, the loop and what follows it (Machine).
--              Chart is the state machine as a function of the state and the class of the byte,
--              Outline the parser without arrays, pointers and tables, Grammar the syntax trees of
--              src/parser.rl with the commands that they mean, and Grammar/Decides which lines are
--              theirs; Shapes what the commands of the queue look like
--   Shell      `parseInput` with `expandAlias` over the aliases, as the program links them
--   Builtins   src/builtins.c: the table of the builtin commands, and the commands
--   Jobs       src/jobs.c: `executeCommandsInQueue` as the system calls that it makes (Loop); Order is
--              about a log of its forks and waits, Returns about its end in the parent, Aliases about
--              the aliases while it runs, Inside about a builtin command that runs in the shell, and
--              Queued has its loop on the linked list
--   Main       src/main.c: the signal handler, `main`, the loop of `run` over the lines that are read,
--              and the exit handler
--   Prompt     src/prompt.c: `setPrompt`
--   Tests      runs on concrete inputs, and each theorem at one
--
-- Strings are lists of bytes without their terminator. The arrays of BUFSIZE + 1 bytes in
-- `struct params` are functions from positions to bytes with stores that fault outside the array; the
-- memory that `malloc` returns is arbitrary. A run (Base/Faults) is a value or the undefined
-- behaviour reached: a null pointer followed, or an access outside an array.
--
-- The numbers of rounds of the parser's loops and of `expandAlias` are bounded, with the bounds proved
-- to be enough. A binary search has as many rounds as the table has entries for the state. The loop of
-- `expandAlias` has one round more than the table has entries, since every round but the last takes a
-- free alias into use. The loop of the parser goes over the bytes of the line. How often `waitpid` may be
-- interrupted at the end of `executeCommandsInQueue` is the system's choice: that loop has its number of
-- rounds as an argument, which is enough where it reaches the system's limit (Jobs/Returns). The loop of
-- `run` goes over the list of the lines that are read.
--
-- A run of src/jobs.c is that of one process: `fork` says in which of the two processes it goes on.
-- `size_t` has 64 bits, and the queue's count wraps around.
--
-- The allocation of memory is taken to succeed, as the code does. Whether `char` is signed is a
-- parameter. `wordexp`, the hash table and the system calls are not part of the repository's own code:
-- they are parameters, the hash table with the laws that its header documents. `wordexp` reads
-- the state in which a line is parsed, and a command substitution in it is not taken to change that
-- state. The allocation and the release of the parser's own memory are not modelled, nor is what readline and its
-- history do.
pub mod Alias
pub mod Base
pub mod Builtins
pub mod Command
pub mod Helper
pub mod Jobs
pub mod Main
pub mod Parser
pub mod Prompt
pub mod Queue
pub mod Shell
pub mod Tests
