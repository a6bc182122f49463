-- ===== src/Lib.antt =====
-- A verification library beside the C exercises of this repository. Each directory "N work" holds
-- programs of its own; the library models the phone books, the programs on bits and on matrices, two
-- programs with threads, the socket programs, a chat over message queues and one in shared memory, a
-- task queue, raw packets and their checksum, a file manager, a tree of processes, a shell and two
-- string functions. Paths are given from the root of the repository.
--
-- Phone books. A session with a console (Console) is a list of the conversions that `scanf` makes and
-- the list of the messages printed; a fixed prompt is left out. Console/Sim compares two programs,
-- Console/Ends bounds the rounds of a loop, Console/Safe shows that a run has no fault. Phonebook/Menu
-- is the menu loop, which the three programs share and which takes their four operations as a record.
--   - Phonebook/Table and Phonebook/Fixed: "4 work/reference_book.c" (`add_abonent`, `show_abonent`,
--     `del_abonent` with its shifting loop, `search_abonent`, `main`). Phonebook/Table/View reads the
--     table as a list, Phonebook/Fixed/Spec is the phone book on lists.
--   - Phonebook/Blanking: "5 work/task1.c", whose `del_abonent` empties an entry in its place.
--   - Phonebook/Dynamic: "6 work/reference_book.c", a block that `realloc` resizes. Which requests
--     `realloc` grants, and what new memory holds, are parameters.
-- A char array is the list of its bytes in front of the NUL, and a word that does not fit its array is
-- a fault of the run. A number that `scanf` reads is any integer, and what the code computes from it
-- is a fault where an `int` would overflow. A run is followed as long as each `scanf` finds an item of
-- its kind: the programs do not look at its result, and go on with what their variables hold when it
-- fails.
--
-- Strings. Text models `reverse_string` of the socket servers, with its swaps by index, and
-- `findSubstring` of "3 work/task4.c".
--
-- Bits: "1 work" and "3 work/task1.c", on words of 32 bits, with `&` and `|` bit by bit. Bits/Words has
-- the lemmas on binary digits, Bits/Prints is about `printBinary` and `countOnes`, Bits/Replaces about
-- the replacement of a byte.
--
-- Matrices: "2 work/task1.c", task3.c and `fillSpiral` of task4.c, on a matrix that is a function of
-- its two indices. Matrices/Segments is about each loop of a round, Rings about a round, Spiral about
-- the rounds, of which there are at most as many as rows and which fault where the product of the size
-- with itself overflows an `int`; Rows is about task1.c and task3.c.
--
-- FileManager: "9 work/task2.c". What `readdir`, `chdir` and `getcwd` say is a parameter, the record
-- `Files`; a window is the list of what is printed into it. FileManager/Selects is about the key that
-- opens an entry, Moves about where a panel and the process stand, Stuck about a directory that cannot
-- be entered, Lists about what a window shows.
--
-- Threads.
--   - Counter: "11 work/task2.c", two threads and `main`, a shared access at a time. The bound of the
--     loop is a parameter, 100,000 in the source.
--   - Shops: "11 work/task3.c", buyers and a loader. Every access to the shops and to the count of the
--     buyers is under a mutex, and nothing waits inside a critical section, which is therefore one
--     step. A wait may end with no signal where the parameter `spurious` says so. The numbers of shops
--     and buyers are parameters; Shops/Goods, Stock and Stuck are about the same relation.
--
-- Sockets. A process (Posix) makes calls whose answers are not its own: a run is given the list of the
-- answers and keeps the open descriptors and a log of events, the newest first. A run whose answers
-- are used up waits in its next call. `Ensures` (Posix/Ensures) states what holds when a run returns,
-- exits or waits; Posix/Rules and Posix/Pairs have a rule for each call.
--   - Sockets/TcpInet, TcpLocal, UdpInet, UdpLocal: the server and the client of the directories of
--     "16 work/socket work 1"; Sockets/Raw: "16 work/socket work 4/rawServer.c". Sockets/Clients puts
--     the clients, and the programs of "socket work 3", together, Sockets/Servers the servers, and
--     Sockets/Exchanges the runs in which no call fails.
--   - Sockets/Broadcast, Sockets/Multicast: "16 work/socket work 3".
--   - Sockets/Multiplex, Sockets/Pool, Sockets/Threads: multiplexServer.c, poolServer.c, and
--     multithreadServer.c with client.c, of "16 work/socket work 2".
--   - QueueChat: "13 work/task2/server.c", whose calls on message queues are calls like the others;
--     QueueChat/Due says which queues the messages of a log are for. QueueChat/Client is the thread of
--     client.c that prints.
--   - TaskQueue: the linked queue of "16 work/socket work 2/consProdServer.c" on a heap, and
--     TaskQueue/Server its `main`, with `atoi`, `sprintf`, the success of `malloc` and what stands
--     behind the buffer as parameters; the doubled number wraps around in 32 bits.
--   - Checksum: `checksum` of rawClient.c, rawClient2.c and rawClient3.c in "16 work/socket work 4",
--     on a little-endian memory. Three tests of the folding loop are enough for the sums of at most
--     131,070 bytes, far above an IP packet; for more bytes the loop may need more.
--   - RawPackets: the packets that `main` of rawClient.c, of rawClient2.c and of rawClient3.c build
--     and send; RawPackets/Valid checks them as a receiver does.
-- A `while (1)` takes a bound on its rounds. Each round begins with a call that takes an answer, so
-- that a bound above the number of answers is enough. A loop of the phone books is bounded by the
-- items of its input, as each round reads one. The size of a message, the buffer's 1024 bytes less the
-- NUL, is kept; an address is its port or path; `perror` and messages with a fixed text are left out.
-- What is in a buffer before the first read is a parameter, also the memory at the message of the chat
-- server, in each round. A server with threads is modelled by the program of a thread and the program
-- of `main` apart.
--
-- SharedChat: "14 work/task2", any number of clients on one memory. A schedule is a list of acts; an
-- act is what a process does between two looks of the others: it stores a message, counts it, prints
-- what is new, or moves its own counter on. SharedChat/Loops and Operations are about one operation,
-- States about the memory and the clients between operations, Delivers about whole runs. A name of 32
-- bytes and a line of 256 are faults, since `wgetnstr` writes a NUL behind its array.
--
-- Shell: "12 work/task3.c", the arguments of a line, the processes of a command with or without a
-- pipe, and the loop of `main`. Processes: "10  work/task2.c". A run is one process: `fork` answers 0
-- in the child, and a program that starts is the end of the run. The result of `dup2`, at which the
-- code does not look, changes nothing in it.
--
-- Not modelled: the other programs that wait for signals, share memory or exchange single messages
-- through the kernel ("12 work/task1.c" and task2, "13 work/task1", "14 work/task1", "15 work",
-- "11 work/task1.c", "10  work/task1.c"), of which mostly calls of the system would be left;
-- "10  work/task3.c", an earlier version of the shell; the password check, the calculators and other
-- short exercises ("2 work/task2.c", "3 work" but for task1.c and task4.c, "5 work/task2.c", "7 work",
-- "8 work", "9 work/task1.c"); the `main` of "13 work/task2/client.c", which reads its lines from
-- ncurses; and the interleavings of threads outside "11 work" and of processes outside "14 work/task2".
pub mod Base
pub mod Libc
pub mod Text
pub mod Posix
pub mod Console
pub mod Phonebook
pub mod Sockets
pub mod TaskQueue
pub mod Checksum
pub mod Counter
pub mod Shops
pub mod QueueChat
pub mod Bits
pub mod RawPackets
pub mod Shell
pub mod Matrices
pub mod FileManager
pub mod SharedChat
pub mod Processes
