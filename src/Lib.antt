-- ===== src/Lib.antt =====
-- A collection of small C++ programs, and what their core promises. The parts that are modelled:
--
-- wzq_study/sort.cpp: three sorts of an array of `int`. Sort has bubble_sort and selection_sort,
-- Sort/Quick has quick_sort, my_quick_sort and my_partition; Sort/Order says what sorting means.
-- Integers are compared only, so that ℤ stands for `int`. quick_sort and my_partition take fuel:
-- on distinct cells, one more than the count of the cells is enough, which is proved.
--
-- wzq_study/minHeap.h: a growing binary heap. MinHeap has addItem, topItem, reserver and refactor;
-- the fuel of the two loops is the size of the heap and one more, and is proved to be enough.
--
-- wzq_project/src/component/shm.h and shm.cpp: Shm has the class Shm over the System V calls,
-- Shm/Ring the class ShareMemory, a ring of messages in the segment, Shm/Bytes the bytes of the
-- segment. Shm/Ring/Queue relates a segment to the queue of messages that it holds, Shm/Ring/Views
-- m_shmCtrl to the addresses of the process. What a system
-- call returns is an argument. The count of bytes in the segment is part of the state, and an
-- access outside is a fault. The `int` sums of judegeWrite wrap around, and m_shmCtrl is an address
-- that leads to the segment only as long as it is attached there. Segments of less than 2^30 bytes are
-- taken, for which no sum wraps around; where shmat puts a segment is taken to depend on nothing but
-- the addresses at which the process has it already.
--
-- wzq_project/src/component/hash.h and hash.cpp: Hash has CHash, an array of tables, and CIndex, a
-- table of buckets; Hash/Key the keys and their order; Hash/Bucket the ordered map of a bucket, the
-- part of std::map that the code uses; Hash/Func the hash function HashFunc1. The hash function of a
-- table is an argument, which may not return negative codes. The fuel of Next is the count of the
-- buckets and two more.
--
-- teleHeartBeat/HeartBeat.h and HeartBeat.cpp: two hosts that watch one another. HeartBeat/Socket has
-- the class HeartBeat with ExecClient and one exchange of ExecServer, HeartBeat/Server the whole of
-- ExecServer over the rounds of select, HeartBeat/Client the loop of
-- RunAsClient, whose system and sleep calls are a list of actions, HeartBeat/Lapse a round whose ps command fails, HeartBeat/Trim the function Trim, HeartBeat/Main
-- the configuration, the signals and main.
-- The count of retries is a natural number: `int` overflows after 2^31 silent rounds only.
--
-- wzq_study/avltree.h and avltree.cpp: Avl has the search tree; the pointers to parents are the
-- frames on the way up to the root.
--
-- wzq_project/src/component/readIni.h and readIni.cpp: Ini has the settings by section and name, Ini/Files
-- what the reading of a file gives, Ini/Lines what its lines are, Ini/Reads what readString gives. A file is the list of its bytes,
-- cut into lines as fgets does, and a part that does not fit its buffer is a fault.
--
-- Shm/Trace runs the calls of a writer and of a reader of one segment in any order, and Shm/App is
-- wzq_project/src/application/app_shm.cpp, a process that writes and reads in a loop, for as many
-- passes as the system answers.
--
-- temp/pthread_pool.cpp: a pool of threads. Pool has the threads as steps of a relation, one for each
-- stretch that runs under the mutex; Pool/Links the macros LIST_ADD and LIST_REMOVE on nodes with
-- two links; Pool/Create createPool; Pool/Wake and Pool/Jobs what holds in every state, Pool/Drain
-- how the work ends. A waiting thread may wake unasked, as POSIX allows.
--
-- secret/secret.cpp: Secret has ParasCmd, DoSecret, DealDirent and main; Secret/Args, Secret/Cipher and
-- Secret/Walk say what they do, Secret/Xor that an exclusive or undoes itself. The directories and
-- files are an argument, the texts fit their buffers. The fuel of DealDirent is the count of the
-- entries and one more.
--
-- temp/wtmp.cpp: Wtmp has readConf and main, Wtmp/Lines what the lists of the configuration give,
-- Wtmp/Clean what is left of the log. strtoul and mktime are arguments, strtok and strstr are
-- written out. The fuel of the loop over the log is the count of the records and one more.
--
-- socket/network/poll_chat_server.cpp: a chat server. Poll has the loop over poll, with the table of the
-- clients as a list; Poll/Table and Poll/Passes say what one client does to the table, Poll/Loop
-- and Poll/Rounds what a round and all rounds do. The fuel of a round is one more than the limit of
-- the users, and is proved to be enough.
--
-- wzq_project/src/component/epoll_socket.h and epoll_socket.cpp: a server or a client on epoll. Epoll has
-- the class EpollSocket and main, Epoll/Clients what one event does, Epoll/Serving what holds of the
-- server. A run is followed for as many waits as are given. The result of send is left out, and with it
-- SIGPIPE, here as in the other servers. A descriptor is watched only where epoll_ctl
-- says that it was added.
--
-- temp/reverse_list.cpp: Reverse has reverse, on the links of the nodes, and Reverse/Build the rest of the program,
-- on a memory that knows which nodes are live, any other access being a fault; Reverse/Chain says what construct links, Reverse/Nodes
-- what the opposite order keeps, Reverse/Whole what a whole run does. The fuel is the count of the
-- nodes, and one more for reverse.
--
-- temp/dealMROandMRE.cpp: measurement reports made into CSV files. Measure reads the lines of a report,
-- Measure/Csv writes the file, Measure/Main goes through the directory; Measure/Fields and Measure/Rows say what
-- a report gives, Measure/Deals what a directory of reports gives. What a command of the shell does to
-- the files is an argument, sscanf, fgets, strstr, atoi and printf are written out.
--
-- wzq_study/mysocket.h and mysocket.cpp: Slots has the class MySocket, a server on select with an array
-- of five clients, a client, and the driver; Slots/Cells and Slots/Passes say what the loops over the array
-- do, Slots/Rounds and Slots/Start what a round and a whole run do.
--
-- wzq_http/http.cpp: Http has a server on epoll, Http/Pages its pages, Http/Answers what a request is
-- answered, Http/Counts and Http/Serving what a run does with its clients.
--
-- wzq_study/mystring.h and mystring.cpp: Strings has the class mystring on a heap of blocks; Strings/Values says
-- what texts its objects stand for, Strings/Calls and Strings/Runs what one call and any calls do to them.
--
-- wzq_project/src/component/epoll_server.cpp and epoll_client.cpp: Ports has both programs, Ports/Events says what
-- events do to their counts, Ports/Runs what a run of the server does, Ports/Client that the client ends.
--
-- Base has the shared words: tests on numbers, lists, integers (Base/Int), the ways in which a run
-- ends (Base/Exec) and arrays with bounds (Base/Array), quoted texts (Base/Chars). Tests has the theorems at concrete inputs.
--
-- Not modelled: output and logging, most of the release of memory and failing allocation, the drivers, and
-- the programs that are little but socket, thread, process or library calls (wzq_http/client.cpp, boost, most of socket
-- and of temp). The parts but app_shm.cpp do not call one another: each stands for
-- itself, and the driver wzq_study/main.cpp calls them one by one.
pub mod Base
pub mod Http
pub mod Ports
pub mod Slots
pub mod Sort
pub mod Strings
pub mod Shm
pub mod Measure
pub mod MinHeap
pub mod Pool
pub mod Poll
pub mod Reverse
pub mod Epoll
pub mod Hash
pub mod Secret
pub mod HeartBeat
pub mod Avl
pub mod Ini
pub mod Wtmp
mod Tests
