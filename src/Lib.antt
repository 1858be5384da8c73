-- ===== src/Lib.antt =====
-- sea keeps records in numbered blocks on disk, and answers for them over HTTP. This library models
-- the storage (the time block, the array column, the word index and the graph's nodes), the
-- controller that writes to the blocks and reads from them, and the handlers of requests.
--
-- The program. A time block (src/block/time) is a pair of files named after the block's number in a
-- directory of its own. The data file (sea_block_data.c) holds records one behind the other, each
-- between a header of 8 bytes and a tail of 8. The index file (sea_block_index.c) holds a header of
-- 40 bytes, which counts the records, and for each an entry of 16 bytes with the time of the append
-- and the record's offset. sea_block.c puts both together: an append writes the data, then the
-- entry, then the count, and cuts back what it wrote on some failures of a later write; a query asks the index
-- for offsets (sea_block_offset.c, an array that grows) and the data file for the records at them
-- (sea_block_record.c, a list of copies). An array column (src/block/array) is one file with a
-- header of 37 bytes and values of one fixed size. The word index (src/block/word/word.c) keeps a
-- column of document numbers for each word, in a file named by the word's digest. A
-- node of a graph (src/block/graph/graph_data.c) is one record of a block: 16 bytes, its edges and
-- its attributes. A connection (graph.c) keeps them in the block 2, and in a block named by the
-- graph's digest an entry for each, which says where the node is.
-- The controller (src/controller/controller.c) appends what it is given to the block in use, whose
-- number the super block (super_block.c) keeps, notes in the phone list (phone_list.c) which node holds
-- it, and goes on to the next number when the block is full. What it is asked for it reads from its
-- own directory, and else from a node that the distributed hash table names (dht_list.c,
-- controller_data.c). The server (src/rest/server.c) puts both behind HTTP, and answers the requests
-- of other nodes.
--
-- The files. A function of the source keeps its name, without the prefix that its module repeats.
--   Prelude         Boolean tests, maps as functions, lists over the native numbers
--   Bytes           numbers in bytes, reads and writes in the bytes of a file
--   Posix           the operating system that the code calls, as a state and a monad; its laws on an
--                   open file, where all calls succeed (Laws) and where coming calls fail
--                   (Faulty), on new files (Names), what opening and reading keep (Kept), and what
--                   holds of all results (Returns); the digits of printed numbers (Decimal)
--   Time.Utils      src/block/time/utils.c and public.h
--   Time.Offset     src/block/time/sea_block_offset.c
--   Time.Record     src/block/time/sea_block_record.c
--   Time.Data       src/block/time/sea_block_data.c; Frame says where a record lies in the file
--   Time.Index      src/block/time/sea_block_index.c; Layout says what the file holds
--   Time.Block      src/block/time/sea_block.c; Log says when the files hold a list of records, Create
--                   what a new block holds, Lifetime a block from there on, Paths that the
--                   names of blocks differ
--   Column          src/block/array/array.c and array.h; Append says when the file holds values
--   Word            src/block/word/word.c, with the digest as a parameter
--   Graph.NodeData  src/block/graph/graph_data.c and the structs of graph.h
--   Graph.Db        src/block/graph/graph.c
--   Controller      src/controller/controller.c; Local says when a controller serves a list of
--                   records, and what is read from it
--   Controller.Reads       what a read finds in the controller's directory
--   Controller.Store       what a node's directory holds, a shelf of blocks; Get one read from it, Reads
--                   any sequence of them, Memory and Start the start of a node, FirstWrite the
--                   write that a node begins with
--   Controller.SuperBlock  src/controller/super_block.c
--   Controller.PhoneList   src/controller/phone_list.c
--   Controller.DhtList     the part of src/controller/dht_list.c that the controller calls; Identity the
--                   part of __dht_list_init that reads or makes the node's identity
--   Controller.Data        src/controller/controller_data.c and src/include/protocol.h
--   Server.Uri      the numbers in a request's uri, of src/rest/server.c
--   Server.Rest     the handlers of HTTP requests, of the same file; Get what a client is answered
--   Server.DataServer      the answer to another node's request, of the same file, and the loop
--                   that receives the requests (Loop)
--
-- The operating system. The code under src/ calls the C library and the kernel, which are modelled
-- by the documented behaviour of the calls: a state `Os` with names, files, open descriptors with a
-- position, errno and a clock. Whether a call succeeds is the environment's: `faults` lists the
-- outcomes of the coming calls that can fail (done, an error, or a write or read of fewer bytes);
-- when the list is empty, calls succeed. A theorem says which outcomes it is about: where the list is
-- empty it is said that the environment lets every call succeed. What the language leaves undefined
-- (a write outside a heap block, a read of a buffer that was never filled as a string or a pointer)
-- is the outcome `undefined`, from which nothing follows. Bytes that were never set and are written
-- to a file come from `uninit`. Memory is had for sizes below 2 ^ 63, and its release is not
-- modelled, but for the messages of data_server_handle, which are the program's to free or, once they
-- were sent with NNG_FLAG_ALLOC, the library's.
--
-- Numbers. The platform is little-endian, with `long`, pointers and `size_t` of 64 bits. A number of
-- w bits is a natural number below 2 ^ w, and its wrap-around is written out; a negative `int` is the
-- number of its bit pattern. Paths are cut at PATH_MAX, 4096. Every loop of the
-- source is a recursion on the list or the count that it runs over; only the digits of a number are
-- taken on fuel, 20, which is enough for 64 bits, and the loop of data_server_handle on a number of rounds.
--
-- Other projects' code. The hash table of khash.h, the distributed hash table, the messaging library
-- and its HTTP response are interfaces, records of the calls that the source makes (`Khash`, `Dht`, `Nng`,
-- `Http`, `Rep`), and md5 is a function; theorems name the documented behaviour they rely on (`KhashLaws`,
-- `HttpLaws`, `RepLaws`), and the tests give each an implementation.
--
-- Not modelled: the threads, the sockets of the distributed hash table and its loop, the calls that
-- start the HTTP server, and what is printed, but for the body of a
-- request, which is read for it as a string; sea_rest.c, which is not built; dht.c, md5, queue.h, tree.h and
-- khash.h, which are other projects' code; the tests and benchmarks.
pub mod Prelude
pub mod Bytes
pub mod Posix
pub mod Time
pub mod Column
pub mod Word
pub mod Graph
pub mod Controller
pub mod Server
