-- ===== src/Lib.antt =====
-- lwmsg is a messenger: a server (server/) with one thread for registration and many worker
-- threads, a client (client/), and the code both share (common/). Clients send PDUs of the wire
-- protocol over TLS. A thread keeps those that have yet to authenticate in a timer heap.
--
-- Base holds the library names, list, bit and memory helpers that all files share.
--
-- Lwmp is common/lwmp.h and common/lwmp.c: the checksum, the checks of a received header, the
-- layout of a response and of a chunk, and the search for the next header in a stream that lost its
-- place. A buffer is the list of its bytes, a field is a slice of it in network order.
-- lwmp_validate_hdrs takes its four callbacks as functions. Lwmp/Crc is crc32, with the table
-- written out.
--
-- TimerHeap is server/cltimerheap.h and server/cltimerheap.c: clients in a binary heap by deadline,
-- where each client keeps the index of its slot. Client pointers are numbers, and the memory behind
-- them is a function. The loops take fuel: heapify_up at most one step for a level, for which the
-- number of the slot is enough, and heapify_down at most the number of clients.
--
-- Htable is server/htable.h and server/htable.c: buckets as lists in the order of `next`, with the
-- comparator and the answers of the locks and of the allocator as arguments. Htable/Bucket has the
-- walks along one bucket and CmpLaws, which says what the table asks of its comparator;
-- ClHandle/NameOrder shows it of std_client_cmp. Htable/Content is htable_get, Htable/Change
-- creation, insertion and removal, Htable/Rehash the moves of a resize and Htable/Grow the resize
-- itself. What the new buckets hold when they cannot be given back is an argument, as it is memory
-- that was not set; the abort of lock_init_fail ends the program and is no answer. An operation
-- runs alone, as under its locks; htable_copy_all_keys and htable_delete are left out; Htable/NodeList is the intrusive list; the loop for the new
-- size has fuel for the 64 shifts after which the count leaves its word.
--
-- ClHandle is the part of server/clhandle.c that is not creation and release of a client. MsgQueue
-- is mpscq_enqueue and mpscq_dequeue of server/thrdmsg_mpscq.c: messages on doubly linked nodes,
-- with the counter that wakes the reader; the flush by subject and the release of a queue are left
-- out. MsgQueue/Chain follows the links, and MsgQueue/Fifo compares the queue with a list.
--
-- IpBlock is server/ipblock.c but for the white list and the printing of an address: the records
-- that block an address, and the comparator of addresses. The time is an argument.
--
-- Netwrap is what send_fn and recv_fn of common/netwrap.c answer. Calls of sockets and of OpenSSL
-- are arguments.
--
-- Worker is server/worker.c up to authentication: the clients in the list and in the timer heap,
-- known by their addresses, with the memory that they stand in as `live`. It has create_std_client,
-- cleanup_std_client, the end of wt_handle_new_connections, wt_handle_accepting,
-- handle_clth_timeout and the clients that wt_handle_shutdown releases. Worker/Auth is
-- wt_handle_authentication, with the tables of Htable, and validate_auth of server/dbops.c, where
-- what the database and the comparison of the hashes say to a request is an argument, and
-- node_arr_sweep. Worker/Peer is the loop of wt_handle_new_connections over the peers
-- that accept gives, with the checks of their addresses, and Worker/Failures has it meet a failed
-- authentication. Worker/Safe says what is in order, and Worker/Reach lets the events of
-- worker_thrd_routine come in any order, with the sweep, the shutdown and the other threads' changes
-- of the tables. handle_clth_timeout reads the clock in each round, so the
-- clock is a function of the round; its fuel is one more than the clients in the heap, as a round
-- that goes on takes one out. The loop of wt_handle_authentication has fuel for the bytes of a
-- request.
--
-- Session is server/worker.c from then on, for one client. Session/Outbound has wt_serve_response,
-- send_one_msg, wt_handle_outbound_data and wt_handle_queued_messages, Session/Message the messages
-- that the server writes itself, Session/Inbound the loops and the data of wt_handle_inbound_data,
-- and Session/Handler its parts and the loop over it. The answers of recv_fn and send_fn depend on
-- the number of the call. A queue is the list of its messages. Which names htable_get_cond finds,
-- and the keys that htable_copy_all_keys copies, are arguments. The loops over recv_fn have fuel
-- for the bytes of the buffer, those over send_fn for the bytes of the message.
--
-- Client is the receive side of the client: client/clrecv.c on the state of client/client.h. A call
-- of clio_print, fopen, fwrite or fclose is an event in a list; the answers of recv_fn,
-- avail_data_fn, poll, access and fopen are arguments, the record Outside. Client/Filename has the
-- name under which a file is stored, Client/Receive the handlers of a whole PDU, Client/Parse
-- clrecv_fill, clrecv_parse and the functions that call them. The buffer is the list of the bytes
-- received. clrecv_fill has fuel for the bytes of the buffer, as a call of recv_fn that goes on
-- gives one at least; clrecv_parse has fuel for the bytes in the buffer, as a round that goes on
-- takes one out of it, but for a header whose size overflows; how often await_resp and poll go
-- round is left to a fuel. Client/Frame to Client/Stream take a stream apart into its messages,
-- Client/Pieces lets it come in pieces, Client/Transfer to Client/EndToEnd follow a file from the
-- server of Session to the client's disk. Client/SafeName to Client/SafeReach are about the names
-- of files, Client/Shorter and Client/Ends about the end of the loop, Client/Spoiled and
-- Client/Overfull about messages that the client cannot take. Client/Command is the command msg of
-- client/clcmd.c and send_all of client/clnet.c, whose fuel is at least the bytes of a PDU where
-- send_fn does not block; Client/TextPdu to Client/Sends follow a text from there to another
-- client.
--
-- CmdParse is common/cmdparse.c: tokens as lists of characters, on the characters of a line.
--
-- Not modelled: the dispatch of events and the rest of the shutdown in server/worker.c,
-- registration (server/registration.c), control (server/servctrl.c), the configuration
-- (server/servcfg.c), the other functions of the database (server/dbops.c), the other commands of client/clcmd.c and the
-- rest of the client (client/); sockets, TLS, epoll, signals, the SQL database, threads and
-- logging, which are calls of libraries; lib/zlog is a copy of another project. What the allocator
-- returns is taken to be memory, as common/xalloc.c ends the program otherwise.
pub mod Base
pub mod Lwmp
pub mod TimerHeap
pub mod Htable
pub mod ClHandle
pub mod IpBlock
pub mod MsgQueue
pub mod CmdParse
pub mod Netwrap
pub mod Worker
pub mod Session
pub mod Client
