-- ===== src/Lib.antt =====
-- A model of umtp, the Universal Message Transaction Protocol: a small stack that carries requests
-- and their responses between peers, over datagrams. An application submits a request with
-- `umtp_apdu_submit` (core/apdu.c), which opens a session (core/session.c) if the request is
-- confirmed, puts a header in front, and hands the message on: at once to `npdu_send` (core/npdu.c)
-- in synchronous mode, else to the send queue of the message process unit (core/mpu.c), two ring
-- buffers (core/ringbuf.c) of packets. `npdu_send` adds the version byte and calls the data link
-- (core/umtp_dl.c, core/dl_udp.c), which can encrypt (core/crypt.c). A message that arrives goes
-- through `npdu_handler` to `apdu_handler`, which calls the handler of its service
-- (core/service.c, over the linked lists of core/list.c) and answers a request, or closes the session
-- of a response. A pool of memory blocks (core/memory.c) and the lists of hooks (core/hook.c) stand
-- beside these.
--
-- The files, each with child modules for its theorems and a Tests module for runs and examples:
--   Base        shared names, Boolean tests, lists over the native numbers, machine words
--   Bytes       byte-addressed storage and copying
--   Deque       the queue with two ends that a ring buffer implements
--   RingBuf     core/ringbuf.c, include/ringbuf.h
--   LinkedList  core/list.c, include/list.h
--   Addr        struct umtp_addr of include/umtp_dl.h
--   Debug       include/debug.h
--   Errno       the error numbers, of which the code returns the negatives
--   Session     core/session.c, include/session.h
--   Service     core/service.c, include/service.h
--   Mpu         core/mpu.c, include/mpu.h
--   Npdu        core/npdu.c, include/npdu.h, and struct umtp of include/umtp.h
--   Apdu        core/apdu.c, include/apdu.h
--   MemPool     core/memory.c, include/memory.h
--   Hook        core/hook.c, include/hook.h
--   Datalink    core/umtp_dl.c and core/dl_udp.c; what asks the system is in Datalink/Socket
--   Crypt       core/crypt.c, and dludp_encrypt and dludp_decrypt of core/dl_udp.c
--   Stack       core/umtp.c, include/umtp.h
--   Examples    examples/simple_server.c, examples/simple_client.c
--
-- Conventions. A function of the C code keeps its name; `_umtp_apdu_submit` is `apdu_submit`, `align`
-- is `align_size`. A C structure is a record, a state that a function changes is an argument and a
-- result, and static variables are part of that state. A pointer that may be NULL is an Option.
-- Numbers are natural numbers with the wrap-around of their C type written out; an `int` that may be
-- negative is its 32-bit pattern. Calls through function pointers are functions if they return
-- something, and events if they do not. `malloc`, sockets and ciphers are arguments of the functions
-- that use them, and words lie in storage with the lowest byte first. `dludp_send_data` and
-- `dludp_recv_data` of Datalink are what the two do with a datagram; `udp_send_data` and
-- `udp_recv_data` of Datalink/Socket are the whole functions, with what they return.
--
-- Fuel. The walks over linked lists take fuel, one round more than there are entries is enough, and
-- the theorems about them ask for that. The search for a free session identifier has the fuel 256,
-- which is enough since 255 identifiers cannot all be taken by the other 254 entries. The wait for a
-- session takes the list of what the other threads do meanwhile. The loop of `mpu_task` over its
-- queues takes one round more than packets wait to be sent, if nothing is received and the data link
-- takes them, or if confirmed requests are received, one round for each and one more; `none` stands
-- for a loop that has not ended. `dump_hex` takes one round more than it writes lines.
--
-- Threads are sequences of steps: Stack/Steps has a step for each thing that a thread or the program
-- does to a stack: to send, to receive, to count down the sessions, to handle a packet, to register a
-- service or take one out, until it is stopped.
-- The others take their steps between two steps, and none of them
-- sees another one in the middle of its step. MemPool/Use has the steps of a program that uses a pool.
--
-- Fixed arrays. A copy of too many bytes into an array of the C code is a value here: the effect
-- `overrun` for `tmp` of `npdu_send` and of `umtp_apdu_submit` and for `apdu_trans_blk`, the result
-- `overrun` of `dludp_send_data` for `buf`, and the flag `overrun` of a packet of the unit; a unit that
-- `mpu_destroy` freed has the flag `freed`. What the model computes after one of these stands for
-- nothing, since it does not follow what is destroyed. Where a theorem names the effects or the
-- datagram, no array was overrun.
--
-- Not modelled: locks and signals, what OpenSSL and the operating system do, output, and
-- examples/initcall.
pub mod Addr
pub mod Apdu
pub mod Base
pub mod Bytes
pub mod Crypt
pub mod Datalink
pub mod Debug
pub mod Deque
pub mod Errno
pub mod Examples
pub mod Hook
pub mod LinkedList
pub mod MemPool
pub mod Mpu
pub mod Npdu
pub mod RingBuf
pub mod Service
pub mod Session
pub mod Stack
