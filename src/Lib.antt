-- ===== src/Lib.antt =====
-- A model of mcoap, a C library for the Constrained Application Protocol (CoAP, RFC 7252): messages and
-- their bytes, URIs, and a UDP endpoint that sends messages, sends them again and receives them.
--
-- A message (mcoap/mc_message.c) has a 32-bit header, a token, a list of options and a payload. Writing
-- it goes down through the list of options (mcoap/mc_options_list.c) and the buffers
-- (mcoap/mc_buffer.c); reading it goes the same way back, the option list in two passes, one that counts
-- the options and one that reads them. An endpoint (mcoap/mc_endpt_udp.c) makes the options of a request
-- from a URI (mcoap/mc_uri.c), writes the message into its buffer and hands it to a socket. A message that
-- is to be confirmed waits in a queue (mcoap/mc_buffer_queue.c) until it is acknowledged or given up; each
-- entry of the queue has a timeout (mnet/mn_timeout.c). Three programs use the endpoint: mcget, which asks
-- for URIs, a server that sends messages back, and a client for it.
--
-- Files, each with its laws in the files below it:
-- - Base: lists over the native natural numbers, words, bit fields, blocks of memory, the type `int`,
--   and runs of a loop on fuel (Base/Run).
-- - Endian: msys/ms_endian.c, and the bytes of a word in the memory of a host.
-- - Code: mcoap/mc_code.c and mc_code.h. Header: mcoap/mc_header.c. Token: mcoap/mc_token.c.
-- - Buffer: mcoap/mc_buffer.c. A function is named as in C without its prefix, `mc_buffer_copy_to` is
--   `Buffer.copy_to`; so in all files.
-- - CoapOption: mcoap/mc_option.c.
-- - OptionsList: mcoap/mc_options_list.c in memory; OptionsList/Encode: from `value_to_encoded_int` to
--   `mc_options_list_mk_buffer`; OptionsList/Decode: `count_options`, `option_from_buffer` and
--   `mc_options_list_from_buffer`. The format itself is stated apart from the code, in
--   OptionsList/Encode/Format.
-- - Message: mcoap/mc_message.c; Message/Encode: `mc_message_buffer_size` and `mc_message_to_buffer`,
--   with the format of a whole message in Message/Encode/Wire; Message/Decode: `mc_message_from_buffer`.
-- - CString: strings as lists of bytes without the final 0, the functions of the C library on them that
--   the URIs need, and two copies of msys/ms_copy.c.
-- - Sockaddr: mnet/mn_sockaddr.c, the error codes of mnet/mn_error.h, and `mn_gethostbyname` of
--   mnet/mn_socket_unix.c. Timeout: mnet/mn_timeout.c.
-- - Uri: the parts of mcoap/mc_uri.c; Uri/Options: `mc_uri_to_options`; Uri/Address:
--   `mc_uri_to_address`.
-- - Queue: mcoap/mc_buffer_queue.c, a doubly linked list in a heap. Queue/Refine says which list of
--   entries a queue stands for.
-- - Endpoint: the state of mcoap/mc_endpt_udp.c, with a trace of what was sent and of the result functions
--   that were called; Endpoint/Send: from `send_entry_buffer` to `mc_endpt_udp_check_queues`;
--   Endpoint/Receive: `mc_endpt_udp_recv` and the loop; Endpoint/Request: `mc_endpt_udp_ack` and the
--   requests. Endpoint/Sound has the invariant of an endpoint.
-- - Socket: mnet/mn_socket_unix.c, the loops around the system calls, over what the system answers.
-- - Log: msys/ms_log.c, the log's level, its lines and the dump of bytes.
-- - Programs: mcget/mcget.c in Programs/Mcget, examples/tmserver/tmserver.c in Programs/TmServer and
--   examples/tmclient/tmclient.c in Programs/TmClient. `getport`, which the three have each of their own, and
--   `packargs` are in Programs/Args. Programs/Exchange puts the time client and the time server together.
-- - Examples: concrete inputs, and an insertion sort that is a `qsort`.
--
-- Conventions. A block of memory is the list of its bytes and a null pointer is `none`; a struct is a
-- record. A function that goes through memory has an optional result: an outer `none` is an access
-- outside a block or through a null pointer, an inner `none` is a null pointer that the function
-- returned. Where a loop runs on fuel the result is a `Run`, which tells a fault from fuel that ran out.
-- What is mutated through a pointer is returned. Only the entries of the queue are in a heap, at
-- addresses; a freed entry is no longer there. Arithmetic of the C types wraps around: `add32` and
-- `sub32` are sums and differences of `uint32_t`, `to_u8` and `to_u16` are conversions. The host is
-- little-endian where the code depends on it, and `version << 30` is taken modulo 2 ^ 32. A finite
-- `double` of seconds is the integer of the smallest doubles, 2 ^ -1074 seconds, that it holds.
--
-- Fuel: the loop of `count_options` gets one round for each byte and one more, as do the loops over the
-- pieces of a path and of a query. The loops over the queue take their fuel as an argument; one round for
-- each entry and one more are enough. `packargs` gets one round for each argument and one more. The loops
-- around the system calls take their fuel as an argument too: one round for each call before the one that
-- decides, what a wait takes, and one more are enough.
--
-- Parameters: `qsort` by its contract (OptionsList.Qsort), which says nothing of the order of entries that
-- compare as equal; what `rand()` returned; what the uninitialised variable of `mc_buffer_next_uint16`
-- held, as a function of the position; what the uninitialised address of `mc_uri_to_options` held; the
-- system's resolver (Sockaddr.Resolver); whether two addresses that are not IPv4 have equal bytes; `atoi`
-- where the number is no `int`; the time, and how results are rounded to
-- a `double`; the address of an entry that is allocated; what `sendto` and
-- `recvfrom` answer, for the endpoint; the answers to the system calls and the numbers of errno.h, for the
-- sockets; the function that the endpoint's loop hands messages to; what the local variables of the
-- programs held; the bytes of a double; `isprint`, the time of day and the text that `vfprintf` makes.
--
-- Not modelled: allocation that fails, freeing and sharing of blocks between structs, but for the queue;
-- the calls of the log in the other parts; a result function that calls the endpoint again; a loop in a
-- background thread that runs while other functions of the endpoint do; what the programs print but for the
-- answers of mcget and the time client. Of the other parts of the repository, the Windows variant of the
-- sockets, the closing of sockets, `mn_select` and the texts of errors (mnet), threads and locks (msys), and the tests.
pub mod Base
pub mod Endian
pub mod Code
pub mod Header
pub mod Buffer
pub mod Token
pub mod CoapOption
pub mod OptionsList
pub mod Message
pub mod CString
pub mod Sockaddr
pub mod Timeout
pub mod Socket
pub mod Log
pub mod Queue
pub mod Uri
pub mod Endpoint
pub mod Programs
pub mod Examples
