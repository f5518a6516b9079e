-- ===== src/Lib.antt =====
-- libnice: an implementation of ICE (RFC 5245) in C, with the STUN library (RFC 5389) that it is built
-- on. The sources are under jni/libnice. The STUN library makes and reads messages in byte buffers; the
-- ICE agent gathers candidates, gives them priorities, pairs them and checks the pairs with STUN
-- messages, whose retransmissions the STUN timer schedules. Streams that must be reliable over UDP run
-- over pseudo-TCP, which keeps its windows in ring buffers.
--
-- Prelude: Boolean tests, lists as C arrays and bitwise operations, shared by the rest.
--
-- Stun: jni/libnice/stun.
--   Stun/Types.antt: the enums and constants of stunagent.h, stunmessage.h and constants.h; the members of
--   StunMethod, StunClass and StunAttribute are numbers.
--   Stun/Bytes.antt: utils.c, 16-bit words, alignment and padding, and memory copies.
--   Stun/MessageType.antt: how class and method share the type field: stun_set_type, and the decoding in
--   stunmessage.c.
--   Stun/Message.antt: StunMessage of stunmessage.h, with stun_message_init, stun_message_find,
--   stun_message_append and stun_message_append_bytes of stunmessage.c, under their names less the prefix.
--   Message/Attributes.antt is the abstract view, a list of attributes that the bytes parse to, and
--   Message/Cookie.antt the cookie as bytes and the length that the header of an attribute states.
--   Stun/Validate.antt: stun_message_validate_buffer_length and its fast, vectored form.
--   Stun/Values.antt: the typed attributes of stunmessage.c: flags, numbers, strings and errors.
--   Stun/Sockaddr.antt: the attributes with an address, plain or masked (stun_xor_address of utils.c). The room
--   for an address is an argument, and the bytes of its port and address are kept.
--   Stun/Crc.antt: stuncrc32.c, and stun_fingerprint of stun5389.c. Crc/Reference.antt is the bitwise CRC.
--   Stun/Hmac.antt: what stunhmac.c hashes. The hash functions are a parameter, a record Hashes.
--   Stun/Agent.antt: stun_agent_validate of stunagent.c, and the table of the transactions that an agent
--   remembers. It calls the length check, the fingerprint, the searches and the hashes above.
--   Agent/Build.antt: how stunagent.c starts requests, indications, responses and errors, and finishes them.
--   Stun/Unknowns.antt: the search of stunagent.c for mandatory attributes that the agent does not know.
--   Stun/Timer.antt: usages/timer.c. The clock is an argument of each operation.
--
-- Agent: jni/libnice/agent.
--   Agent/Candidate.antt: the priorities of candidate.c.
--   Agent/Address.antt: NiceAddress of address.c, by address family.
--   Agent/Fifo.antt: PseudoTcpFifo of pseudotcp.c. Fifo/Ring.antt has its invariant and its contents.
--   Agent/Tcp.antt: the rest of pseudotcp.c, with the state PseudoTcpSocketPrivate as a record. Each function
--   takes a socket and returns the new one, under its name less the prefix:
--     Tcp/Time.antt: clocks and the comparisons of sequence numbers.
--     Tcp/Packet.antt: packet and the decoding in parse.
--     Tcp/States.antt: set_state with its assertion, set_state_established, set_state_closed, adjustMTU.
--     Tcp/Options.antt: the connect message, parse_options and the sizes of the buffers.
--     Tcp/Send.antt: queue, transmit, attempt_send and closedown, over the lists of segments.
--     Tcp/Acks.antt and Tcp/Receive.antt: the acknowledgement and the data of a segment, in process.
--     Tcp/Process.antt: the whole of process, and notify_packet and notify_message, which call it.
--     Tcp/Operations.antt: what an application calls, the clock included.
--   Agent/Checks.antt: the check lists of conncheck.c, with the structures of conncheck.h, component.h, stream.h
--   and candidate.h. The functions keep their names, most without priv_ and conn_check_:
--     Checks/CheckList.antt: the sorted list of the pairs of a stream, its limit and its pruning.
--     Checks/Components.antt: the states of the components, the selected pair and the nomination by the peer.
--     Checks/Schedule: Send.antt sends one check, Unfreeze.antt has the frozen pairs, Tick.antt the timer.
--     Checks/Pairs.antt: new pairs, the removal of pairs, the role of the agent and stored early checks.
--     Checks/Triggered.antt: the checks that an incoming check triggers, and the reply to it.
--     Checks/Replies.antt: what the reply to a check does.
--     Checks/Usernames.antt: the user names of the checks.
--   In pseudo-TCP, sending and receiving meet only in the two Fifos, the numbers snd_nxt, snd_una and rcv_nxt, and the
--   packets: process calls receive and then attempt_send, which calls transmit and so packet.
--
-- A byte array is a list of numbers. An access outside an array, a division by zero and a failed
-- assertion are `none`, so a result `some` also says that every access was inside. Machine integers
-- keep their wrap-around, written as `% 2 ^ w`; size_t and gsize have 64 bits, unsigned and guint 32.
-- A pointer that may be NULL is an Option. The loops run on fuel: find_loop, unknowns_loop and walk
-- take one more than the number of bytes, of which each round uses at least four, and carry takes the
-- microseconds, of which each round uses a million. In pseudo-TCP, options_loop takes one more than the
-- number of bytes, shrink and write_loop more than the ten packet sizes, scale_of the 32 bits of a size,
-- and send_loop a round for each byte of the buffer and each queued segment.
--
-- The segments of pseudo-TCP are reached through pointers from two lists; here each has an address, the
-- list of all segments holds the segments, and the list of the unsent ones their addresses. The calls
-- of callbacks are kept as a list of events, and the answers of WritePacket are a function of them, so
-- a theorem holds for every behaviour of the network. The clock is a field, and so are the two clocks of the
-- check lists, g_get_current_time and the monotonic one of stun_gettime.
--
-- The pairs and candidates of the check lists are reached through pointers as well: each has an address,
-- a list holds the pairs, and a pair keeps a copy of its two candidates. The agent is its own fields,
-- a record Context, and its streams, of which a function takes the one that it works on. The packets and
-- signals are a list of events. What the checks ask of the sockets, of the building of a message
-- (stun/usages/ice.c) and of discovery.c is a parameter, the records Environment and Discovery; a reply is
-- given by what stun_usage_ice_conncheck_process returns for it. A pair belongs to a component of its
-- stream, and a signal calls nothing of the agent before it returns. After a change of state, a reliable
-- agent also takes in queued TCP packets, and the selected pair restarts the keepalives; neither reads the
-- lists. The TURN servers of a component are not cleared.
--
-- Not modelled: the hash functions (stun/sha1.c, stun/md5.c), random numbers and debug output; the default
-- validater of the STUN agent, and the binding, ICE and TURN usages; text conversion of addresses, which is
-- left to the C library; the GObject properties and the debug output of pseudo-TCP, and callbacks that call
-- the socket again before they return; of the checks, the dispatch of incoming messages, the use of the
-- early checks that were stored, the keepalives and the refreshes of TURN; discovery, and the rest of
-- streams and of the agent, which live in the GLib main loop; sockets; the GStreamer elements and the JNI
-- glue.
mod Prelude
pub mod Stun
pub mod Agent
