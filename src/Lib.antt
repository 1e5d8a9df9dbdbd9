-- ===== src/Lib.antt =====
-- A model of the core of SMCP, a CoAP stack in C, with its theorems.
--
-- The parts of the program and the files that model them:
-- - CoAP options (src/smcp/coap.c, coap.h). Coap/Option.antt has coap_decode_option,
--   coap_encode_option and coap_insert_option. A `uint8_t*` is an address of a memory with one byte
--   at each address, and NULL is `none`; what a call stores is a new memory. Format.antt below it
--   states the format of RFC 7252 independently of the code.
-- - Packets (src/smcp/coap.c). Coap/Packet.antt has coap_verify_packet, which walks over the options
--   with coap_decode_option. The header's bit fields are those of a little-endian machine.
-- - Values, codes and names (src/smcp/coap.c, coap.h, smcp-outbound.c): Coap/Uint.antt,
--   Coap/Codes.antt, Coap/ContentType.antt and Coap/OptionKey.antt. A text is the list of its
--   characters.
-- - The hash (src/smcp/fasthash.c): FastHash.antt. Its state is passed on explicitly.
-- - The duplicate check (src/smcp/smcp-dupe.c): Inbound/Dupe.antt, over the hash. The sender's address
--   is its bytes, and the ring is a list of 16 entries with an index.
-- - The scanner of an inbound packet's options (src/smcp/smcp-inbound.c): Inbound/Options.antt, over
--   coap_decode_option. NULL is the address 0 there, as the code compares and reads it.
-- - The processing of an inbound packet (src/smcp/smcp-inbound.c, smcp_inbound_finish_packet):
--   Inbound/Scan.antt has the scan of the options, over the scanner, which gives the fields that
--   options set, and the content. Inbound/Finish.antt has what is around it: which packets are
--   refused, the dispatch, the reply where no response has been sent, and what is reset at the end. It
--   works on the session of Outbound.antt; the handlers of requests and responses, and the content
--   that explains an internal error, are arguments.
-- - Outbound packets (src/smcp/smcp-outbound.c): Outbound.antt. A session is passed on from call to
--   call with the memory of its buffer. The local variables whose addresses are handed on stand at
--   fixed addresses, and a C string's length is found in the memory. The files below it follow a
--   packet from smcp_outbound_begin (Begin.antt, Answer.antt) over the calls that add to it (Built.antt
--   to Adding.antt, Edits.antt) and send it (Underway.antt, Reach.antt, Respond.antt) to the receiver
--   (Accepted.antt). The socket's part of smcp_outbound_send_hook is a parameter. The configuration is
--   that of BSD sockets without cascade counts and without DEBUG; socket addresses are left out.
-- - Transactions (src/smcp/smcp-transaction.c, smcp.c): Transaction.antt. The time that is left, the
--   random numbers, the next message id and the result of the resend callback are arguments.
--   What a callback does to the transaction is left out, but for whether it is still the current one.
--   Transaction/Table.antt has the tree of transactions over Tree/Change.antt, and
--   Transaction/Match.antt the search of smcp_handle_response for the transaction that a packet
--   answers; an address and a port are numbers there. The transaction that an insertion deletes is
--   a result, which stands for the call of its callback and the end of its timer.
-- - Observers (src/smcp/smcp-observable.c): Observers.antt. The table is a function of the index, and
--   a sender is a number; smcp_transaction_end and smcp_transaction_begin only set `active` there.
-- - URLs (src/smcp/url-helpers.c): Url/Percent.antt has the percent codecs, Url/Text.antt the tests on
--   whole URLs, Url/Parse.antt url_parse, and Url/Pieces.antt the walks over paths and forms and
--   quoted_cstr. A C string is the list of its characters, a pointer into a buffer that is cut in
--   place is an index of it, a store behind its end makes it longer, and what is stored from a destination on is a list of bytes.
-- - Linked lists (src/smcp/ll.h): LinkedList.antt, over a heap that gives `next` and `prev` of every
--   address; 0 is NULL.
-- - Binary trees (src/smcp/btree.c): Tree.antt has the search and the iteration, over a heap as well,
--   with fuel for each walk, and Tree/Change.antt the operations that change a tree, where a `void**`
--   is a place: the variable of the tree or a link of an item. Tree/Shape.antt says what a heap holds
--   as a tree of items, and the files beside it follow each operation on it. The comparison is a
--   function of the items' addresses, and what is handed to `delete_func` is a result.
-- - Timers (src/smcp/smcp-timer.c): Timer.antt, over the linked list. `gettimeofday` is a parameter,
--   and the call of a callback is a result of the handler.
--
-- Machine integers: 8, 16 and 32 bits wrap where the source's types do. Seconds and sizes that the
-- source keeps in 64 bits are numbers without a bound. The `cms_t` of a period wraps to 32 bits.
--
-- Fuel: the walk over a packet has one unit for each byte and one more, and so has the search of
-- coap_insert_option; each round moves on by a byte at least. The walk of ll_sorted_insert has one for
-- each item. The loop over a path has one for each component and one more, and the walks of the
-- observers have one for each place of the table and one more. A walk in a tree has one for each item
-- and one more, and bt_unbalance has one more for each rotation. `strlen` has as many as a value can
-- have bytes.
--
-- Not modelled: coap_dump_header, which prints; url_change and url_shorten_reference;
-- smcp_handle_request; smcp_outbound_set_uri and the formatted contents; what smcp_handle_response
-- does around the call of a callback; the handlers of an observer's event; nodes; bt_splay,
-- bt_get_balance and bt_rebalance; sockets and platform code; the programs in src/smcpctl,
-- src/smcpd and src/plugtest; and src/smcp/old, which is not built.
pub mod Prelude
pub mod Coap
pub mod Url
pub mod FastHash
pub mod Inbound
pub mod Outbound
pub mod LinkedList
pub mod Timer
pub mod Transaction
pub mod Observers
pub mod Tree
pub mod Tests
