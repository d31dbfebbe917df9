-- ===== src/Lib.antt =====
-- Verification of the telnetpp library: what the telnet protocol layer and its options do, modelled
-- function by function, and the theorems that make it correct.
--
-- The program. An application reads and writes a telnet stream through a session
-- (include/telnetpp/session.hpp, src/session.cpp). What it writes is an element: text, a command,
-- a negotiation or a subnegotiation. The generator turns an element into bytes for the channel;
-- the parser turns the bytes that the channel reads into elements; text goes to the application,
-- and the other elements go through one router each to the handlers that were installed. An option
-- is installed with two handlers of negotiations and one of subnegotiations; it runs a state
-- machine of four states and answers through the session.
--
-- The files. Names are those of the source, and a continuation's calls are the entries of a list
-- that the function returns, in the order of the calls.
--   Prelude, Prelude/Tests, Prelude/Lists: names of the libraries, tests on numbers, byte strings.
--   Core, Element, Element/Order, Element/Range: include/telnetpp/core.hpp, command.hpp,
--     negotiation.hpp, subnegotiation.hpp, element.hpp. Element/Hash:
--     include/telnetpp/detail/hash.hpp.
--   Stream: when two sequences of elements read the same, and what is done for each element of one
--     (Stream/Folding). It models no code.
--   Parser: include/telnetpp/parser.hpp. Parser/Safety has the invariant of its states,
--     Parser/Chunks compares input in pieces with the whole, and Parser/Opening is for a
--     subnegotiation with no content.
--     Parser/Live is the same parser as it runs, calling its continuation before it goes on, with
--     Live/Batch on where the two agree, Live/Faults on exceptions and Live/Nested on reads within.
--   Generator: include/telnetpp/generator.hpp, detail/generate_helper.hpp. Generator/Escape has the
--     loop's specification, Generator/RoundTrip parses what was generated.
--   Router: include/telnetpp/detail/router.hpp and the three routers beside it, with Router/Laws;
--     Router/Meaning is for routers of names.
--   Printing: src/command.cpp, negotiation.cpp, subnegotiation.cpp, element.cpp, with
--     Printing/Meaning on what the printed text says.
--   TelnetOption: include/telnetpp/option.hpp, client_option.hpp, server_option.hpp.
--     TelnetOption/Negotiation joins a client side and a server side by a step relation,
--     whose steps Negotiation/Configurations and Negotiation/Agreement follow; TelnetOption/Slots
--     does so where the slots of the options change them.
--   Session: include/telnetpp/session.hpp, src/session.cpp, src/detail/registration.cpp.
--     Session/Registration follows messages to handlers, Session/Delivery the bytes of a stream to
--     them, also in pieces (Session/Cutting), and Session/Transparency joins two sessions.
--     Session/Live is the session as it runs, with routers of names, so that a handler can install
--     others; Live/Reading and Live/Serving follow the bytes of a stream, and Live/Static (with
--     Live/Lifted and Live/Named) is for one element whose handler installs nothing.
--   Options/NewEnviron: include/telnetpp/options/new_environ and src/options/new_environ, with
--     Requests and Responses for the two parsers, Server for server.cpp, Client for client.cpp
--     and Exchange for the two over sessions; RequestTrip, ResponseTrip, Storage, Query and
--     Exchange/Learned hold proofs.
--   Options/Msdp: include/telnetpp/options/msdp and src/options/msdp, with Encoder, Decoder
--     and Peers for the client and the server; Safety, Runs, RoundTrip, Faults and Tables hold proofs.
--     Msdp/Printing is src/options/msdp/variable.cpp.
--   Options/Basic: include/telnetpp/options/basic_client.hpp, basic_server.hpp and the options
--     binary, echo and suppress_ga.
--   Options/Naws (with Peers for the client over a session), Options/Charset,
--     Options/TerminalType: the options of these names.
--   Options/Mccp: src/options/mccp/codec.cpp, client.cpp, server.cpp; with Mccp/Loop and
--     Mccp/Compression. Mccp/Zlib: src/options/mccp/zlib/compressor.cpp, decompressor.cpp; Zlib/Laws
--     says what the zlib library documents, and Chunk, Compressing, Reading, Starting,
--     Decompressing, RoundTrip, Balance and Lifecycle hold proofs. Mccp/Finishing is the server at the end
--     of the compression. Mccp/Stacked puts the codecs between two sessions; in Mccp/Streamed the
--     reading session has the client installed (Mccp/Receiver) and follows a stream that begins to
--     be compressed after a while, and in Mccp/Ending the other side takes the option back.
--   Rot13: examples/rot13server, with Encode for the encoder of rot13_server.cpp, Connection for
--     connection.cpp (proofs in Connection/Terminal) and Server for the rest of rot13_server.cpp
--     (proofs in Conversation); Serving (with Owners and Answers) has the server's connections
--     together, and Handshake a terminal that agrees to all options.
--   Examples: runs at concrete inputs.
--
-- State. Where a call reaches other objects (an option writes to its session, a session calls
-- handlers and the channel), a type `W` stands for all that calls can change, and a call is a
-- function on `W`. The channel, the slots connected to a signal, the application's callback, the
-- class that derives from a codec, the zlib library and the hash of a byte are parameters.
-- Elsewhere the state is a record, passed and returned.
--
-- Numbers and bounds. Bytes are natural numbers; where the source cuts a number to 8 or 16 bits
-- (Options/Naws), to the 32 bits of a `uInt` (the size of a piece of data, in Mccp/Zlib) or to 64
-- (Element/Hash), the model does. The theorems on the codecs' data are about pieces of fewer than
-- 2^32 bytes, each of which the library is offered as a whole; of a piece that is not so small the
-- code loses bytes. Every loop is structural recursion over its bytes, requests or entries, but
-- for that of the codec, whose step the derived class decides: it runs on fuel. With the codecs of
-- zlib some fuel is enough for any pieces of that size, if the library does what it documents
-- (Zlib/Compressing, Zlib/Reading). The compressor's end runs on fuel too, and one more than what
-- the library has still to give is enough (Zlib/Compressing). The printing of an element runs on
-- fuel, one unit a call, and for text no fuel is enough (Printing/Meaning). Calls with no defined
-- behaviour in C++ are faults of a result type (Msdp/Decoder), and so are exceptions (Mccp,
-- Parser/Live). The calls that slots make within one another are a finite tree
-- (TelnetOption/Slots). What the event loop of the example server brings, in any order, is a list
-- (Rot13/Serving).
--
-- Not modelled. The zlib library and the sockets, which are parameters; the event loop and
-- the logging of the example server; assertions; the tests. A handler that installs another for its
-- own key assigns to the function that is running, which has no defined behaviour in C++: in
-- Session/Live it runs to its end. A read that is started in a call with text is followed in the
-- parser only (Live/Nested), and there it does not use the text afterwards, which the source may have
-- moved. Session/Live has no exceptions.
pub mod Prelude
pub mod Core
pub mod Element
pub mod Stream
pub mod Parser
pub mod Generator
pub mod Router
pub mod Printing
pub mod TelnetOption
pub mod Session
pub mod Options
pub mod Rot13
pub mod Examples
