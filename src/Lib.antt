-- ===== src/Lib.antt =====
-- AISuite: the broker between one Codex app server and its frontends.
--
-- The program. CodexBridge owns one connection to the app server and registers frontends, of which
-- one may be the controller. It gives forwarded requests ids of its own, returns the answers under
-- the frontends' ids, hands the app server's requests to the local application or to the
-- controller, and broadcasts notifications and its own events. The messages are JSON values, which
-- the envelopes wrap; on a byte stream they are framed as lines. A frontend holds a CodexBridge of
-- its own, which speaks to the broker and matches answers with requests; the console client reads
-- its commands from lines. Apart from these, ResponsesStream turns the events of a model provider
-- into the events that the app server expects of a model, and MessageStream reads those of one
-- provider from what its server sends.
--
-- The parts, each with its source under src/ai/openai/codex, or in full where it starts with src:
--   Framer       protocol/JsonLineFramer.cpp. `consume` and `encode` keep their names; the record
--                JsonLineFramer has the members of the class. A run returns the new framer, what was
--                delivered and reported, and how the call ended. Framer/Stream describes the bytes
--                one at a time, Framer/Chunks and Framer/RoundTrip build on that, and Framer/Bounds
--                is about the buffer.
--   Envelope     protocol/Envelope.cpp, function by function; Envelope/Laws is about them.
--   Bridge       bridge/CodexBridge.cpp. Bridge/State has the members (`Core`), the sequence number
--                and the calls made so far; Io the sending; Frontends registration and the
--                controller; Ids the request ids; ReadOnly the methods of observers; Forward
--                handleAppServerEnvelope; Control handleControllerCommand and receiveFromFrontend;
--                Local the local application's calls; Provider receiveFromAppServer; Lifecycle the
--                transport's events. A method's name is the function's in snake_case. Quiet and
--                Invariant are about the tables, Routing about who may send what.
--   Connection   frontend/client/ClientConnection.cpp, operation by operation; Connection/Sessions
--                is about sequences of calls.
--   Sse          src/ai/http/SseDecoder.cpp, byte by byte; Sse/Reads is about reads in pieces and the
--                limit, Lines about one line, Written, RoundTrip and Streams about events as they are
--                written.
--   Sdk          frontend/CodexBridge.cpp, the frontend's CodexBridge: State has its members, Send what
--                it sends, Receive what it does with a message and with the loss of its transport,
--                Request its requests. Pending, Keeping and Sessions are about the requests that
--                wait, Sdk/Wire about the two CodexBridges together.
--   Model        src/ai/model/Provider.h: the events of a model provider.
--   Responses    model/ResponsesAdapter.cpp, the class ResponsesStream: CustomInput decodes freeform
--                tool input, Stream has the members and what is sent, Blocks and Finish the handling
--                of each event. Pieces and Decoding are about what CustomInput decodes, Invariant,
--                Keeping and Ending about the numbering of the events, Terminal about the end of the
--                stream.
--   Anthropic    src/ai/providers/anthropic/AnthropicProvider.cpp, the class MessageStream: Values reads
--                the server's JSON, State has the members, Blocks and Events handle each event.
--                Order, Keeping, Calls and Sessions are about what its receiver is told.
--   Console      src/apps/codex-bridge-client: Words, Options and Parse are CommandParser.cpp, Stdin is
--                StdinReader.cpp. Bounds, Choices and Choosing are about the loop over the options,
--                HelpText has the lines that the help text shows and their meaning, Typing, Threads
--                and Commands are about how they are parsed, Lines about lines as they are read.
--   Json         the interface of the JSON library, with the documented laws apart from it.
--   Common       lists, texts as lists of character codes, association lists, decimal digits.
--   Tests        the theorems at concrete inputs, with a small JSON library.
--
-- State and effects. An operation takes the bridge and returns it changed. Calls that leave it are
-- recorded in `trace`; how an endpoint or a callback answers is a `World`, a function of what was
-- called before. An operation that may throw, or whose loop may not end, returns an Option. The
-- frontend's CodexBridge has its own calls and `Surroundings`. A step of ResponsesStream or
-- of MessageStream is an `Attempt`, which keeps what was changed before a throw; whether the sender
-- accepts an event, and whether the receiver cancels, is a function of the events before it, and the
-- text of a library's exception is left open.
--
-- Bounds. The counters are 64 bits wide and wrap. The loop of `consume` has as much fuel as the
-- buffer has bytes, and one more, and each round takes a byte at least. The search for a request
-- id has one more than the entries that can be in the way. The loop over the options of a thread has
-- one more than the bytes of its text, and each pass that goes on takes a byte at least; so has the
-- loop over the lines of the standard input.
--
-- Not modelled: callbacks and endpoints that call back into an object while it runs; the log; the
-- order in which a hash map is walked, for which the order of insertion stands; the typed wrappers
-- round requests and events, which come from generated code; the wording of the framer's errors.
-- Receivers of a model's events that throw are not modelled either. Of the Responses adapter the
-- parsing of requests and the wiring of a session, of the Anthropic provider the request that it
-- prepares and the wiring of an inference, of StdinReader the descriptor, the transports and their
-- sockets, the rest of the HTTP client and the rest of the applications are
-- not part of this library.
pub mod Common
pub mod Framer
pub mod Json
pub mod Connection
pub mod Sdk
pub mod Model
pub mod Responses
pub mod Console
pub mod Anthropic
pub mod Sse
pub mod Envelope
pub mod Bridge
pub mod Tests
