-- ===== src/Lib.antt =====
-- gotmux drives tmux from Go. This library models the parts of it that read and write tmux's own
-- languages, and the requests and event streams of a control connection.
--
-- The parts and how they interact. A command is built or parsed by tmux/command.go, whose plans are
-- rendered either as the text of a control connection or as the arguments of a tmux process; both
-- use the quoting and the word and sequence parsers of internal/wire. What tmux prints is a stream of
-- length-framed records, which internal/wire encodes and reads back; the payload of a notification is
-- octal-escaped, and decoded there too. On a control connection, the bytes of the client first pass
-- the carriage-return filter of tmux/control_codec.go, which then reads frames and notifications off
-- them; tmux/control_dispatch.go queues the requests, bounds them by a weighted capacity, resolves
-- each once, and collects the frames of its answer; tmux/events.go decodes the lines of
-- notifications, which are then handed to the streams of tmux/event_stream.go, which bound what each
-- reader may leave unread. Identifiers and paths are checked by tmux/handles.go, and what show-
-- environment -s prints is read by tmux/environment.go. A plan made from handles is wrapped by the
-- guard of tmux/identity.go, which checks that the handles still name the same daemon, windows and
-- clients, and whose markers are taken off the answer. Several lists are read with one command list
-- by tmux/read.go, whose output is split into the rows of each; tmux/decode.go decodes a row, once
-- the version of its daemon (tmux/version.go) and its identity are accepted, tmux/query.go sorts the
-- rows and leaves out what tmux repeats, and tmux/snapshot.go compares the lists with each other.
--
-- Files and code:
--   Prelude         shared names, Boolean tests, lists and byte strings over native numbers, results
--   Wire/Argv       internal/wire/argv.go: the byte classes, ValidString, ValidCommand, EscapeArg,
--                   LiteralFormat
--   Wire/Writer     the io.Writer that WriteQuoted is given: an interface with its laws
--   Wire/Quote      internal/wire/argv.go: QuoteWriter.Write, WriteQuoted, Quote, for any writer
--   Wire/Counter    internal/wire/argv.go: Counter, an instance of that interface
--   Wire/Words      internal/wire/words.go: ParseWords, one function per round of its loop
--   Wire/Sequence   internal/wire/words.go: SplitSequence, SplitBindingSequence
--   Wire/Stream     internal/wire/records.go: recordReader, as a state monad over the bytes left
--   Wire/Records    internal/wire/records.go: EncodeRecord, decimal, scanField, scanRecord,
--                   ReadRecord, ReadRecordFields, ReadRecordWire, ParseRecords
--   Wire/Octal      internal/wire/records.go: DecodeOctal
--   Command         tmux/command.go: Command, wireArg and wireNode (a mutual pair of lists), plan,
--                   NewCommand, Sequence, ParseSequence, plan.text, plan.size, plan.argv,
--                   splitArgvCommands
--   Environment     tmux/environment.go: unescapeShellValue, parseShellEnvironment, value.GetWith, the
--                   validation of names, and the arguments of one change
--   Ids             tmux/handles.go: validID, and Valid of the identifiers
--   Events          tmux/events.go: the notifications and eventBytes; Events/Decode and
--                   Events/Subscription: decodeEvent and the decoders of each family
--   Requests        tmux/control_dispatch.go: submit, enqueue, start, deliver, abort, drain and cancel
--                   of the requests of one connection, as a step relation whose steps are what runs
--                   under one lock or in one atomic operation
--   EventStream     tmux/event_stream.go: Connection.Events, EventStream.Next, Close, finish, release,
--                   push, Connection.publish. A connection holds all streams it has made; each
--                   function is what runs under one lock, and Steps runs them in any order
--   ControlStream   tmux/control_codec.go: controlStreamReader.Read, filterDSC, transform, emit. The
--                   bytes that are read and those that are written share the caller's slice; InPlace
--                   compares this with a transform into a slice of its own, Copied
--   Frames          tmux/control_codec.go: frameHeader, boundedLine, readRecordWireChunk, checkFrameEnd,
--                   processFrameLine, readFrame, readControlUnit, over a bufio.Reader with a buffer of
--                   any size
--   Collect         tmux/control_dispatch.go: appendFrameData, handleCollectFrame, collectRequest on the
--                   frames that arrive; tmux/executor.go: classifyStderr
--   Guard           tmux/identity.go: formatBytes, condition, conditionNode, guard.wrap, guard.unwrap
--   Wire/Format     internal/wire/records.go: RecordFormat, ExpressionsFormat, nestedExpression
--   Identity        tmux/identity.go: ServerIdentity with Equal, sameDaemon, valid, isZero;
--                   tmux/server.go: Endpoint
--   Version         tmux/version.go: ParseVersion with versionPattern, AtLeast, supportedVersion
--   Rows            tmux/records.go, tmux/value.go: the decoded objects; Rows/Decoder and Rows/Decode:
--                   tmux/decode.go, recordDecoder as a state of its first error, and the decoders of
--                   each object; Rows/Tables: tmux/query.go, decodeSessions, decodeWindows,
--                   decodePanes and decodeClients
--   Read            tmux/read.go, tmux/query.go: the requests of a read, its plan, decodeRead,
--                   readRecords on the output of its one or two executions, decodeLists;
--                   internal/schema/fields.go: the variables of each kind of object
--   Snapshot        tmux/snapshot.go: Snapshot with its lookups, assess and the checks it calls
--   Options         tmux/options.go: option names, the arguments of the commands and what their output
--                   stands for; Options/Update: updateArray
--
-- Representation. A Go string or byte slice is a list of natural numbers. An int or int64 that the
-- code keeps from being negative is a natural number, and each comparison of a difference is written so
-- that it means the same there; event options may be negative, and are integers. A struct is a record,
-- a (value, error) pair is a Result, and errors are values of one enumeration: their texts and their
-- wrapping by opError and errors.Join are left out.
--
-- Fuel. ParseRecords, decodeRead, parseShellEnvironment, readFrame and controlStreamReader.Read recurse
-- on fuel: the length of the text they are given, one more for readFrame, and one more than the bytes the
-- reader below still has. Every round takes a byte, so it is enough, and the results below say that
-- these functions return. All other loops are structural.
--
-- Parameters. The reader below the carriage-return filter returns at least one byte from a read until
-- the end of the file, and never a byte together with an error, as the os.File that the connection
-- passes does; its pieces are otherwise arbitrary. The bufio.Reader of the frames has a buffer of any
-- size that is not 0, over a text that ends, and the clock is a function of the bytes left. The
-- contexts that a stream's methods take are given by the value of their Err at the time of the test.
-- The guard's results take the daemon as a function from nodes to output and the truth of a format
-- for a target, with the documented behaviour of if-shell -F and display-message -p as hypotheses; a
-- daemon that meets them is given with the tests. sort.Slice is a function of the
-- order it is given, and the results take only that it moves the rows of its slice. What the executions
-- of a read print is an argument of the functions that read it.
--
-- Not modelled: processes, sockets, PTYs and files; the wrappers of single tmux commands (hooks,
-- buffers, panes, windows, sessions, layouts); the generated table of options; the cancellation of a collection that waits for frames; blocking and wake-ups of
-- EventStream.Next (a round that would wait is a result of its own).
pub mod Prelude
pub mod Wire
pub mod Command
pub mod Events
pub mod EventStream
pub mod ControlStream
pub mod Frames
pub mod Collect
pub mod Guard
pub mod Environment
pub mod Ids
pub mod Requests
pub mod Identity
pub mod Version
pub mod Rows
pub mod Read
pub mod Snapshot
pub mod Options
