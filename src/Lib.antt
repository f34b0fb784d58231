-- ===== src/Lib.antt =====
-- A verification library for rtsp-server: the parts of the server that stand between a socket and
-- its tasks, the codecs and statistics that it uses on media, and the files that it plays and
-- records.
--
-- Bytes that a TCP socket delivers come to a callback (taskJsonCallback.cpp, RTSP_Server.cpp),
-- which appends them to the cacher of the connection and takes the packets that are whole from it.
-- A cacher (tcpCacher.cpp) asks an analyzer where the next packet is: parseRtpRtcpRtspData for
-- interleaved RTP, RTCP and RTSP, parseTaskJsonData for JSON tasks. The cachers stand in a table by
-- socket (tcpCacherManager.cpp), and another table has the time at which a socket was last heard of
-- (TCP_ConnectingManager.cpp). H.264 headers are read by a bit reader (BitReader.cpp), parameter
-- sets in SDP are Base64 (base64.cpp), and a client source keeps statistics of the RTP packets
-- that it receives (RTPReceptionStats.cpp).
--
-- A packet that is an RTSP request goes into the connection of its socket (RTSP_Server.cpp), where
-- the state machine (RTSP_state_machine.cpp) picks a session by the Session header and a handler by
-- its state and the method: RTSP_OPTIONS.cpp, RTSP_DESCRIBE.cpp, RTSP_SETUP.cpp, RTSP_PLAY.cpp,
-- RTSP_PAUSE.cpp, RTSP_TEARDOWN.cpp. They read the text of the request (parse_url.cpp), put replies
-- into the out buffer (add_RTSP_out_buffer.cpp) or send an error at once, and hand tasks that start
-- and stop streams to the task manager.
--
-- A recording is an FLV file with an index beside it. The writer (flvWriter.cpp) takes H.264 units
-- with their times, reads the size of the picture from the sequence parameter set, and writes the
-- header, the metadata and a tag for each unit (flvFormat.cpp for the byte orders, flvIdx.cpp for
-- the index); the parser (flvParser.cpp) reads the tags again as packets. Both work on a file
-- handler (fileHander.cpp), which reads through a cache. Other H.264 files are cut at their start
-- codes (h264FileParser.cpp).
--
-- Files:
--   Base              shared names: Tests (Boolean tests, conditional, Option monad), Lists, Arrays
--                     (blocks of memory), Words, Bits (or of words), Tables (association lists).
--   Tcp/Cacher        class tcpCacher: create, append_buffer, get_buffer, get_valid_buffer for its
--                     constructor, appendBuffer, getBuffer, getValidBuffer. Append and Take have
--                     the operations against the queue of the bytes held, Drain the loop.
--   Tcp/Interleaved   parseRtpRtcpRtspData; Length, Scan, Total and Packets have its properties.
--   Tcp/Json          parseTaskJsonData; Frames, Total and Stream have its properties.
--   Tcp/Stream        deliveries to a callback, for any analyzer and format of packets;
--                     Drained and Waits have what is held between them.
--   Tcp/Manager       class tcpCacherManager; Isolation keeps the sockets apart.
--   Tcp/Connecting    class TcpConnectingManager; Timeouts says who is cut off.
--   Codec/BitReader   class CBitReader; Bits, Golomb and Aligned have its properties.
--   Codec/Base64      base64.cpp; RoundTrip has its property.
--   Rtp/ReceptionStats  class RTPReceptionStats; Sequence, Tally, Run, Loss and
--                     Gaps have its properties.
--   File/Handler      class fileHander: create, read_file, write_file, seek and current_file for its
--                     constructor, readFile, writeFile, seek and curFile. Caching, Reading,
--                     Ends, Seeking, Moves, Writing and Ahead have its properties.
--   H264/Nal          get_frame, emulation_prevention and initializeFile of h264FileParser.cpp;
--                     Codes and Escapes have their properties.
--   H264/Sps          flvWriter::parseSps.
--   Flv/Format        the byte orders of flvFormat.cpp. Flv/Packet: timedPacket of RTP.h.
--   Flv/Tag           the tags of flvWriter::writePacket. Flv/Writer: class flvWriter; Metadata
--                     has what it puts in place.
--   Flv/Steps         the state of flvParser, and steps on it that fail or fault.
--   Flv/Parser        class flvParser: Script, Video and Frames for parseScriptData,
--                     parserVideoData and getNextFrame; Ends says that a loop ends.
--   Flv/TagRead, Flv/RoundTrip, Flv/Configuration, Flv/Recording  what is written and read again.
--   Flv/Index         class flvIdxReader, against a search in a list.
--   Rtsp/Text         strstr, strtok, sscanf and sprintf on lists of bytes. Rtsp/Url: parse_url.
--                     Rtsp/Status: get_stat.
--   Rtsp/Host         what the handlers ask of the host: clock, files, sockets, live streams.
--   Rtsp/Connection   RTSP_buffer and RTSP_session, the results of code on them, error replies;
--                     Steps and Yields are rules for what code keeps and gives.
--   Rtsp/Request      what the handlers read from a request in the same way.
--   Rtsp/Options, Rtsp/Describe, Rtsp/Setup, Rtsp/Play, Rtsp/Pause, Rtsp/Teardown  the handlers
--                     of the methods; Setup/Objects has the track that SETUP asks for. Frames and
--                     Frames/Setup say what they change, Paths/Outside and Teardown/Numbers more of
--                     them.
--   Rtsp/Machine      RTSP_state_machine; Asked, Moves, Complete, Ready and Invariant have its
--                     properties.
--   Rtsp/Handler      RTSP_handler, RTSP_validate_method and RTSP_end; Answers counts replies.
--   Rtsp/Server       RTSP_Callback and RTSP_Close_Client with the tables of connections, cachers
--                     and times; Split and Closed have their properties.
--   Tests             the theorems at concrete inputs.
--
-- Conventions: a member m_someName is the field some_name, an operation keeps its name in the
-- spelling of the library. Numbers are native naturals, and an unsigned operation has its wrap
-- written out. An operation that may access memory outside of its block returns an Option, and
-- `none` stands for such an access. What malloc or new leave in memory is a function `junk`. The
-- clock is an argument.
--
-- Code on a connection takes the connection and the log of what was done, and gives a Result: `ret`
-- with a value, `stop` where it returns with an error, or `fault` where it accesses memory outside
-- of an array or through a null pointer. The log has the texts that are sent, and the tasks that are
-- added or executed. A text is the list of its bytes before the terminating zero, in_buffer is the
-- whole array, and an in_buffer without a zero is a fault. A pointer to a session is its place in
-- the list. The answers of clock, files, sockets and live streams are fields of `Host`, as are the
-- blocks of an RTCP packet.
--
-- Fuel: the loop of getValidBuffer takes at least one byte in a round, and has one round more than
-- there are bytes; the loop of parseTaskJsonData goes a byte further in a round, and has the same;
-- the loop that counts zeros in a code word stops at 32 in the source, and has 33 rounds; the loop
-- that carries microseconds takes a second from them in a round, and has one round for each. The
-- searches of get_frame go past a byte in a round, and have one for each byte; the loop over the
-- units of a tag takes four bytes or more in a round, that over the values of a script tag one,
-- and both have more rounds than the tag has bytes. The recursion of getNextFrame on script tags
-- has no bound in the source, and its fuel is an argument; so is that of getNearestIdx.
--
-- Assumed of the host, as the program is built: `char` is signed, words are little-endian,
-- `unsigned long` has 64 bits. Allocation does not fail.
--
-- Of floating point only the bits of a number are carried, and conversions and comparisons of
-- numbers are parameters.
--
-- Not modelled: the mutexes, which serialise the calls; sockets and threads, failures of the disk;
-- the sources and sinks of streams, the text of SDP, RTCP, the task queues and what the tasks do;
-- the sizes of the small arrays in which parts of a reply are put together; jitter and presentation
-- time; json11 and log4z, which are other projects' libraries.
pub mod Base
pub mod Tcp
pub mod Codec
pub mod Rtp
pub mod File
pub mod H264
pub mod Flv
pub mod Rtsp
mod Tests
