-- ===== src/Lib.antt =====
-- SatPI, a SAT>IP server in C++: its handling of MPEG transport streams, from the packets of a
-- device to the packets that are sent, and of the requests of its clients, as functions on explicit
-- state, and what they are proved to do.
--
-- The parts, each with the file that models it. Paths are those of the repository.
-- - PidTable: src/mpegts/PidTable.{h,cpp}. `PidTable` is the class, one function for each member
--   function (`set_pid` is `setPID`); `receive` runs `addPIDData` over a list of counters.
-- - TableData: src/mpegts/TableData.{h,cpp}. A PSI table is collected section by section from the
--   packets of a PID; TableData/Crc has the checksum.
-- - PacketBuffer: src/mpegts/PacketBuffer.{h,cpp}, the RTP packet with its seven TS packets.
-- - Pat, Pmt, Sdt, Pcr: src/mpegts/PAT, PMT, SDT and PCR, the tables that are read from collected
--   sections, and the clock.
-- - Text: the helpers of src/StringConverter.cpp that a request needs, and the functions of the C++
--   library they use; Text/Search has the comparison and the trimming, Text/Percent the decoding of
--   a URL.
-- - Filter: src/mpegts/Filter.{h,cpp}, which ties the others together. Filter/Packets has
--   `filterData`, Filter/Device the filters of the device behind two callbacks, Filter/Request the
--   text of a request.
-- - Output: src/output/StreamThreadBase.{h,cpp}, the ring of packet buffers between the device and
--   the output, with `readDataFromInputDevice`; Output/Rtp has the output over RTP, and
--   Output/Threads a pause as the interleaved steps of two threads.
-- - Rtcp: src/output/StreamThreadRtcpBase.cpp, the packets of an RTCP report.
-- - Message, Params: src/socket/SocketClient.h, src/TransportParamVector.cpp and
--   src/HeaderVector.cpp, what is read from the text of a request.
-- - StreamClient, Stream, StreamManager: src/StreamClient.{h,cpp}, src/Stream.{h,cpp} and
--   src/StreamManager.cpp. A `Stream` has its eight clients, its device and its output; the manager
--   is a list of streams. Stream/Request has `processStreamingRequest` of a stream.
-- - HttpcServer: the dispatch of a request of src/HttpcServer.cpp, with the SETUP of
--   src/RtspServer.cpp. HttpcServer/Reach has the steps of the server: requests and session checks.
-- - Lnb, Diseqc: src/input/dvb/delivery/Lnb.{h,cpp} and DiSEqc*.{h,cpp}, the converters and switches
--   of a dish.
-- - FrontendData: src/input/dvb/FrontendData.{h,cpp} with src/input/DeviceData.{h,cpp}, the settings
--   of a frontend and how a request changes them; FrontendData/Words has the words of a request, and
--   those of src/StringConverter.cpp.
-- - Transformation, M3u: src/input/Transformation.{h,cpp}, requests that are turned into others by a
--   mapping file, and src/base/M3UParser.{h,cpp} with Tokenizer.h, that file.
-- - Tuning: src/input/dvb/delivery/DVBS, DVBT and DVBC, the properties that tune a frontend.
-- - DvbapiFilter: src/decrypt/dvbapi/Filter.h and FilterData.h, the section filters of a decryption
--   server, which collect raw tables with TableData.
-- - DvbapiBatch: src/decrypt/dvbapi/ClientProperties.cpp, Keys.cpp and the part of Client.cpp for a
--   scrambled packet, the batch of packets to decrypt.
-- - Base: Boolean tests, lists, integers, counted loops, memory and results that the parts share.
--
-- How they meet: HttpcServer reads a request by Message and Params and hands it to StreamManager,
-- which finds a Stream and a StreamClient; the stream drives its device and its output. A device
-- fills the buffers of Output, whose packets Filter filters by PidTable and collects into TableData,
-- from which Pat, Pmt, Sdt and Pcr are read.
--
-- Memory. A pointer to bytes is a function from the offset, a byte string is a list; `none` as the
-- result of an operation stands for a read behind the bytes that are there, which C++ leaves
-- undefined, for a write behind an array (`set_key`), for a `memcpy` whose areas overlap (`purge`),
-- and in the requests also for an exception that leaves the operation. Unsigned numbers wrap around
-- where the code's can. The tuning words, which the code computes as `double`, are the
-- integers these are rounded to.
--
-- Loops. Counted loops run for as many rounds as they have; the search of `trySyncing` has the 940
-- offsets of its bound. The loops of `PMT::parse` and `SDT::parse` have as many rounds as the bytes
-- they go over, each round going on by one at least; Pmt/Runs relates the former to loops without
-- a bound, and Sdt/Rounds is on the latter. `split`
-- has as many rounds as characters and one more, each but the first beginning at a later one, and so
-- has the decoding of a URL. The loops over a batch have an entry of its array for each round.
--
-- Interfaces. `Filter` is parametrised by two tables, `Table N` and `Table S`, for the NIT and the
-- SDT, of which it only uses that they collect and parse (`Sdt.sdt_table` is the latter). The
-- callbacks that open and close a filter of the device are parameters too, of which `IsDevice` says
-- what they do, and the device, decryption and output of the ring in Output. A stream has a `Device`
-- and an `Output`, the senders of DiSEqC a `Frontend`, the tuning a `Tuner`, and the batch the decryption of libdvbcsa, of
-- which nothing is assumed. The settings of a frontend have floating point as `Doubles`, and the
-- filter as `Pids`. The time, the number of a new session, the address of a socket and which
-- sockets are closed are arguments.
--
-- Not modelled: the log, the XML in and out, the locks (each operation is one step, and so is each
-- request), the NIT, `PMT::cleanPI`, the sockets of the output and its threads but for a pause, the
-- text of the replies, the web interface, the files of root tuners and the rest of Frontend, and the
-- protocols of decryption.
pub mod Base
pub mod Diseqc
pub mod DvbapiBatch
pub mod DvbapiFilter
pub mod Filter
pub mod FrontendData
pub mod HttpcServer
pub mod Lnb
pub mod M3u
pub mod Message
pub mod Output
pub mod PacketBuffer
pub mod Params
pub mod Pat
pub mod Pcr
pub mod PidTable
pub mod Pmt
pub mod Rtcp
pub mod Sdt
pub mod Stream
pub mod StreamClient
pub mod StreamManager
pub mod TableData
pub mod Text
pub mod Transformation
pub mod Tuning
