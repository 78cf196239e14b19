-- ===== src/Lib.antt =====
-- Verification of the media forwarding core of Symphony Media Bridge, a selective forwarding unit:
-- it receives RTP streams from the endpoints of a conference and sends each endpoint a selection
-- of them. This library models the parts that decide what is forwarded and that rewrite it.
--
-- A video packet that arrives is first put to the stream director, which knows the simulcast levels
-- of each sender, who has pinned whom and the estimated uplink of each receiver. The director says
-- whether anybody needs the packet (`isSsrcUsed`) and which receivers get it (`shouldForwardSsrc`).
-- For each of these the packet is rewritten in the context of an outbound stream, so that the
-- receiver sees one continuous stream whatever source it comes from. The rewritten packet is cached,
-- and answers to the receiver's requests for lost packets (NACK) are sent from the cache. For its own
-- losses the bridge tracks the missing packets of a stream and asks the sender for them, and audio
-- that it decodes goes through a jitter buffer. Who speaks and who is seen, and on which of the
-- bridge's own SSRCs, is kept by the active media list, which also chooses the dominant speaker.
-- Messages to and from an endpoint go over data channels, which an SCTP association carries: it is
-- set up by a handshake with a signed cookie, cuts the messages into chunks, and puts the chunks
-- that arrive in order again.
--
-- Files and what they model, by the paths of the repository:
--   Common            shared names, Boolean tests, lists, machine words;
--   Common/Maps       concurrency/MpmcHashmap.h and memory/Map.h as callers see them: `Map`, with
--                     emplace, erase, find, contains and size;
--   Common/Ring       math/Fields.h: `ring_difference` is ringDifference;
--   Director/Streams  bridge/engine/SimulcastStream.h and SimulcastLevel.h;
--   Director/State    the members of bridge/engine/EngineStreamDirector.h, its constructor and
--                     lookups, and bwe/BandwidthUtils.cpp;
--   Director/Participants, Director/Pins, Director/Quality, Director/Forwarding
--                     the operations of EngineStreamDirector: participants, pinning, quality by
--                     bandwidth, and the decisions on packets. A function of the model has the
--                     name of the C++ function in lower case with underscores; a loop or a part of
--                     a long function is a helper above it;
--   Codec/Vp8         codec/Vp8Header.h on a payload given as its bytes;
--   Codec/H264        codec/H264Header.h;
--   Rewrite/State     the members of bridge/engine/SsrcOutboundContext.h, the header fields of
--                     rtp/RtpHeader.h and the rewriting of header extensions;
--   Rewrite/Audio     rewriteAudio and dropTelephoneEvent of bridge/engine/SsrcOutboundContext.cpp;
--   Rewrite/Video     rewriteVideo of the same file;
--   Nack/Builder      rtp/RtcpNackBuilder.cpp and the readers of rtp/RtcpFeedback.cpp;
--   Nack/Cache        bridge/engine/PacketCache.cpp;
--   Nack/Response     bridge/engine/VideoNackReceiveJob.cpp;
--   Active            bridge/engine/ActiveMediaList.cpp: Active/Entries is memory/List.h,
--                     Active/State the members, Active/Audio the speakers, Active/Video those who
--                     are seen, and Active/Process the dominant speaker;
--   Receive           bridge/engine/SsrcInboundContext.h, PliScheduler.h and the decryption of
--                     RtpForwarderReceiveBaseJob.cpp; Receive/Video is VideoForwarderReceiveJob.cpp
--                     and ProcessMissingVideoPacketsJob.cpp, Receive/Retransmitted is
--                     VideoForwarderRtxReceiveJob.cpp, Receive/Send is
--                     VideoForwarderRewriteAndSendJob.cpp, and Receive/Counters is
--                     transport/RtpReceiveState.cpp without the jitter and the sender reports;
--   Missing           bridge/engine/VideoMissingPacketsTracker.cpp and the comparison of utils/Time.h;
--   Jitter            rtp/JitterBufferList.cpp;
--   Sctp              transport/sctp/SctpAssociationImpl.cpp: Sctp/Inbound is what onDataReceived
--                     does with DATA chunks, with gatherReceivedFragments and reportFragment,
--                     Sctp/Outbound is sendMessage, Sctp/Sack is prepareSack with the SackBuilder of
--                     Sctprotocol.cpp, Sctp/Acked is onSackReceived with handleFastRetransmits and
--                     getFlightSize, Sctp/Flow is CongestionControl, and Sctp/Handshake is connect,
--                     onInitAck, onCookieAckReceived, onCookieEcho and the timers of the handshake,
--                     with SctpServerPort.cpp, the side that answers.
-- The modules below these prove properties of them, and the Tests modules apply the properties to
-- concrete values.
--
-- State is passed explicitly: an operation takes the state and returns the new one with its result.
-- Machine words are natural numbers with the wrap-around written out; a signed word is the pattern
-- of its unsigned type, compared by `slt32` and its like. A map is a list of its entries with its
-- capacity: an insertion never overwrites and fails at capacity, as in the source. The loops over
-- H.264 units and over the bits of a request run on fuel. The length of the payload is enough for
-- the first, since each round moves on by at least 3 bytes, and 16 is for the second, since each
-- round halves a word of 16 bits. The loop that reports received messages has as much fuel as there are
-- chunks, of which each round takes at least one away.
--
-- Not modelled: logging, assertions and the counters that only they read; the lock-free index of
-- the hash map, which also cuts keys to 40 bits, and concurrent access to it; the byte layout of
-- header extensions, which are given as the list of their items; the allocators, whose answer is
-- an argument; SRTP, whose answers are arguments of the jobs; the audio levels and scores, which
-- are floating point numbers, so that the ranking of the speakers is an argument of `process`; the
-- parsing of cached packets, which are records of the fields that matter. Of the SCTP association
-- the transmission of queued chunks is not modelled, whose timers depend on a round trip time in
-- floating point, nor are the MTU probes, the heartbeats, an INIT that arrives at an association, and
-- the byte layout of chunks; the code that signs a cookie is a parameter. The rest of the transports,
-- ICE, DTLS, the mixers, the HTTP API, the bandwidth estimators, the audio
-- mixing and the job system are outside of this library.
pub mod Common
pub mod Director
pub mod Codec
pub mod Receive
pub mod Sctp
pub mod Rewrite
pub mod Nack
pub mod Jitter
pub mod Missing
pub mod Active
