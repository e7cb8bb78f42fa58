-- ===== src/Lib.antt =====
-- moq-transport, the MoQ transport library of this repository: its wire protocol, the shared state of
-- its tracks, and the sessions that move tracks over a connection.
--
-- The parts. A session opens a control stream, on which a client setup is answered by a server
-- setup (moq-transport/src/setup), and control messages follow (moq-transport/src/message). Objects
-- come on streams of their own, behind a stream header, or in datagrams (moq-transport/src/data).
-- All of them are encoded by the traits `Encode` and `Decode` (moq-transport/src/coding), and read
-- by `Reader::decode` (moq-transport/src/session/reader.rs), which decodes what has arrived and
-- reads more where the decoder answers `DecodeError::More`. The publisher of a session enters each
-- SUBSCRIBE in its table and routes it to the announce of its namespace
-- (moq-transport/src/session/publisher.rs, announce.rs, subscribed.rs); the subscriber finds for each
-- stream and datagram received the writer of its subscription (subscriber.rs, subscribe.rs,
-- announced.rs). Both hold tracks, whose writers and readers share states
-- (moq-transport/src/serve) that tell their readers of a change (moq-transport/src/watch).
--
-- Which file models what:
--   Prelude              tests, list lemmas, big-endian integers
--   Coding/Outcome       `DecodeError`, `EncodeError`, and results that may be a panic
--   Coding/Buffer        the traits `bytes::Buf` and `bytes::BufMut`, `Vec<u8>` and `Cursor`: other
--                        crates' code, taken as parameters with the behaviour they document
--   Coding/Decoder       `Decode` (coding/decode.rs): state passing over a buffer that is read
--   Coding/Encoder       `Encode` (coding/encode.rs): state passing over a buffer that is written
--   Coding/Varint        VarInt, u64, usize and u8 (coding/varint.rs)
--   Coding/Text          String (coding/string.rs)
--   Coding/Tuple         Tuple and TupleField (coding/tuple.rs); its loops are in Coding/Sequence
--   Coding/Params        Params (coding/params.rs): codec, `set`, `get` and `has`
--   Coding/Prefixed, Coding/Framed   code that these and the messages share
--   Coding/Rules         Writes, Reads, Hungry, Parses, ReadsAll, Stops, Ensures: what it means to
--                        encode and to decode a wire form, and how it composes
--   Coding/Codec, Coding/RoundTrip   the contract of a type with both traits
--   Message/X            message/x.rs for each message X: `x_encode` is `X::encode`, `x_decode` is
--                        `X::decode`, and `x_wire` the wire form, from those of its fields
--   Message/SubscribePair, Message/SubscribeRange   the range of message/subscribe.rs and
--                        message/subscribe_update.rs; Message/Last the optional last object
--   Message/Union        `Message` (message/mod.rs)
--   Data/X               data/*.rs, named as the types are
--   Setup/X              setup/*.rs; Setup/RoleParam and Setup/Body hold what both messages share
--   Session/Reader       `Reader::decode`, `read_chunk` and `done` (session/reader.rs)
--   Session/Writer       `Writer::encode` and `Writer::write` (session/writer.rs)
--   Watch/State          `State`, `StateRef`, `StateMut`, `StateChanged` (watch/state.rs): a value with
--                        its epoch and its wakers; Watch/State/Handles counts the handles of each side;
--                        Watch/Word is the counter of the epoch
--   Watch/Queue          `Queue` (watch/queue.rs)
--   Serve/Error, Serve/Info   `ServeError` (serve/error.rs), and the records that tell what a track,
--                        a group or an object is
--   Serve/Log, Serve/Latest   the two shapes of state of serve: the list that a writer extends, and
--                        the latest item with its epoch
--   Serve/Subgroup       serve/subgroup.rs: /Object, /Group (a subgroup) and /Groups (the track)
--   Serve/Stream         serve/stream.rs: the stream, /Group and /Object
--   Serve/Objects        serve/object.rs; an object is in /Chunks
--   Serve/Datagrams      serve/datagram.rs
--   Serve/Track, Serve/Tracks   serve/track.rs, with its macros in /Modes and /Writers, and
--                        serve/tracks.rs
--   Message/Sides        message/publisher.rs and message/subscriber.rs
--   Session/Publisher, Session/Subscriber   session/publisher.rs and session/subscriber.rs: `handle`
--                        is the match of `recv_message`, and `recv_x` the handler of a message x;
--                        Session/Publisher/Table is the `HashMap` of the tables
--   Session/Announce, Session/Subscribed   session/announce.rs and session/subscribed.rs
--   Session/Subscribed/Sending   `serve_subgroup` (session/subscribed.rs), on the states that it finds
--   Session/Announced, Session/Subscribe   session/announced.rs and session/subscribe.rs
--   Session/Handshake    `connect_role` and `accept_role` (session/mod.rs), from the opened control
--                        stream to the role of the session
--   Properties           the statements about whole components
--   Tests                concrete buffers, and the statements run on them
--
-- How code is modelled. A byte and an integer is a number, and a wrap-around is written out. A
-- `usize` has 64 bits. A `String` is the list of its UTF-8 bytes. An `unwrap` of an error, an
-- `unreachable!` and a buffer that is read or written past its end are the outcome `panic`. After
-- an error no buffer is returned, since every caller drops its cursor or clears its buffer. The
-- map of `Params` is the list of its entries in the order of iteration; two maps with the same
-- entries in another order are told apart here. The allocation of memory does not fail. A SUBSCRIBE
-- or SUBSCRIBE_UPDATE with the filter AbsoluteStart is given no wire form: the encoder sends an end,
-- which the decoder does not read.
--
-- How shared state is modelled. A state that handles share is the `StateInner` that a function takes and
-- returns, and where a function uses several, each handle holds the address of its state. Creating a
-- state takes an unused address as an argument. One critical section is one definition, since nothing
-- can happen while the lock is held: an async loop is the definition of one round, which returns a
-- result or waits for the next change, and a call that goes through several rounds, as `read_all`, takes
-- the list of the states that it sees. An epoch, a group id and an object id wrap at 2^64, as a
-- release build does. `closed` is `none` for `Ok(())`. A wake is an entry in a log. Where a reader that
-- stands in a state is replaced, it is listed among those released, for its drop. A `BinaryHeap` pops
-- the first of its greatest elements. A `HashMap` is the list of its entries. A message that is sent is
-- returned, in order, and the queue that carries it is not full. The text of an error (`to_string`) is
-- a parameter.
--
-- Bounds. Numbers and lengths on the wire have 62 bits. Loops over a count that was read recurse on
-- the count. The reader recurses on the reads that its stream still answers, so no fuel is needed:
-- a stream is the finite list of the results of its reads, the last of which is its end or an error.
-- The writer recurses in the same way on the writes of its stream, the last of which may wait for
-- ever.
--
-- Not modelled: the tasks of a session after its handshake, with the loops that copy the objects
-- of a track to streams and back (of session/subscribed.rs only `serve_subgroup` is modelled, and
-- of session/subscriber.rs neither `recv_track` nor `recv_subgroup`), `Publisher::announce`, and
-- session/track_status_requested.rs, since they are built on the joining of tasks and on the
-- streams of the transport; moq-relay-ietf, moq-catalog, moq-native-ietf and the programs, which
-- are input and output around the library; serve/broadcast.rs and moq-transport/src/util, which no
-- module declares; and internal_crates, which are libraries of another project.
pub mod Prelude
pub mod Coding
pub mod Data
pub mod Message
pub mod Setup
pub mod Watch
pub mod Serve
pub mod Session
pub mod Properties
pub mod Tests
