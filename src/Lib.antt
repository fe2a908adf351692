-- ===== src/Lib.antt =====
-- A verification library for ti_features, a plugin that computes features of network flows: for
-- each packet of a flow the traffic processor (src/ti_features.cpp) updates counters, statistics,
-- rings and arrays, and at the end of the flow it derives features from them and sends them out.
--
-- The parts, and the files that model them:
--   CircularBuffer   src/utils/circular_buffer.h and .cpp: the ring behind each sequence of a flow.
--                    Valid is its invariant, Refine its abstraction to a list, Read what is read.
--   MemoryPool       src/utils/memory_pool.h: the block of memory of a flow. Sizes and Block are the
--                    sizes and the arrays, Layout the regions, Temp the temporary buffers, Upgrade
--                    the move to a larger block.
--   Rings            src/ti_features.cpp: how rings move to a larger block (Moves), and the temporary
--                    buffers of a flow (Temporaries).
--   BoundedArray     the arrays of src/feat_state.h that have a count and a capacity.
--   Config           src/feature_config.h and .cpp: Fields and Switches are the settings and how
--                    they are read, Laws what holds after reading.
--   FeatureStats     src/feature_stats.h: online statistics (Bounds), bigrams (Bigram) and what is read
--                    off the statistics at the end (Derived).
--   Basic            src/calc_basic.cpp: counters (Sums) and packet lengths (Stored).
--   Iat              src/calc_iat.cpp: times between packets (Times) and delays (Delays); Region is the
--                    memory of the temporary buffers, Features what is computed from a sequence, Bins
--                    the bins of its entropy, Derived the fields of intervals with Buffers and Keys
--                    about them, Responses the fields of delays.
--   Burst            src/calc_burst.cpp: the records of bursts (Records) and their fields (Derived).
--   Window           src/calc_window.cpp: the windows of a flow (Bitrate) and their fields (Derived,
--                    with Room about the array of byte counts).
--   Behavior         src/calc_behavior.cpp: the classification of a flow, its fields (Derived, Traffic)
--                    and the peak of the bitrates (Peak).
--   Protocol         src/calc_protocol.cpp: TCP flags (Flags), retransmissions (Segments), private
--                    addresses (Addresses), the names of ports (Services), and the fields at the end
--                    of a flow (Derived, PortFields).
--   Payload          src/calc_payload.cpp and the payload functions of src/calc_basic.cpp: shapes
--                    and magic numbers (Magic, Shapes), entropies (Entropy), statistics of payloads
--                    (Stats) and of their bytes (Bytes).
--   Sorting          src/calc_basic.cpp: the insertion sort.
--   StatsUtils       src/utils/stats_utils.h: medians (Medians), percentiles, moments and entropies.
--   Fft              src/utils/fft.cpp: the size (Sizes), the transform (Compute) and the bins with the
--                    largest magnitudes (TopBins).
--   FreqDomain       src/calc_freq_domain.cpp: the transforms of a flow's lengths and their fields (Keys).
--   Kafka            src/KafkaProducer.cpp: the producer, its life (Life), and the books on its handles
--                    (Handles, Balanced).
--   Output           the JSON object of a flow as the fields added to it.
--   Sequence         src/calc_sequence.cpp: runs of equal lengths (Runs), the chunks of a flow
--                    (Chunks), the rows of its sizes (Rows), the printed arrays (Printed), the phrases of
--                    a sequence (Complexity) and its correlations (Correlation).
--   Flow             src/ti_features.cpp: the state of a flow and its packets. Packet is the time and the lengths of a packet, Init the set-up, Grow the move to a larger block,
--                    Data the updates of a packet, Process the state machine, Output what is sent at
--                    the close, Entries the SSL and QUIC entries. Valid says when a state is sound;
--                    Started, Grown, Stepped and Processed prove it of each part, Reach of any calls,
--                    Life follows a flow to its end, and History its rings.
--   Double           the type `double` as an interface of operations.
--   Prelude          tests on numbers, machine words, and lists measured by native numbers.
--   Tests            concrete states, and the theorems applied to them.
--
-- An operation that changes `flow_feature_state_t` is a function from the fields it works on to the
-- new fields, under the name it has in the source; each component has its fields as a record. The
-- configuration is an argument. An operation that can fail returns a Status with the new state. An
-- allocation's success is an argument. unsigned int and unsigned long (long) are natural numbers
-- with the wrap-around written out (Prelude.Words). A run of packets is a list, and a function
-- over the list calls the operation for each packet in turn.
--
-- The loop of `calc_window_update` runs on fuel, as many rounds as there are windows: each round
-- moves on by one window and the loop does not pass the last. The rounding of the size of a
-- transform runs on 32 rounds, since it doubles an int of 31 bits. The other loops go over lists.
--
-- What is outside the repository is a parameter: the profile loader, the logger, the bridges and
-- Kafka (the record Env of Config), the platform's answers for a packet (the record Call of Flow),
-- htons, ntohs and ntohl, isalnum, and compress of zlib (the record System), the printing of a
-- number, qsort, cos, sin and the constant PI (the record Library of Fft), what librdkafka answers,
-- and what fresh memory holds. Arithmetic on `double` is the interface Double. No theorem takes it for the exact reals; the theorem on the
-- range of the online statistics takes the laws of IEEE comparison on numbers.
--
-- Not modelled: the features that src/calc_basic.cpp and src/calc_payload.cpp derive at the end of a
-- flow, the Hurst exponent and the rates of src/calc_sequence.cpp, and log messages. Functions that
-- nothing calls, such as the histogram of src/feature_stats.h and `calc_chi_square`, are left out.
-- The headers of src/inc_for_refer are other projects'.
pub mod Prelude
pub mod CircularBuffer
pub mod Kafka
pub mod MemoryPool
pub mod Double
pub mod Config
pub mod FeatureStats
pub mod Flow
pub mod FreqDomain
pub mod Sequence
pub mod Sorting
pub mod Behavior
pub mod Fft
pub mod Output
pub mod StatsUtils
pub mod Burst
pub mod Window
pub mod Rings
pub mod BoundedArray
pub mod Iat
pub mod Basic
pub mod Protocol
pub mod Payload
pub mod Tests
