-- ===== src/Lib.antt =====
-- Verification of OpenArangoDBCore, the open-source implementation of ArangoDB's Enterprise modules
-- (C++, under Enterprise/). The models below are translations of the sources named with them; the
-- theorems stand in the child modules, runs of the code and instances of the theorems in Examples.
--
-- The program is a set of modules behind the database server. Those modelled here:
--   Replication         Enterprise/Replication: replication between two data centres. On the source's
--                       side a thread per shard (DC2DCReplicator: shardTailLoop) polls the write-ahead
--                       log through a ShardWALTailer, records the lag (ReplicationLagMonitor), gathers
--                       the entries into batches (MessageBatcher), numbers them
--                       (SequenceNumberGenerator), frames them (DirectMQProtocol) and sends them over
--                       a DirectMQClient. On the target's side an IdempotencyChecker and its
--                       SequenceNumberTracker sort out duplicates, and a ReplicationApplier writes the
--                       messages of each shard in order, holding back those that come early.
--   Sharding, SmartGraph   Enterprise/Sharding/ShardingStrategyEE and
--                       Enterprise/VocBase/SmartGraphSchema: where a key lives, and which documents and
--                       edges a SmartGraph takes. The tailer hashes by the same function.
--   Cluster             Enterprise/Cluster: SatelliteDistribution, whose registry and replication factor
--                       SmartGraph and the tailer consult, and ReadFromFollower.
--   MinHash             Enterprise/Aql/MinHashFunctions: signatures of sets of strings.
--   RocksDbEngine       Enterprise/RocksDBEngine: the index build that goes on beside writes
--                       (RocksDBBuilderIndexEE over ChangelogBuffer, IndexBuilderThreadPool and
--                       KeySpacePartitioner), and EncryptionProvider, the encryption of files at rest.
--   TopK                Enterprise/IResearch/IResearchOptimizeTopK: the score heap, the iterator that
--                       skips by it and the optimizer rule that switches it on.
--   Maskings            Enterprise/Maskings: what a dump shows in place of a field's value.
--   Audit               Enterprise/Audit: the audit log, written by a thread of its own.
--   Auth                Enterprise/Auth: authentication and roles from an LDAP directory.
--
-- Files and code:
--   Prelude and its children: tests on numbers, lists by index, byte strings, associative containers,
--     decimal numerals, signed numbers.
--   Replication.Protocol   DirectMQProtocol (frameMessage, parseFrame, buildAck, parseAck)
--   Replication.Sequence   SequenceNumberGenerator, SequenceNumberTracker, IdempotencyChecker,
--                          DirectMQMessage; `nextSequence` is its two atomic actions, interleaved freely
--                          in Sequence.Interleaving
--   Replication.Applier    ReplicationApplier (applyMessage, applyBatch, drainBuffered)
--   Replication.Tailing    ShardWALTailer and the interface IWALIterator
--   Replication.Batching   MessageBatcher
--   Replication.Lag        ReplicationLagMonitor
--   Replication.Replicator DC2DCReplicator (validateOptions, shardTailLoop)
--   Replication.Transport  ConnectionRetryPolicy, TlsConnectionConfig, DirectMQClient
--   Replication.Checkpoint ReplicationCheckpoint (save, load)
--   Replication.Lifecycle  DC2DCReplicator (prepare, configureWALTailing, start, stop, joinTailThreads,
--                          the destructor)
--   RocksDbEngine.Encryption   EncryptionProvider and its streams: EVP and RAND_bytes are parameters
--   RocksDbEngine.Builder  RocksDBBuilderIndexEE; Builder.Lifecycle.Race takes bufferWrite and
--                          applyChangelog apart into interleaved steps
--   Audit, Audit.Feature   AuditLogger (drainLoop as phases) and AuditFeature; Audit.Concurrent has the
--                          writer among the threads that log and stop
--   Auth, Auth.Config      LDAPHandler over the LDAPFunctions, and LDAPConfig
--   Sharding, SmartGraph, Cluster.Satellites, Cluster.FollowerReads, MinHash, Maskings, TopK,
--   RocksDbEngine.Changelog, RocksDbEngine.ThreadPool, RocksDbEngine.Partitioner   the sources named in
--                          each file
--
-- How the code is read. A function's or a class's names are kept, in snake_case. State is passed and
-- returned; a method that holds its mutex for its whole body is one step. Where threads meet between
-- such bodies the steps are explicit: the generator's atomic additions, the value that each pass of
-- `poll` reads from the stop flag, the whole of IndexBuilderThreadPool, the two sides of the index
-- build's changelog, and the audit log's writer, logging threads and stop, each a step relation. Words of
-- 32 and 64 bits wrap as `% 2 ^ w` where the source can reach the end. A std::string is the list of its
-- bytes; a std::unordered_map is a list of pairs, in which writing replaces, and a std::unordered_set a
-- list. Error messages are constructors that keep the strings written into them. Callbacks are
-- parameters: the applier's write may fail as it likes, the collection resolver and the log iterator
-- are arbitrary, and the iterator's one assumption is the log that it reads (Tailing.Reads) or, for a
-- restart, that `seek` goes where IWALIterator.h says it does (Resume.Seeks).
--
-- Loops and fuel. Loops over containers are structural. The applier's `drain_loop` has the buffer's
-- size as fuel, and each pass takes one message out of it. `poll` takes fuel, and the number of log entries left is
-- enough: each pass examines one. `retry_loop` has one pass more than the policy's retries. The tail
-- loop runs for a given number of passes, as many as the thread finds `_tailing` set. The checkpoint's
-- parser has one pass more than the text has bytes, since each pass takes a key off the text.
-- `stop` of the audit log runs the writer for `steps_left`, which a step with the flag down lowers.
-- The scan of an index range has fuel: its iterator is a parameter that need not end.
--
-- Not modelled: doubles (the lag is kept as whole microseconds, the similarity as a pair of numbers,
-- the fractions of the partitioner exactly and scores as places on their scale), the random jitter (a
-- parameter), the sleeps, the clock and the host's name (parameters), the configuration file of the
-- maskings, the freeing of LDAP messages, and the modules that PROJECT.json lists as not modelled:
-- mostly calls of OpenSSL, rclone, the file system and the server's own classes.
mod Prelude
pub mod Audit
pub mod Auth
pub mod Replication
pub mod Sharding
pub mod SmartGraph
pub mod TopK
pub mod Cluster
pub mod Maskings
pub mod MinHash
pub mod RocksDbEngine
