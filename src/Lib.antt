-- ===== src/Lib.antt =====
-- Search and retrieval system: the write path from PostgreSQL's change events to the two stores, and
-- the read path from an HTTP request to ranked sources or an answer.
--
-- The parts. Debezium publishes row changes to Kafka. The normalizer service (cmd/normalizer)
-- converts each event to a canonical document and routes it to the topic of its tier, or to the
-- dead letters. The indexer (cmd/indexer) runs one lane for each tier: it buffers documents and
-- applies a batch to OpenSearch and Qdrant, with an idempotency guard that both lanes share.
-- The query service (cmd/query) searches both stores under the tenant's filter, fuses and reranks
-- the hits, and answers questions from an exact cache, a semantic cache or a language model.
--
-- The files, and the code that each models:
--   - Contract, Contract/Validation: internal/contract/doc.go, `CanonicalDoc` and `Validate`.
--   - Idempotency: internal/idempotency/guard.go. Watermark is about one guard, Workers about
--     concurrent users of it, as a step relation in which each locked method is one step.
--   - Normalizer, Normalizer/Classification: internal/normalizer/normalizer.go, `FromDebezium`.
--   - NormalizerService, NormalizerService/Routing: the loop of cmd/normalizer/main.go.
--   - OpenSearch, OpenSearch/Bulk: internal/opensearch/opensearch.go, `Bulk`.
--   - Indexer: cmd/indexer/main.go, `apply`, with `Upsert` and `DeleteByDocIDs` of
--     internal/qdrant/qdrant.go. Picks and Newest are about what is applied, Adds and Calls about the calls
--     of other processes, Steps and Commits about the guard, Settled about documents,
--     Replay about batches that come again.
--   - IndexerLane: cmd/indexer/main.go, `runLane` and `toDLQ`; Handling and Accounting are about what
--     becomes of a record, Latency about how long it waits.
--   - Access, Access/Boundary: `authTenant` and `scopeFilters` of cmd/query/main.go.
--   - Cache, Cache/Key: internal/cache/cache.go; Cache/Store with Generations and
--     Fresh: the same over time, as a step relation. SemCache: internal/semcache/semcache.go.
--   - Search: the reads of internal/opensearch/opensearch.go and internal/qdrant/qdrant.go.
--   - Fusion, Fusion/Determined, Fusion/Complete: `RRF` of internal/retrieve/fusion.go. Fusion/Mmr,
--     Fusion/Mmr/Selects: `MMR` and `cosine` of the same file.
--   - Sources, Server: the types of cmd/query/main.go, with those of internal/rag/rag.go.
--   - Retrieval, Retrieval/Ranking, Retrieval/Provenance: `retrieve` of cmd/query/main.go.
--   - Query, Query/Scoped, Query/Isolation: `handleSearch` and `handleAsk` of cmd/query/main.go;
--     Query/Grounded is about an answer that a provider generates.
--   - RateLimiter, RateLimiter/Buckets: cmd/query/middleware.go.
--   - Rag/Words, Rag/Words/Sentences: sentences and tokens of internal/rag/rag.go and faithfulness.go.
--   - Rag/Citations, Rag/Citations/Known: internal/rag/cite.go.
--   - Rag/Extractive with Picks, Cites and Grounded: `ExtractiveProvider` and `BuildPrompt` of
--     internal/rag/rag.go.
--   - Rag/Faithfulness, Rag/Faithfulness/Support: internal/rag/faithfulness.go.
--   - Rag/Provider with Selected, Judged and Cited: internal/rag/litellm.go, and `NewProvider`.
--   - Http: what net/http exchanges. MlClient: internal/mlclient/mlclient.go. MlClient/Tei: tei.go and
--     `FromEnv`; Reranked is about the order and the scores, Retrieved about `retrieve` with this client.
--   - LoadGen with Batches and Statements, LoadGen/Limiter, LoadGen/Limiter/Grants: cmd/loadgen/main.go.
--   - Config, Config/Reads: internal/config/config.go. Kafka, Kafka/Brokers: internal/kafka/kafka.go.
--   - Setup, Setup/Again: `EnsureIndex`, `EnsureCollection` and `Ensure` of internal/opensearch,
--     internal/qdrant and internal/semcache.
--   - Prelude: lists, integers, strings and maps. Tests: concrete inputs.
--
-- How it is modelled. Stateful code takes and returns its state. `apply` is a monad over the guard
-- and the history of calls that it makes; the other processes answer a call from the history
-- before it, so they may fail at any moment. A Go map is an association list without repeated
-- keys, and the order in which `range` visits it is a parameter, `Ranges`, assumed to be a
-- permutation. An int64 is an unbounded integer: no modelled code computes with one but the commit
-- time and the ages of a batch, of a bucket and of an allowance. All loops are structural but one,
-- so no fuel is needed there; a service's endless loop is a relation or a list of polls. The loop
-- of a backfill has fuel, which its theorem bounds; a wait of the load generator's limiter goes
-- through the times that its rounds read. Regular expressions are scanners over text. JSON, the
-- sending of HTTP requests, SHA-1, the clock and the embedder's vectors are parameters. A float64
-- is an abstract type with the operations used, whose laws are a hypothesis of the theorem that
-- needs them, and so is what json.Marshal refuses to write. The two lanes of the indexer share its
-- guard: a run of one lane has whole batches of the other between its rounds. The handlers return
-- the calls that they make.
--
-- Not modelled: logging, metrics, traces, health checks and wiring, which nothing else reads; the
-- workers of the load generator and the Python service.
pub mod Prelude
pub mod Contract
pub mod Idempotency
pub mod Normalizer
pub mod NormalizerService
pub mod OpenSearch
pub mod Indexer
pub mod IndexerLane
pub mod Fusion
pub mod Access
pub mod Cache
pub mod Search
pub mod SemCache
pub mod Sources
pub mod Server
pub mod Retrieval
pub mod Query
pub mod RateLimiter
pub mod Rag
pub mod LoadGen
pub mod Http
pub mod MlClient
pub mod Config
pub mod Kafka
pub mod Setup
pub mod Tests
