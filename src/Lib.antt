-- ===== src/Lib.antt =====
-- A model of Ortus, a Go service that answers point queries over spatial sources: GeoPackages and
-- raster bundles that it loads from an object storage.
--
-- The program. A registry holds the loaded sources, each with the adapter that opened it. The sync
-- service and the initial load fill the registry from the storage, a query service asks its sources
-- through their adapters, for one point or a batch, and a health service says when the program may
-- get requests. A watcher of the data directory reports the files that were created, changed or
-- deleted, and the registry loads or unloads them. A gazetteer says in which administrative units and
-- on which islands a point lies, how high it is, and where it lies from the next known place. The
-- HTTP side limits the requests of each client address, checks their origin, and answers batches of
-- points with a gazetteer block for each. The GeoPackage adapter merges the fragments of a feature, and
-- the raster adapter keeps a number of tiles open. A ring buffer keeps the last traces of what the program
-- did, for diagnosis.
--
-- Which module models what:
--   Common: numbers, lists, texts as bytes, association lists, sorting, time, floats, and the decimal
--     numbers of strconv.
--   Domain.Types, Domain.Errors, Domain.Coordinates: internal/domain/source.go, metadata.go,
--     feature.go, coordinate.go and the errors of errors.go that the services return.
--   Domain.Paths: internal/domain/sourceid.go and safeLocalPath of
--     internal/application/registry.go, with the path functions of Go's library. Domain.Stems and
--     Domain.World hold the lemmas.
--   Registry.Types, Registry.Load, Registry.Sync: internal/application/registry.go. LoadSource is
--     load_source, with load_fresh and register for its later parts; UnloadSource is unload_source;
--     LoadAll is load_all and Sync is sync. Registry.History has NewSourceRegistry and any sequence
--     of operations. The other modules of Registry hold the lemmas.
--   Services.Query: internal/application/query.go. Services.Batch:
--     internal/application/query_batch.go. Services.Health: internal/application/health.go.
--     Services.Trigger: internal/application/sync_service.go.
--   Http.RateLimit, Http.ClientIp: internal/adapters/http/ratelimit.go.
--   Http.Batch: internal/adapters/http/batch.go and batch_render.go, with toWGS84 of gazetteer.go and
--     handleQueryError of handlers.go. handleQueryBatch is handle_query_batch on a decoded body,
--     resolveBatchInputs is resolve_batch_inputs, buildBatchItems is build_items and
--     streamBatchItems is stream_batch_items. Http.Cors:
--     internal/adapters/http/cors.go.
--   Http.Query: the point queries of internal/adapters/http/handlers.go, with attachGazetteer of
--     enrich.go and gazetteerSections of gazetteer.go; Http.Query.Endpoint: handleGazetteer.
--   Geopackage.Dedup: dedupFeaturesByProperties of internal/adapters/geopackage/repository.go and what
--     it calls. Raster.Tileset: internal/adapters/raster/tileset.go but for the names of tiles and the
--     opening of files, with the readers that queryTiled of repository.go makes.
--   Config: Validate of internal/config/config.go.
--   Watch: internal/adapters/watcher/watcher.go, whose two loops are the two kinds of Step, and
--     handleFileEvent of internal/app/app.go.
--   Gazetteer.Types, Gazetteer.Service: the ports spatialindex.go and elevation.go of
--     internal/ports/output, and internal/application/gazetteer/service.go: Locate is locate, Islands
--     is islands and Elevation is sample_elevation. Gazetteer.Bearing: bearing.go beside it.
--     Gazetteer.Manifests: manifest.go beside it. Gazetteer.Compass: internal/domain/compass.go.
--     Gazetteer.Places: the classes of internal/domain/gazetteer.go and the places read from features.
--   Gazetteer.Salience: RankedSalience of internal/application/gazetteer/salience.go and the places
--     and the policy of internal/domain/gazetteer.go.
--   Telemetry.Types, Telemetry.Ring, Telemetry.Capture, Telemetry.Query, Telemetry.Fold:
--     internal/adapters/telemetry/ringbuffer.go and internal/ports/input/telemetry.go. OnStart is
--     on_start, OnEnd is on_end, finalizeLocked is finalize.
--   Fixtures and the Tests modules: concrete runs.
--
-- How the code is modelled. A Go map is an association list, whose order is that of the iteration.
-- An operation takes a state and returns it changed; operations that hold a lock run one at a time,
-- and those of the registry do so too. The adapters, the storage, the file system and the clock are
-- the records SpatialSource and Environment, over a state of the outside world that any call may
-- change; the answers of queries depend on that state and do not change it. The layers that an
-- adapter shares with the registry by a pointer are given to its Prepare and taken back. An error is
-- a value of Result or an Option, and a panic, a nil dereference or an index out of range, is the
-- outer none of an Option. Times are nanoseconds since Go's zero time and a duration is limited as
-- an int64; a duration in milliseconds is kept in microseconds, as no arithmetic on floats is
-- modelled; its conversion back to nanoseconds, which rounds, is the parameter to_ns. A float is its bit pattern with Go's comparisons. Texts are bytes, and lower case is that
-- of ASCII; words are split at the ASCII spaces. The arithmetic, parsing and printing of floats is the
-- record Arithmetic. The spatial index, the elevation sampler and the salience strategy are records
-- and functions whose answers do not change during a call, decoded YAML and JSON are records, and
-- the flags of fsnotify are the record Flags. An open file is the number of its handle. The time at which a batch of gazetteer lookups is
-- cancelled is the test goes_on, and the test writes tells which lines of a stream reach the client. The watcher calls the handler of each event in a goroutine; the
-- events are those that the handler is called for, in the order of the calls. Trace and span ids are their hexadecimal texts. The copies that the ring buffer hands
-- out are the values themselves. Token buckets, the parsing of addresses and networks and the
-- transformer of coordinates are parameters.
--
-- All functions are structurally recursive and there is no bound on the sizes. Only the printing of
-- a decimal number takes fuel, which is the number itself: it has no more digits than its value. The
-- counter of evictions wraps at 64 bits.
--
-- Not modelled: CompositeSalience, whose score needs a logarithm, and the exposure of the gazetteer,
-- which computes slopes in floats (internal/application/gazetteer); the SQL of the GeoPackage adapter,
-- the decoding of rasters and the cache of extracted bundles, the storage and MCP adapters and the
-- rest of HTTP (internal/adapters), the reading of the configuration (internal/config), the rest of
-- the wiring (internal/app, cmd) and the vendored third_party/gocog. Logs, metrics but for the gauges
-- of the registry, and spans are left out of the operations, as are the time that a query takes and
-- the interleaving of two operations on the registry.
pub mod Common
pub mod Config
pub mod Domain
pub mod Fixtures
pub mod Gazetteer
pub mod Geopackage
pub mod Http
pub mod Raster
pub mod Registry
pub mod Services
pub mod Telemetry
pub mod Watch
