-- ===== src/Lib.antt =====
-- A verification library of HaruQuantCBot, a trading platform whose Python layer downloads, validates,
-- stores and versions market data and configures itself.
--
-- The program's parts and how they meet. A provider (src/hqt/data/providers) fetches bars or ticks,
-- with its calls wrapped by a retry decorator. The validation pipeline (src/hqt/data/validation) checks
-- them, the storage manager (src/hqt/data/storage) writes them in partitions and registers each
-- file in a catalog, and the versioning layer (src/hqt/data/versioning) hashes the files, records
-- which backtest used which version, tells later whether the backtest can be reproduced, and writes
-- manifests of the catalog. Under all of it lies src/hqt/foundation: configuration with its secrets,
-- logging, exceptions, databases, utilities.
--
-- Which file models which part:
--
--   * Prelude holds the shared helpers: the exceptions as values (Error, Result, with `coded n` for
--     an error code of the platform), Python's dicts as association lists in insertion order
--     (Prelude/Dict), texts as lists of code points (Prelude/Text), sorting (Prelude/Sort), integers
--     over the native numbers (Prelude/Int), and lists compared by how often each element stands in
--     them (Prelude/Counts).
--   * Retry: with_retry of data/providers/factory.py. The wrapped call answers for each attempt by its
--     number; delays are any type with a product and a minimum, and a Run lists what was slept.
--   * LogFilters: LevelRangeFilter, KeywordFilter and ThrottleFilter of foundation/logging/filters.py.
--     The throttle's dict of times is a Dict, and the clock an argument of each call.
--   * Timeframe: the enum of data/models/bar.py.
--   * Catalog: DataCatalog of data/storage/catalog.py. The SQLite table is the list of its rows, each
--     method the function of its statements; Machine stands for paths, file sizes and the clock.
--   * Hasher: data/versioning/hasher.py. A hash object is the bytes fed to it, and hexdigest a
--     function of them, so nothing is assumed of SHA-256; Disk stands for the files.
--   * Lineage: DataLineage of data/versioning/lineage.py, a table like the catalog's, checked against
--     the files through Hasher.
--   * Manifest: DataManifest of data/versioning/manifest.py, which reads Catalog and checks files
--     through Hasher. A Folder is the dict of the manifest documents on the disk. Manifest itself has
--     generate and update, Manifest/Verification verify, and Manifest/Difference diff.
--   * Secrets: SecretsManager of foundation/config/secrets.py, over a keyring, a cipher and a disk that
--     are arguments.
--   * Config: ConfigManager of foundation/config/manager.py. Config has the nested dicts and the merge
--     (also deep_merge of foundation/utils/helpers.py), Config/Placeholders the regular expressions as
--     scanners, Config/Manager the manager with a heap of configuration objects, since load and
--     reload_hot share them.
--   * Partition: PartitionStrategy of data/storage/manager.py, with strftime and int as they are used
--     there; a datetime is its year, its month and its microsecond in the month.
--   * Validation: ValidationPipeline and the counts of ValidationReport, of data/validation, over checks
--     and frames that are arguments.
--   * Checks: the seven detectors of data/validation/checks.py (Prices, Moves, Times, Volumes), the
--     pipeline with its standard checks (Standard), and DataCleaner of cleaning.py (Cleaning). A frame
--     is its columns and its list of rows, and prices belong to a type with the operations of floats.
--   * Store: the interface of data/storage/base.py as a record, and its two implementations
--     parquet_store.py and hdf5_store.py over a tree of directories (Files, Listing, Parquet, Hdf5).
--   * Storage: delete of StorageManager in data/storage/manager.py, over Catalog; Storage/Downloads has
--     download_and_store and compact, which use a Store, Catalog, Partition and a pipeline.
--   * Providers: the interface of data/providers/base.py and the functions of factory.py; Providers/Mt5
--     the class of mt5_provider.py with the calls of the terminal as a log, and Providers/Dukascopy that
--     of dukascopy_provider.py, with its hours, its attempts and its binary decoder.
--   * Dates and Inputs: foundation/utils/datetime_utils.py and validation_utils.py. Datetimes are
--     microseconds before or after 1970, volumes are numbers of units of a power of ten that holds
--     the volume, the step and the limits.
--   * Helpers: foundation/utils/helpers.py, over the nested dicts of Config.
--
-- Bounds and fuel. The retry loop takes the number of rounds that range(max_retries + 1) has. The loop
-- that reads a file in chunks takes the file's length and one as fuel, which is enough since each
-- round but the last reads a byte; the theorems on file hashes ask for a chunk size that is not zero.
-- Decimal digits are printed with the number itself as fuel. The loop over trading days has the number
-- of days and one as fuel, and the list of hours the number of hours that begin before the end, which
-- the theorems on both show to be enough. All other recursions are structural.
-- Python's integers have no bound, and the model's are natural numbers where the source's are not
-- negative; a truncated subtraction stands only where the source's difference is not negative.
--
-- Parameters, for code that is not the repository's: the package keyring (its documented laws are the
-- record KeyringLaws, met by a concrete keyring in Secrets/Tests), Fernet with JSON (Restores), SHA-256
-- (no law), files, clocks and the environment, TOML parsing, validation by Pydantic, floats with their
-- order, the sorting and filling of pandas, the file formats of pyarrow and h5py, LZMA, the answers of
-- the MetaTrader terminal and of the Dukascopy server, time zones, and regular expressions given by a
-- caller.
--
-- Not modelled: the fields and validators of Pydantic models (bars, ticks, symbol specifications, settings),
-- NumPy types, the formulas on floats of calculation_utils.py, SQLAlchemy sessions, tables and
-- migrations with the copies of database files, the set-up of logging and its redaction, exception
-- classes but for their codes, and the command lines. In the parts above, compute_dataframe_hash,
-- ModuleFilter, the listings and statistics of the catalog, the tables and HTML of a validation report,
-- and progress callbacks are left out, and JSON documents are taken to hold every key that the class
-- writes.
pub mod Prelude
pub mod Retry
pub mod LogFilters
pub mod Timeframe
pub mod Dates
pub mod Inputs
pub mod Helpers
pub mod Catalog
pub mod Hasher
pub mod Lineage
pub mod Manifest
pub mod Secrets
pub mod Config
pub mod Partition
pub mod Store
pub mod Storage
pub mod Validation
pub mod Checks
pub mod Providers
