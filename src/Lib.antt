-- ===== src/Lib.antt =====
-- The ATM monitoring agent and its dashboard.
--
-- The agent watches the electronic journal of an ATM. A scan (agent/services/parser_service.py) reads
-- what was appended, cuts it into blocks and events (agent/parsers), and stores each event in a
-- transaction of its own with its cassette snapshots and the live status of the ATM
-- (agent/services/event_processor_service.py, agent/repositories). A circuit breaker stops a scan's
-- retries, settings are read through a cache, a watchdog restarts dead threads and a cleanup caps the
-- log directory. A file monitor asks for the scans under a lock, and a heartbeat stamps the live status
-- in a transaction of its own. The dashboard keeps a table of devices (routers/devices.py), pings them
-- (services/ping_service.py) and changes the settings of cameras through their video recorders
-- (services/hikvision_service.py), with a file of simulated settings where a recorder cannot be reached.
--
-- Files, and the code that they model:
--   Prelude          shared names and lemmas
--   CircuitBreaker   agent/utils/circuit_breaker.py, `can_execute`, `record_success`, `record_failure`
--   Metrics          agent/utils/metrics.py, the methods that record; those that report in Reports
--   ParserModels     agent/models/parser_models.py
--   Database         agent/database/models.py, the tables that are written
--   TextOps          the string methods and regular expression pieces that the parsers use; Template is
--                    the replacement of `re.sub`
--   FileUtils        agent/utils/file_utils.py, `read_appended_lines`
--   EventPatterns    agent/parsers/event_patterns.py
--   SupervisorParser agent/parsers/supervisor_parser.py, `parse_block`
--   CassetteParser   agent/parsers/cassette_parser.py, `parse_block`; Table is the cash total table,
--                    Counts the cash counts
--   EjParser         agent/parsers/ej_parser.py: `_group_blocks`, with the header in Header, and
--                    `parse_lines` in Parse, its primary event in Primary
--   Repositories     agent/repositories
--   LiveStatus       `_apply_status_updates` of agent/services/event_processor_service.py
--   Processor        `process_result` of agent/services/event_processor_service.py, the rows and the
--                    snapshots of an event in Storing, the order of a batch in Order
--   Settings         agent/settings.py, `load_settings`
--   HealthMonitor    agent/services/health_monitor_service.py, `_check_services`
--   Cleanup          agent/services/cleanup_service.py, `_enforce_disk_cap`; `execute_cleanup` in Pass
--   Ping             services/ping_service.py, `run_ping_cmd`, `ping_device_async`
--   Scan             `process_file` of agent/services/parser_service.py, and
--                    agent/repositories/agent_repository.py
--   FileMonitor      `start`, `stop` and `trigger_scan` of agent/services/file_monitor_service.py
--   Heartbeat        `_send_heartbeat` of agent/services/heartbeat_service.py
--   Models           models.py, the table of devices, and schemas.py, a device
--   Recorder         services/hikvision_service.py: the elements of its XML in Element, the settings of a
--                    stream in Stream, mock_resolutions.json in Mock, `extract_channel_id` in Channel,
--                    the two requests for the settings of a stream in Resolution; the check of a
--                    recorder in Check, what its answers say of disks and cameras in Disks; the
--                    synchronisation of its clock in Clock
--   Devices          routers/devices.py: the table in Devices, `get_dashboard` in Dashboard, the
--                    settings of streams in Streams, the handlers for the clock and the pictures of a
--                    recorder in Requests
--   Examples         runs on small inputs, one for each result
-- The modules below a component hold its proofs and are named for what they prove.
--
-- How the code is modelled. Objects are records, and a method gives the changed record with what it
-- returns. The database is a record of tables, each a list of rows; a transaction is a session with
-- the tables it sees and those that a rollback leaves. Whatever the clock, the server, other
-- sessions and the file system do is an argument (`EventEnv`, `Attempt`, `Reply`), so that a
-- theorem holds for all of it. SHA-256 is a parameter. A datetime is a number that orders as
-- datetimes do, a measured duration, which is only compared, one that orders as durations do, an
-- amount is a decimal number before the rounding of `float`, and a text is its list of code points.
-- Regular expressions are functions written for each pattern, with the case folding, the digits and
-- the word characters of ASCII.
--
-- Loops are structural recursion. Some have fuel: the reading of lines, `re.sub` and `re.finditer`
-- get the length of the text since each round takes a character or more, the digits of a number get
-- the number and one more, and for the retries of a scan the failure threshold of the breaker is
-- enough. The code's numbers are Python's, which have no bound, so there is no wrap-around;
-- subtractions are of a smaller number from a larger one, or stop at 0 where the code takes the
-- maximum with 0.
--
-- Not modelled: the averages of the metrics, which are rounded; sleeping, timers, logging and
-- diagnostics; the observer of the file system; the connection pool; the dashboard's login, alerts
-- and settings, its start and its seed data; the reading of a recorder's clock and of its recording
-- range; the web client and the packages it vendors. These are input and output or glue, code of
-- others, or left for later.
pub mod Prelude
pub mod CircuitBreaker
pub mod Metrics
pub mod ParserModels
pub mod Database
pub mod TextOps
pub mod FileUtils
pub mod EventPatterns
pub mod SupervisorParser
pub mod CassetteParser
pub mod EjParser
pub mod Repositories
pub mod LiveStatus
pub mod Processor
pub mod Settings
pub mod FileMonitor
pub mod Heartbeat
pub mod HealthMonitor
pub mod Cleanup
pub mod Ping
pub mod Models
pub mod Recorder
pub mod Devices
pub mod Scan
mod Examples
