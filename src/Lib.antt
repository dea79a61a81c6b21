-- ===== src/Lib.antt =====
-- A model of the driver of the WorkCentre 3119 scanner, and the theorems that make it correct.
--
-- The driver runs one scan job at a time over a USB transport: `run_prepared_job_observed_with_health`
-- (src/scan.rs) asks for the scanner's capabilities, lets the caller prepare a request, reserves the
-- scanner, sets the window, reads and decodes bands until the last one, hands each to the caller, and
-- cleans up. The WIA layer (src/wia.rs) makes the request from the settings of a flatbed item; the
-- bitmap encoder (src/bitmap.rs) writes the bands as a BMP file, also into a COM stream
-- (src/com_stream.rs); the session slot (src/com_server/session.rs) keeps the one USB session that the
-- callbacks share. The minidriver (src/com_server/minidrv) resolves what an application writes into
-- settings that its catalogue of properties accepts.
--
-- Files and code:
-- - Prelude: shared names, lists and integers over the native numbers, bytes, bits and chunks.
-- - Errors: `std::io::Error` as src/scan.rs uses it, `HostCancelled`, `DiagnosticError`, `ScanStage`.
-- - Protocol: src/protocol.rs, `Capabilities::parse` and `resolutions`.
-- - Scan/Window, Scan/Reply, Scan/Band: the wire formats of src/scan.rs: `ScanRequest::command`,
--   `response_status`, `BandInfo::parse` and `BandInfo::decode`.
-- - Scan/Diagnostics: `ScanTuning` and `ScanDiagnostics`.
-- - Scan/Machine: the transport, the clock, the cancel flag and `sleep` as a parameter over a world, and
--   the state of a job. The ghost fields `sent` and `delivered` record what was sent and accepted.
-- - Scan/Exchange: `exchange`, `checkpoint`, `ready`, `ready_with_attempt` and `finish`.
-- - Scan/Drain: `read_image_band`.
-- - Scan/Job: `run_prepared_job_observed_with_health`, cut into the parts that its comments name.
-- - Stateful, Writer: methods that return an `io::Result`; `std::io::Write + Seek` as a parameter, and
--   `write_bounded` of src/bitmap.rs.
-- - Bitmap: `BmpEncoder` of src/bitmap.rs. Bitmap/Encoder has the methods, Bitmap/Contents the file
--   that they should leave, Bitmap/Pushed and Bitmap/Push the invariant of `push`,
--   Bitmap/Encoding a whole image, Bitmap/Reading the file format without the encoder, Bitmap/Files
--   that the files are in it, Bitmap/Limits and Bitmap/Images what is accepted.
-- - ComStream: src/com_stream.rs, `ComOutputStream` as such a writer over an IStream.
-- - Slot: `SessionSlot` with its guards. Each critical section is a step; Slot/Exclusive interleaves
--   the steps of any number of threads.
-- - Device: `identify` and `Device::readiness` of src/lib.rs. Usb: the checks of src/usb.rs.
-- - Wia: `FlatbedSettings::to_request`, `Tone` and `toned_sink` of src/wia.rs.
-- - Minidrv: src/com_server/minidrv/properties. Minidrv/Geometry and Minidrv/Catalog: catalog.rs;
--   Minidrv/Axis and Minidrv/Validation: validation.rs; Minidrv/ItemSize joins it with src/bitmap.rs.
-- - Tests: a scanner that answers from a list of replies, and every theorem at concrete inputs.
--
-- What the source only calls is a parameter: `Machine` for the transport, the clock and the cancel
-- flag, `Caller` for the closures, `equal_path` for CompareStringOrdinal. ClockLaws and BufferLaws state
-- what the standard library documents: the clock does not go back, `sleep` lasts as long as asked, and
-- a buffer keeps its length. CallerLaws says that the clock runs on in the closures. FileLaws states
-- what successful calls of a `Write + Seek` do to its bytes, AlwaysWrites that its calls succeed,
-- StreamLaws what the SDK documents of IStream. A panic of a closure that the code catches is a value.
--
-- Fuel: a wait for a busy scanner has one unit of fuel for each attempt. Each attempt but the last
-- sleeps, so one more than the nanoseconds until the deadline, and another, are enough. A band is read
-- with two rounds more than its bytes: each round reads at least one byte, or notes the one empty read
-- that is allowed. The bands of a job have 4097 rounds, since the 4097th band is refused. An answer
-- `stuck` marks used up fuel; it is no result of the program. The loop of `offset_step` has 101 rounds:
-- its second number begins at 100 and falls in each.
--
-- Not modelled: the wording of messages, the timing profile, the calls of Windows, COM and WinUSB, the
-- WIA transfer, the still-image interface, and of the minidriver all but the catalogue's updates and
-- the resolution of settings.
pub mod Prelude
pub mod Errors
pub mod Protocol
pub mod Scan
pub mod Stateful
pub mod Writer
pub mod ComStream
pub mod Bitmap
pub mod Slot
pub mod Device
pub mod Usb
pub mod Wia
pub mod Minidrv
pub mod Tests
