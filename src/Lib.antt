-- ===== src/Lib.antt =====
-- ios-pilot, a tool that lets an agent see and control an iPhone. A daemon holds the connection to
-- the device and answers JSON-RPC 2.0, one request a line; the command line is a client of it.
--
-- The parts and their files. Every path is from the root of the repository.
--   Errors, Protocol   internal/protocol/errors.go and jsonrpc.go: the errors, requests and
--                      responses. A Go function that returns `(T, error)` returns a `Result`.
--   Driver             internal/driver/interfaces.go: the types and the interfaces of the drivers. An
--                      interface is a record of calls `W → Result A × W` on a world `W`.
--   Device             internal/core/device_manager.go: `DeviceManager`. Connect is cut into its
--                      stages (resolve_udid, open_tunnel, probe_wda, establish). Device.Threads has
--                      the goroutines that call it.
--   Logs               internal/core/log_manager.go: `RingBuffer` (Logs.Ring) and `LogManager`
--                      (Logs.Manager). A channel is a queue under a number. Logs.Capture has the
--                      goroutines between the syslog driver and the manager.
--   Apps, Ui, Checks   internal/core/app_manager.go, ui_controller.go and check.go: what reads the
--                      device manager and calls the drivers.
--   Screen             internal/core/screen_capture.go: the capture (Screen.Capture), the drawing on a
--                      raster (Screen.Raster) and the colour of the boxes (Screen.Color).
--   Wda                internal/driver/wda: the elements of a page source (elements.go), the HTTP
--                      client (client.go) and the session manager (session.go).
--   Config             internal/config/config.go: the defaults and the merge of a file over them.
--   Daemon             internal/daemon/state.go and server.go: the handlers, their table, and the
--                      routing of a line, with the wiring of internal/cli/root.go.
--   Client             internal/client/client.go: a call over a connection, and its response.
--   Cli                internal/cli: the parsing of arguments into requests, the connection to the
--                      daemon or its start, the printing of responses, and `Run`. A call over the
--                      wire is that of Client; Cli.Local joins a command to a daemon.
--   Lifecycle          internal/daemon/lifecycle.go: the PID file, the lock and the idle timer; the
--                      listener of internal/daemon/server.go (Lifecycle.Listener) and the process of
--                      `runDaemonServe` of internal/cli/root.go (Lifecycle.Serve), with the clients
--                      that are connected and the calls of `Stop` that wait for them.
--   Goios              internal/driver/goios: the drivers, over the calls of go-ios.
--   Json               what encoding/json does to the values that these decode.
--   Base               the names of the libraries, and lists, integers and texts.
--   Lab                a simulated phone for the tests, which stand in the modules named Tests.
--
-- How they interact: a line goes to `dispatch`, which finds the handler of its method; the handler
-- decodes its parameters, calls one manager, and the manager calls drivers. The device manager is
-- changed by Connect and Disconnect only; the other managers read it. The log manager is started by a
-- successful connect and fed by the syslog driver.
--
-- A command of the command line parses its arguments into a plan, connects to the daemon (or starts it
-- and waits), sends the request of the plan and prints the response. The process of the daemon takes
-- the lock, writes its PID file, listens, and serves until a signal.
--
-- Bounds. Natural numbers and integers are unbounded: an `int` of the program does not overflow at
-- the sizes of screens and buffers; decoding JSON into an `int` and reading a decimal number have the
-- range of 64 bits. The identifier of a request, which the daemon decodes into `any`, has its numbers
-- rounded to float64s (Json.Number, whose 971 halvings reach the largest of them); what the client
-- decodes into `any` keeps its integers, and so does the text of a number that is no integer. Fuel: the printing of numbers has the value plus one, which is enough; `poll`
-- (`log --follow`, an endless loop) takes the number of rounds that it is watched for. The waits of
-- the program that end by themselves count the rounds that are left, as the code does. A loop that
-- waits for what others do (`stream`, `wait_for_wda`, the daemon, the tunnel agent) takes a list of what
-- it meets.
--
-- A panic of Go is `none`. Requests and driver calls are done one after the other, with three
-- exceptions. Device.Threads has `Connect` and `Disconnect` in goroutines that interleave, in steps of
-- one call of a driver or one part that is locked; Logs.Capture has the goroutines that `Start` of the
-- log manager makes, in steps of one operation on their channel; and `deliver` of the log manager takes
-- the subscribers that were copied before.
--
-- Not modelled: the interleaving of the other managers' calls, sockets below the calls of the
-- network, and the interface of the syslog driver. Parameters are the calls of go-ios and of the
-- operating system, and of the libraries the text of JSON and XML, HTTP, PNG, base64, the font, the
-- parsing of durations and the table of lower case above ASCII. The texts of usage are named, not
-- written out.
pub mod Base
pub mod Errors
pub mod Driver
pub mod Json
pub mod Config
pub mod Protocol
pub mod Device
pub mod Logs
pub mod Apps
pub mod Ui
pub mod Checks
pub mod Screen
pub mod Wda
pub mod Daemon
pub mod Client
pub mod Cli
pub mod Lifecycle
pub mod Goios
pub mod Lab
