-- ===== src/Lib.antt =====
-- Verification of the eBUS adapter firmware esp-arduino-ebus.
--
-- The firmware has two builds. With an external ebusd it bridges the bus to network clients: the
-- directories src/bridge and include/bridge. With EBUS_INTERNAL it runs its own eBUS controller, with
-- commands, MQTT, cron rules and a web interface.
--
-- Bridge.BusState      include/bridge/bus_state.hpp: BusState::data, syn, error, reset.
-- Bridge.Arbitration   src/bridge/arbitration.cpp: Arbitration::start and data. Reads of the timer and
--                      of the receive buffer are arguments, writes and waits a list of effects.
-- Bridge.BusType       src/bridge/bus_type.cpp: BusType::receive with its counters and its queue, and
--                      (Slot) the globals that hold the client that bids for the bus.
-- Bridge.Client        src/bridge/client.cpp: the enhanced protocol (Codec), readCmd, processCmd, the
--                      input loops, delivery to the clients, and the slots of the clients. Sockets
--                      and the UART driver are the record Net; what is relied on is IsStream
--                      and, for the end of the enhanced loop, IsFinite.
-- Bridge.System        the steps of the receiving task and of the client task, in any order.
--
-- Config               src/config: the configuration by its flat keys, AppConfig::reset, isValid,
--                      mergeFlatJson (Merge) and collectDrift (Drift), AppConfigLoader::load and save
--                      (Loader), what ConfigManager reads, writes (Nvs) and serves (Served), and of src/app/app.cpp
--                      loadConfig and applyFlatConfigJson (Apply). A key is its constructor, the JSON
--                      reader's tokens are a list, and the nvs library is the record Nvs with its laws
--                      IsNvs. The ebus library's FixedString cuts a text to the room it has. A session
--                      is the static nvs_ready with the flash; a start has it false again.
-- Device.StringPool    include/system/string_pool.hpp: StringPool::intern and lookup. Pointers into the
--                      buffer are the texts that they point at.
-- Device.Logger        src/system/logger.cpp: the ring that Logger::log writes and Logger::fetchLogs
--                      reads. Its build constant max_entries is an argument.
-- App.Cron             src/app/cron.cpp: matchSinglePart and validateSinglePart with parseInt, and
--                      (Fields) split, matchField and validateFieldExpression, and (Schedule)
--                      matchSchedule. Texts are lists of bytes; std::from_chars, find and substr
--                      are written out, and push_back of the ebus library's StaticVector and
--                      assign of its FixedString are arguments. Rules: validateRule and Cron::tick,
--                      which look up App.CommandManager; the record Host holds what they call.
-- App.CommandManager   src/app/command_manager.cpp and Command::setWriteCmd of src/app/command.cpp: the
--                      commands by key (Store), the limits of their fields (Overrides), the write
--                      telegrams (WriteCmds), the next one to poll (Polling) and updateData
--                      (Updates). Keys are numbers into Device.StringPool; floats are any type;
--                      the ebus library's StaticVector is a record with its laws (Vector), its
--                      matches, range and assign the record Telegrams. A callback's call is an
--                      event. The commands file and the JSON output are not modelled.
-- App.Command          src/app/command.cpp: the fields of a command and getVectorFromValue with
--                      getVectorFromDouble and getVectorFromString. Floats, doubles and data types are any
--                      types; the ebus library's functions on them are the record Codec. Rules.Values
--                      of App.Cron puts it in for validateRule and Cron::tick.
-- App.Mqtt             src/app/mqtt.cpp: Mqtt::enqueueOutgoing and the receive of the task. A call is
--                      cut at each use of the queue, and the parts of the calls of several tasks are
--                      steps in any order (History). The FreeRTOS queue is the record Queue, with its
--                      laws, and updateMaxAtomic an argument.
-- Device.Upgrade       src/system/upgrade_manager.cpp: handleUpload, and (Download) handleHttpUpgrade.
--                      What comes over the network, the timer's readings and the answers of esp_ota
--                      are lists and arguments; what is done is a list of effects, which Flash reads.
--                      Of an `int` that only matters above 0 the model keeps its positive part.
-- Device.EspOta        src/system/esp_ota_manager.cpp: begin, one turn of the task, handleInvitation and
--                      performTransfer, in the same way; Effects reads the list of effects.
-- Network.Hostname     include/network/detail/wifi.hpp: trimCopy and buildHostname.
-- Network.DnsServer    src/network/dns_server.cpp: processNextRequest on the receive buffer, start and
--                      stop with the socket they hold.
--
-- The two input loops take fuel; for the enhanced one a number above that of the bytes that the client
-- still sends is enough (Bridge.Client.Ending). So does the walk over the labels of a DNS name, one more than the bytes received.
-- The loop of handleUpload goes through a list of rounds; how many are enough is in
-- Device.Upgrade.Ending; for performTransfer they are as many as bytes are announced, not counting
-- those in which it only waits. Counters of events are numbers that do not wrap. Log output by the other parts, the set-up of
-- peripherals, sockets and tasks are not modelled, nor the polling of the software serial port, nor
-- the loss of messages when the bridge's FreeRTOS queue is full.
pub mod App
pub mod Base
pub mod Bridge
pub mod Config
pub mod Device
pub mod Network
