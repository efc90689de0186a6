-- ===== src/Lib.antt =====
-- Caneo reads CAN frames from SocketCAN, from a remote instance or from an MCAP file, decodes them with
-- DBC files, shows them in a terminal or graphical interface, logs them, and sends messages of its own.
-- This library models the parts that keep state and decide, and proves what makes them correct.
--
-- Frame models src/frame. `CanFrame` and `DataFrameSet` are the classes of the same names; times are
-- integers (ticks of the clock), a `std::map` is the ordered association list of Common.OrderedMap.
-- `update` is DataFrameSet::update; `delta` is the difference of the last two times of an ID.
--
-- Dbc holds what the program uses of the library dbcppp, as records of what its accessors return. How
-- a signal is read from and written to bytes is a parameter there, and theorems on bytes name what
-- they need of it. Send models src/send/SendModel.cpp on top of it: `new_model` is the constructor with
-- both of its exceptions, `set_value` and `encode` the methods. An index out of range, undefined in
-- the source and excluded by its callers, changes nothing and encodes nothing.
--
-- Playback models src/playback/PlaybackController.hpp. Each method holds the mutex while it works, so
-- each is one step on the state; `may_go_on` is the condition that `wait_for_any_running` waits for.
-- `toggle_message` gives nothing where the source writes before the vector.
--
-- Action models src/action/Action.cpp: a timer is the expiry that it waits for, if it waits. Action.Handler
-- models src/action/ActionHandler.cpp: `Task` is a closure that is posted to the asio thread, or a wait
-- that completes, `perform` runs one. Any order of the tasks is a list of them. An action has a `ptr`,
-- its address, which a wait's handler captures; `perform` gives nothing where a handler uses an action
-- that was destroyed. An encode function is a value that a parameter maps to bytes, so that it writes
-- to the SendModel is not modelled.
--
-- Tui models src/gui/TuiDataFrameSet.cpp but for its drawing. `Tui` is the state; `posts` are the calls
-- made on the action handler and `snapshot` what that returns at present. `Tui.Handle.handle` is the
-- handler of `run`, which asks the modes in the source's order: Tui.Edit has the editing modes,
-- Tui.Periodic the dialogue for periodic and sin actions, Tui.Levels the second and third level,
-- Tui.Tabs the shortcuts, the first level and the tabs. A cursor is a natural number, since the source
-- guards every decrement. Tui.Session has the constructor (`new_tui`) and the runs of the interface: any
-- sequence of events, frames, model outputs and new snapshots.
--
-- Screen models the drawing, `render` and the functions that it calls, in lines 784-1365 of the same file.
-- FTXUI is a library, so an `Element` is the tree of the calls that make it. Screen.Trace has the trace with
-- its search, Screen.Sending the send tab, Screen.Actions the list of actions and the signals of one,
-- Screen.Replay the playback and the model tab, Screen.Views the tab bar, the title and the choice of the
-- view. How a `double` is printed is part of the parameter of Common.Ieee; `{:<20}` counts bytes.
--
-- SendWindow and ActionsWindow model the windows of src/gui of these names. Dear ImGui draws and tells in the
-- same call what the user did, so a frame is a function of the state and of what the calls of ImGui return, and
-- gives nothing where the source reads behind the end of a vector. Titles, colours and sizes are left out.
--
-- Mcap models src/logger/McapLogger.cpp: the MCAP writer is the list of the calls made on it, the last
-- one first, and the protobuf library the parameter of Proto. Topic has the names of its channels and
-- the functions of src/logger/McapReader.cpp that read them, Scan its scans of a file. Logs models src/logger/LogController.cpp
-- and src/modes/log_frame.hpp, with the registry of descriptors as a parameter.
--
-- Decode models src/decoder on top of Dbc: `new_decoder` and `decode` are the constructor and the method of
-- DbcPppWrapper, `add_interface` and `decode_frame` those of DecoderRegistry, with their exceptions as values.
-- A map whose order nothing sees, a `std::unordered_map`, is an ordered association list as well.
--
-- Stream models src/grpc/CanStreamService.cpp: a `Subscriber` with the place of its Subscribe thread, which
-- `advance` moves from one access to shared memory to the next; Stream.Steps interleaves these moves with the
-- turns of the loops of broadcast and shutdown. RemoteLog has the calls that control the log, and
-- src/grpc/RemoteLogControl.cpp behind them. Bus has what src/socket/SocketCAN.cpp, src/socket/SocketGrpc.cpp
-- and the Send call make of a frame; what the kernel gives to recvmsg is a list of results. Bus.Open has the system
-- calls of the constructor of SocketCAN, with the answers of the kernel and of Boost.Asio as an argument,
-- Bus.Reader the thread of SocketGrpc that connects again: a `Turn` is one access to what it shares with `stop`.
--
-- Player models McapReader::play: `turn` is one message, `play_from` the loop. A `Moment` holds what the thread
-- meets while it works on one message, the clocks and the controller's state at each of its accesses, so every
-- interleaving with the threads that pause, filter and stop is a list of moments. A wait that never ends has no
-- moment. The target of a sleep is a count in 64 bits, which wraps around where C++ leaves the overflow undefined.
-- Store and Model are src/model: the SignalStore, and the ModelEngine with Lua as a parameter.
--
-- ProtoLog models src/proto: the type and field names that are made of a DBC file, and the values that a decoded
-- frame gives them. What the protobuf library accepts and writes is a parameter.
--
-- Live models src/modes/run_live.cpp: `new_parts` makes the decoders, registries and sets of a configuration,
-- `receive` is the callback that takes a frame from a socket through all of these parts.
--
-- Preset models src/action/ActionPreset.cpp: an `Entry` is what the loader asks a YAML node for, and `load_entries`
-- the loop over the entries with the SendModel that they share, with the actions that were added before an exception.
--
-- Config models src/config/Config.cpp with the nodes of yaml-cpp as what the reader asks them for, Config.AppConfig
-- the command line of src/config/AppConfig.cpp. Startup models src/setup/InterfaceSetup.cpp, with the kernel and
-- the commands of `ip` as a parameter, and src/main.cpp up to the mode that it enters.
--
-- Graph models what src/gui/GraphWindow.cpp and src/gui/ModelWindow.cpp keep for their drawing, Graph.Preset the
-- graphs that src/gui/GraphPreset.cpp loads.
--
-- Numerals has std::stol, std::stoul and std::format as their standard describes them, Common.Ieee the
-- floating-point operations as a parameter of which nothing is assumed. A loop is recursion on a list,
-- so nothing runs on fuel but `digits_rev`, which is given 64 digits, enough for 64 bits in any base.
--
-- Not modelled: the drawing of graphs, models and traces in src/gui, with the loop of Gui; the gRPC, MCAP and
-- protobuf libraries; and the callbacks of src/modes/run_tui.cpp, src/modes/run_gui.cpp and
-- src/modes/run_playback.cpp, which wire the same parts as the live mode.
pub mod Action
pub mod ActionsWindow
pub mod Bus
pub mod Common
pub mod Config
pub mod Dbc
pub mod Decode
pub mod Frame
pub mod Graph
pub mod Live
pub mod Logs
pub mod Mcap
pub mod Model
pub mod Numerals
pub mod Playback
pub mod Player
pub mod Preset
pub mod Proto
pub mod ProtoLog
pub mod RemoteLog
pub mod Scan
pub mod Screen
pub mod Send
pub mod SendWindow
pub mod Startup
pub mod Store
pub mod Stream
pub mod Topic
pub mod Tui
