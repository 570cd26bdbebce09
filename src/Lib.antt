-- ===== src/Lib.antt =====
-- Amp Rack 6 for PC: a guitar effects rack. JACK or PortAudio calls the audio thread once for each
-- block of samples; the block goes through the chain of effect plugins, and is handed over to a
-- second thread that records it.
--
-- How the parts interact. `Rack` and the plugin widgets (rack.cc, pluginui.cpp) change the list
-- `Engine::activePlugins` (engine.cc); `Engine::buildPluginChain` flattens the plugins that are
-- switched on into the arrays of `Processor` (process.cc), which the audio thread reads. After the
-- chain has run, `Processor::process` calls `LockFreeQueueManager::process` (LockFreeQueue.cpp),
-- which copies input and output into one of 128 spare buffers and queues its address on a
-- `LockFreeQueue` (LockFreeQueue.h). `LockFreeQueueManager::main` takes the addresses out on
-- another thread and calls the registered functions, `FileWriter::disk_write` (FileWriter.cpp)
-- among them.
--
-- Which file models what, with paths from the repository's root:
--   Base             what the other files share: the native numbers, Booleans, lists, options
--   Queue            LockFreeQueue.h, the template LockFreeQueue, a function for each member;
--                    Queue/Interleave cuts `push` and `pop` where the other thread can run
--   Manager          LockFreeQueue.cpp and AudioBuffer.h: LockFreeQueueManager over a heap of
--                    buffers, its thread's inner loop as `serve`
--   Plugin           Plugin.h: the fields of a loaded plugin that the engine reads
--   Plugin/Ports     Plugin.cpp: the loop over the ports of a plugin, and what any such loop finds;
--                    Plugin/Lilv and Plugin/Ladspa are the constructors for LV2 and LADSPA plugins,
--                    Plugin/Json is `load`, for a plugin that a JSON file describes
--   Library          SharedLibrary.h and SharedLibrary.cpp: loading a plugin library, counting its
--                    plugins, and whether a plugin can stand in the rack
--   Control          PluginControl.h and PluginControl.cpp: the range and the default of a control
--   Urid             Plugin.cpp: `simple_map`, the numbers for URIs; Urid/Lists are the tables of
--                    lv2_ext.cpp
--   Options          Plugin.cpp: `options_get` and `options_set`
--   Processor        process.h and process.cc: the audio thread's arrays and its loop
--   Engine           engine.cc: the rack, `buildPluginChain`, moving plugins up and down
--   Driver           jack.h, jack.cc, and the start of the engine in engine.cc: the JACK client
--   Rack             rack.cc: the indices that the widgets keep, and stepping through presets;
--                    Rack/Adding is the addition of plugins by name,
--                    Rack/Chooser is the dialog with its search, categories and favorites,
--                    Rack/Buttons are the buttons of a widget in pluginui.cpp, and
--                    Rack/Buttons/Sessions the sequences of all operations on the rack
--   Atom             atom.h, atom.cpp, Plugin.cpp's setAtomPortValue and check_notify, and engine.cc's
--                    set_atom_port and check_notify: file names as messages to LV2 plugins
--   Presets          presets.cc: the pages of the preset library; Presets/Exchange is the presets
--                    as files, with export, import and favorites
--   Decimal          `std::to_string`, for the keys of plugins and presets
--   Sound            snd.h, snd.cc, Plugin.cpp's setBuffer and engine.cc's set_plugin_audio_file and
--                    set_plugin_file, over blocks of memory that end with a call or with `free`
--   Patch            engine.cc and pluginui.cpp: the controls of a preset as a text, and its way back
--   Files            util.cc: JSON files, copies of files, and the listing of a directory
--   Storage          engine.cc, util.cc, rack.cc: a preset that `savePreset` writes to a file, and
--                    that `Rack::load_preset` reads again, over Patch, Files, Rack/Adding and, for
--                    the files of the plugins, Sound
--   Recorder         FileWriter.h and FileWriter.cpp: the recording of WAV, Opus and MP3 files;
--                    Recorder/Pipeline is `disk_write` as the engine registers it with the Manager,
--                    Recorder/Controls are engine.cc's `startRecording` and `stopRecording`
-- A module's child modules hold the theorems about it, and its Tests the concrete runs.
--
-- The state is passed explicitly. A pointer is an address or an `Option`, with `none` for null; a
-- function that can dereference a bad pointer or run past an array returns `none` there. A sample
-- is a value of an arbitrary type, and arithmetic on controls is that of a record of operations,
-- so no floating point rounding is assumed. `int` counters that stay small are natural numbers; the
-- queue's counters wrap at a power of two as the index type does.
--
-- Bounds and fuel. `Manager.serve` and `Manager.quit` take fuel for the `while (pop)` loop; one
-- round more than blocks wait is enough, which is what the theorem about `serve` asks for, and at
-- most 128 blocks can wait. `Library.count_plugins` takes fuel for the rounds of a loop that ends
-- when the library gives no descriptor: one more than it has. `Decimal.digits` gets as fuel one more
-- than the number, whose digits are fewer. The other loops are recursion on a count or a list.
--
-- Libraries are parameters: liblilv (`Processor.Lilv`), libsndfile, libopusenc and LAME
-- (`Recorder.Codecs`), what liblilv tells of a port (`Plugin.Lilv.LilvPort`), the URIs of the LV2
-- headers (`Options.OptionUris`), the machine's `float` (`Control.Floats`), a JACK server as its
-- answers to one start (`Driver.Jack`), the dynamic linker (`Library.Linker`), the JSON library
-- (`Files.Json`, `Storage.Library`, `Presets.Exchange.PresetJson`), what `load` gets from outside
-- (`Plugin.Json.Host`), the LV2 forge (`Atom.Forge`), and texts of numbers and sliders
-- (`Patch.Toolkit`). Not modelled: the GTK user interface, the network code, the PortAudio driver,
-- and the copies of other projects' code in this repository (json.hpp, httplib.h, lilv, zix, the
-- LV2 and LADSPA headers, the toolkit files of a DAW). Log calls have no counterpart. JNI thread
-- attachment does nothing on a PC.
--
-- What the program does not reach. Nothing calls `FileWriter::setFileType`, so a recording of the
-- program is an MP3 file, and WAV and Opus are states of the class only. Nothing calls
-- `Engine::addPlugin_`, so every plugin of the rack is made by liblilv and has no ports for file
-- messages; the theorems about Atom are about the plugins of the type LV2.
pub mod Atom
pub mod Base
pub mod Control
pub mod Decimal
pub mod Driver
pub mod Engine
pub mod Files
pub mod Library
pub mod Manager
pub mod Options
pub mod Patch
pub mod Plugin
pub mod Presets
pub mod Processor
pub mod Queue
pub mod Rack
pub mod Recorder
pub mod Sound
pub mod Storage
pub mod Urid
