-- ===== src/Lib.antt =====
-- BuildPal distributes compilations: a manager hands the work of a build to servers, and hooks in
-- the compiler processes replace what a compiler does on the local machine.
--
-- Parts of the program
--   Extensions/Client sends a compiler's command line to the manager and does what it answers.
--     `Client` models client.cpp. Client/Bytes and Client/Message are the framing of the messages:
--     `add_part`, `send` and `get_message` are MsgSender::addPart, MsgSender::send and
--     MsgReceiver::getMessage. Client/Environment is the class Environment with getPath and
--     findOnPath. Client/Requests is the loop of distributedCompile, which reads requests with
--     `get_message` and replies with `add_part` and `send`; Client/Distributed is the whole
--     function, with the connection and the first message in front of the loop and the result
--     behind it.
--   Extensions/Client also hooks the processes that start compilers. `HookProcess` models
--     hookProcess.cpp: HookProcess/Compilers and HookProcess/Params createProcessA and
--     createProcessW, which ask `is_compiler` whether a program is a registered compiler;
--     HookProcess/Compilation what stands for the process of a compiler then,
--     DistributedCompilation with its worker and the hooks of GetExitCodeProcess, CloseHandle and
--     TerminateProcess; HookProcess/Transfer the hand-over of the compilers to a process that is
--     started. The hand-over follows an injection (below). Each part of a function that holds the
--     mutex is one step (`Step`, `Move`), and a `Reach` is any order of such steps. The worker
--     calls what Client/Distributed models.
--   Extensions/HeaderScanner finds the headers that a source file includes, with the preprocessor
--     of Clang. `HeaderScanner` models it: HeaderScanner/Macros the macro state (macroState_.hpp)
--     and the list of used macros, HeaderScanner/CacheTree and HeaderScanner/Cache the cache of
--     preprocessed headers (headerCache_.hpp, headerCache_.cpp), HeaderScanner/Context the classes
--     HeaderCtx, HeaderScanner/Conditions ConditionStack, HeaderScanner/Tracker with Tracker/Files
--     HeaderTracker (headerTracker_.hpp, headerTracker_.cpp), HeaderScanner/Callbacks what the
--     callbacks of Clang call of it (headerScanner_.cpp), HeaderScanner/Content the cache of file
--     contents (contentCache_.cpp), HeaderScanner/Entry how a file is read for it
--     (contentEntry_.cpp). HeaderScanner/IncludeFinder and HeaderScanner/Naive are the naive
--     preprocessor (naivePreprocessor_.cpp), which is tried before the real one: how the directives
--     of a file are found and cached, and the run over its stack of files. HeaderScanner/Driver is
--     scanHeaders with its context and its search path (headerScanner_.hpp, headerScanner_.cpp);
--     HeaderScanner/Cache/Text is the text that stands for a cached header, and
--     HeaderScanner/Cache/Invalidate what a changed file does to the cache. The tracker gets the
--     callbacks of the preprocessor, keeps a context for each open header, looks a header up in the
--     cache before it is read (`replace_file`), and puts it there when it has been read
--     (`leave_header`).
--   Extensions/MapFiles redirects the files that a process opens. `MapFiles` models mapFiles.cpp:
--     MapFiles/Paths and MapFiles/Mapping the classes FileMapping and GlobalFileMapping,
--     MapFiles/Hooks the replacements of the NT functions, MapFiles/Maps the exported functions,
--     MapFiles/Wire the transfer of the mappings to a child process through a pipe.
--     MapFiles/Bindings is the Python module over them (pydll.cpp): a `Session` has the objects
--     that live, and a `Step` of MapFiles/Bindings/Steps is one call from Python.
--   Extensions/Common is what both kinds of hooks stand on. `Common` models it: Common/Memory the
--     memory of another process with AllocProcessMemory, Common/Injection injectLibrary
--     (dllInject.cpp), Common/Loader the loader that runs in the other process (loader.cpp), and
--     Common/ApiHooks the table of hooked functions (apiHooks.hpp). `inject_library` writes what
--     `run_dll` reads; the function that `run_dll` calls is Initialize of MapFiles/Wire or of
--     HookProcess/Transfer.
--   `Prelude` has what the parts share: lists over the native numbers, maps as association lists,
--     and texts as lists of code units. `Tests` applies the theorems to concrete inputs.
--
-- State is passed explicitly: an operation takes the state as a record and returns the new one. A
-- pointer becomes a number (a cache entry) or a path (a node of a cache tree). A loop runs on fuel
-- where its end depends on what is read: the fuel of `scan` is one more than the size of the body,
-- and each round consumes four bytes; the fuel of `initialize` must exceed the number of
-- directories that were written; that of `serve` must exceed the length of the stream. That of
-- `initialize_loop` is the number of buffers that are read, and one more; that of the loops of the
-- checksum is the length of the data. That of the naive preprocessor must exceed the number of the
-- tokens of all files, with one more for each file (`fresh_work`).
--
-- Code that is not in the repository is a parameter: `PathApi` for the path functions of Windows,
-- `PipeApi` for anonymous pipes and `ProcessApi` for the memory and the registers of a process,
-- with their documented behaviour as laws; `HookApi` for MinHook; `PathOps` for LLVM's paths; for
-- Clang, what it finds, what it tells the tracker, and the tokens of its raw lexer; `System` and
-- `FileSystem` for the functions of Windows and of LLVM; processes that run and files that exist.
-- The client is built with 32 and with 64 bits, so the number of values of `std::size_t` is a
-- parameter of its messages (`word`). The assertions on what a text or a path is like are compiled;
-- one that fails ends in no result. References that Python counts are modelled where pydll.cpp takes
-- them itself (`tuple_refs`).
--
-- A process that a library is injected into is modelled up to the call of ResumeThread, and what
-- its loader does then; a pointer is written as the bytes of a number, the least significant first.
--
-- Not modelled: the Python half (manager, server), the MinHook library, the bindings between C++
-- and Python but those of pydll.cpp, the parsing of Python arguments, the option parser of
-- ArgParser, the flyweights, which stand for their texts, and the locks of the caches. The object
-- of a compilation that is closed while its worker runs is gone; what the worker does then is
-- undefined, and only counted (`orphans`).
pub mod Prelude
pub mod Client
pub mod MapFiles
pub mod Common
pub mod HeaderScanner
pub mod HookProcess
pub mod Tests
