-- ===== src/Lib.antt =====
-- Alkali: a compiler from the language αIR to SmartNIC programs.
--
-- The program. `ep2c` reads a source file by the lexer of include/ep2/lang/Lexer.h and the parser of
-- include/ep2/lang/Parser.h into the tree of include/ep2/lang/AST.h. MLIR passes turn it into
-- programs, which run on top of a runtime.
--
-- The files. Prelude has the shared names, Boolean tests and lists over the native numbers.
--   Lang/Token: `enum Token`, with the value of each token and the cast of a character.
--   Lang/Number: `strtod` on the text of a literal and the conversions of the double.
--   Lang/Ast, Lang/Attributes: the tree, and the map of a record's attributes.
--   Lang/Stream: what the parser sees of the lexer, a list of lexemes with the current one first,
--     and runs over it: `ok` for a result, `null` for `nullptr` after a message, `fault` for a
--     failed assertion or undefined behaviour, such as the use of a null pointer.
--   Lang/Lexer: the lexer itself. Chars has the tests on characters and the keywords, Buffer the line
--     buffer and `LexerBuffer`, Scan `getTokInput` and the functions over it, for any source of
--     characters, since `Lexer` is an abstract class; Natural and View compare two sources, Peek is
--     about the queue, Ends about the fuel, and Words to Stream about the lexemes that a file is read as.
--   Lang/Parser: the functions of `Parser`, named as there (`parseBinOpRHS` is
--     `parse_bin_op_rhs`), each loop a function of its own.
--   Lang/Ends, Lang/Fuel: runs that end, and the fuel of every parse function.
--   Lang/Printer, Lang/RoundTrip: a printer of expressions, and that the parser reads it back,
--     from lexemes and, in Spelled and Files, from a file.
--   Lang/Errors: what the parser does with errors.
--   Runtime/Buffers, Runtime/Tables: the buffers and tables of runtime-llvm/runtime.c, named as
--     there without the `__rt_`; an access outside its block is `none`. Contents and Sequence see a
--     buffer as the bytes before its offset, RoundTrip reads back what was written.
--   Runtime/Queues: the queues between the threads, with a step for each push and pop of
--     runtime-llvm/runtime.c, runtime.h and externs.c and for the return of each handler, over an
--     interface for GLib's queue.
--   Runtime/Threads, Runtime/Externs: the threads of handlers and of externs that `main` of
--     runtime-llvm/main.c creates.
--   Netronome/Copy: `bulk_memcpy` of runtime_lib/netronome_runtime/lib/nfplib.h, with each loop a
--     function of its own.
--   Netronome/Cam: `init_me_cam`, `me_cam_lookup` and `me_cam_update` of nfplib.h over an interface
--     for the CAM of a micro engine; Keys and Init are about the keys that it holds.
--   Netronome/FlowTable: the table of flows of lib/lmem_lookup.h and the functions of nfplib.h over
--     it. What an unwritten register holds, and what a function without a return statement gives,
--     are arguments.
--   Netronome/Net: `inlined_net_recv` and `inlined_net_send` of lib/extern/extern_net.h, which is
--     the list of its calls of the packet engine.
--   Netronome/Packets: `alloc_packet_buffer` of nfplib.h, over the results of its attempts and what
--     `pkt_info` holds before it is set; the widths of its bit fields are written out.
--   Netronome/Dma: the ring of descriptors of lib/extern/extern_dma.h and the rounds of
--     `handle_dma_recv` and `handle_sim_control_signal` of extern_dma.c, over an interface for rings.
--   Handlers/Names: `HandlerFullName` of include/ep2/dialect/Passes.h, with the lookups of
--     lib/ep2/HandlerDependencyAnalysis.cpp; Dependencies has that file's constructor, which makes
--     the graph, and Components its `getConnectedComponents`, each loop a function of its own: Order,
--     Sources, Placed and Complete are about the order, Connected to Subgraphs about the components.
--   Contexts: lib/ep2/ContextBufferizationAnalysis.cpp, on the orders of the components; Arguments has
--     lib/ep2/ContextToArgumentPass.cpp, on the arguments of handlers and events, and Structs the
--     structs of the contexts in lib/ep2/CollectHeaderPass.cpp; Arguments/Edges puts these behind
--     the graph and the orders of Handlers, as the compiler does.
--   Mapping/Model: the performance models of include/ep2/passes/Mapping.h, on handlers that are lists
--     of their operations, and `isTableClean` of lib/ep2/PipelineHandlerPass.cpp.
--   Mapping/Greedy: `getMapping` of lib/ep2/Passes/Mapping/PerformanceModel.cpp, each loop a function
--     of its own; a division by zero is `none`.
--   Mapping/Search: `PipelineMapper` and the explorers of Mapping.h, `tableCut` over a step search
--     that is an argument, and `optimizationLoop` of lib/ep2/Passes/Mapping/PipeliningPass.cpp;
--     Finalize has `finalize`, on the functions of the module and their units.
--
-- Fuel. Every parse function calls others with one unit less, and there are fewer than 20 calls
-- between two lexemes read, so that `module_fuel`, 20 for each lexeme and 20 more, is enough; a
-- function that gets too little returns `out_of_fuel`, which no run of `parse_module` does.
--
-- The loops of the lexer run on fuel by the length of the text, those of `bulk_memcpy` on fuel above
-- the number of bytes.
--
-- `getConnectedComponents` has a result with fuel that the theorem finds; how much that is depends on
-- the graph, since a handler may be queued several times.
--
-- Each round of the pipeline search but the last lowers the latency, so that fuel above the initial
-- one, the target and 1000, is enough.
--
-- Bounds. A number is a double: its integer part is exact below 2 ^ 53, and its conversions to
-- `int`, `int64_t` and `uint64_t` are undefined, a fault, outside the type. A size or an
-- offset of a buffer is an `int` below 2 ^ 31, and a pointer of `bulk_memcpy` has 32 bits.
--
-- What is not code of the repository: `malloc`, of which a new block's contents are a parameter and
-- which is taken to succeed, and `GAsyncQueue`, an interface with the laws of a first-in first-out
-- queue; the card's CAM, whose laws are those of the comment in nfplib.h, and its hash, buckets,
-- rings and packet pointers.
--
-- Not modelled: the freeing of blocks; messages and source locations;
-- the C++ passes over MLIR other than these; the generated programs and the copies of other projects below
-- runtime_lib.
pub mod Prelude
pub mod Contexts
pub mod Handlers
pub mod Lang
pub mod Mapping
pub mod Netronome
pub mod Runtime
