-- ===== src/Lib.antt =====
-- A model of the Java virtual machine of this repository, in C, and theorems about it.
--
-- The program. main.c loads a class (classloader.c, constantpool.c, attributes.c) and starts a thread
-- (jthread.c) whose frames the interpreter (bytecode_interpreter.c) works on, one instruction at a time,
-- by a table of handlers (opcodes.h). Objects lie in a heap (heap.c, mm.c) that the collector (gc.c)
-- moves; the code names them by slots of a table of addresses (indirection.c). Array elements are read
-- and written by object.c, monitors are the locks of jlock.c, and dataTypes.c reads descriptors.
--
-- The modules.
--   Base: lists, Boolean tests, signed integers, machine words.
--   Indirection: the slot table of indirection.c. The record is Table; allocateSlot is allocate_slot,
--     freeSlot free_slot, rebuildFreeList rebuild_free_list, and so on. The free list is the list of its
--     slots. Whether mremap and malloc succeed is an argument. An entry of a page that is not mapped
--     reads as 0 in the model.
--   Frame: stack_frame_t and its accessors in jthread.c. An access outside the arrays of the frame is
--     `none`. View and Machine.Effects relate the arrays to the operand stack as a list of entries.
--   Machine: the state of bc_interpreter_t and the monad of the handlers. Undefined behaviour is
--     `fault`. Effects, Control and Locals hold rules for the steps of handlers.
--   Classfile, Object: class names of arrays (classfile.c) and the elements of arrays (object.c).
--   Interp: the handlers of bytecode_interpreter.c under their own names, by kind, the table
--     instr_table (Opcodes), and the loop run (Returns). Statics is resolveField, resolveField0, getstatic and
--     putstatic, over the classes of the loader; Monitors is monitorenter and monitorexit over the locks, and
--     Allocation the handlers that make objects and arrays.
--   Descriptor: dataTypes.c. Grammar is the grammar that its functions are judged by.
--   Lock: jlock.c over an abstract mutex.
--   Strings: stringutils.c.
--   HashMap: hashmap.c without ht_delete and ht_entries. The array of buckets is a list of lists of nodes.
--     hash_fn, equality_fn and the comparison of numEntries with the load factor are arguments, and so is the
--     size of the block that malloc gives for a map, for which the code asks too few bytes.
--   Parser: the reads of constantpool.c as parsers of a list of bytes, parseConstantPool (Pool),
--     parseAttributes of attributes.c (Attributes), and of parseClassFile the fields, the methods and the
--     places of the fields (Class). Gives and Shrinks hold rules for such parsers. A read behind the end of
--     the file is `undefined`.
--   Loader: classloader.c. The class path is Paths, parseClassFile is File, loadClass0 with
--     loadArrayClass and loadPrimitiveClass0 is Classes. The map of classes is the HashMap with
--     str_hash_fn and str_equality_fn.
--   Heap: heap.c and ALIGN of utils.h, over a memory of bytes; Objects is mm.c, where the slot table and the
--     heap work together. The collections that run during an allocation are an argument: what they do to
--     the heap, and how often they tidy the slot table. Headers lie in the bytes of the heap.
--   Collector: the threads, requests and safe points of gc.c. savePoint is three steps, and runGC is what
--     it does before, in and after its loop.
--   Tests: runs on concrete inputs.
--
-- Conventions. A cell is a 32-bit pattern and a double cell a 64-bit pattern, both natural numbers;
-- signed32 and signed64 give the integers that they stand for. Where C leaves signed overflow
-- undefined the model wraps around, as the compiled code does; a shift by the width or more and the
-- division of the least integer by -1 are faults. The program counter is an index into the code of
-- the current method; the code is taken to begin at a multiple of 4. The arrays of a frame are taken
-- to be apart.
--
-- Bounds. run takes a bound on the number of rounds, and a larger bound changes no result. The binary
-- search of lookupswitch takes a bound on the depth of the recursion; one more than the number of pairs
-- is enough for a key that is present. The loop that counts parameters takes the length of the
-- descriptor, and each round moves on by a byte at least. instr_table takes a bound on how many wide
-- prefixes follow each other.
--
-- parseAttributes and loadClass0 take a bound on the depth of the recursion: for the first one more
-- than the number of bytes is enough, whatever a call at the bound would do, and for the second a
-- larger bound changes no result. resolveField0 takes a bound on its depth, too; for a static field,
-- which is searched in one class, 1 is enough.
--
-- Parameters. throwException, savePoint (in the interpreter), and the arithmetic of float and double
-- are arguments of the definitions that use them, and so are the handlers of fields, invocation,
-- allocation and monitors in instr_table, and loadClass and initializeClass in resolveField. In the
-- handlers of Allocation newObject and newArray are arguments, too. So is what the C library answers:
-- whether malloc, calloc, realloc and mremap succeed (by the number of bytes asked for, where a
-- program asks more than once), what mmap gives, what there is in the file system, and qsort. The
-- sizes of class_t and object_t, which hold a mutex, are arguments, and so are size and bits of a new
-- lock in the header of an object. The heap's calls of the collector are an argument, and so is
-- loadClass in newArray.
--
-- Not modelled: the handlers for fields of objects and for invocation, the start of threads, the
-- conversion of strings, and the entry of the program. The bodies of the collections are empty in the
-- source. What failing paths free is left out. Calls of the slot table, of the heap and of the lock are
-- single steps, although in the source a lock's owner is read before its mutex is taken.
mod Base
pub mod Heap
pub mod Indirection
pub mod Frame
pub mod Machine
pub mod Parser
pub mod Classfile
pub mod Collector
pub mod Object
pub mod Interp
pub mod Descriptor
pub mod Loader
pub mod Lock
pub mod Strings
pub mod HashMap
pub mod Tests
