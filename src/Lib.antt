-- ===== src/Lib.antt =====
-- The verification library of Plug & Pray, a simulated computer of several programs that talk over
-- TCP: a kernel scheduler, a kernel memory, CPUs, memory sticks, a swap store and devices.
--
-- How the programs interact. The scheduler (kernel_scheduler/src) keeps the processes in queues,
-- dispatches them to CPUs and owns the mutexes. A CPU (cpu/src) decodes and executes the instructions
-- of a process on the context of utils/src/utils/sockets.h, and reaches memory through its MMU. Kernel
-- memory (kernel_memory/src/main.c) keeps the segment tables, the free ranges of the physical
-- addresses and the table of memory sticks, and reads and writes the sticks. A memory stick
-- (memory_stick/src/main.c) serves its buffer to kernel memory by local addresses and to the CPUs by
-- global ones. Swap (swap/src/main.c) serves the blocks of one file. All send the messages of
-- utils/src/utils/protocolo.h with the functions of utils/src/utils/sockets.c.
--
-- Which file models what. Definitions have the names of the C functions and types, without the prefix
-- t_ and in the spelling of this language; a helper is named for the part of a function that it models.
--   Common and Common/*: numbers, C strings, words and their bytes, int, slices of lists.
--   Utils/Protocolo, Utils/Mensaje, Utils/Contexto: utils/src/utils/protocolo.h and sockets.c;
--     Utils/Mensaje/Trama and Utils/Contexto/Formato are about the bytes on the wire.
--   MemoryStick: memory_stick/src/main.c; its children are about the requests.
--   Km/Huecos, Km/Sticks, Km/Alta, Km/Segmentos, Km/Procesos, Km/Fisica: the free ranges, the stick
--     table, the identification of a stick, the segments, the contexts with their requests, and the
--     physical memory of kernel_memory/src/main.c. Km/Procesos/Sistema is the system of its requests.
--     Km/Fisica runs against the state of MemoryStick behind each connection.
--   Km/Compactacion: the compaction, and the request that waits for it. Km/Endpoints: the answers to
--     a CPU that looks for a stick.
--   Cpu/Mmu, Cpu/Registros, Cpu/Decode, Cpu/Execute: cpu/src/cpu_mmu.c, cpu_registros.c,
--     cpu_decode.c and cpu_execute.c.
--   Cpu/MemorySticks: the table of sticks of cpu/src/cpu_memory_sticks.c. Its Entorno is what stands
--     outside of the CPU: the answers of Kernel Memory, the connections that the system opens and
--     the sticks at their other ends; Publicada fills the answers with those of Km/Endpoints.
--   Cpu/Memoria: the accesses and the memory instructions of cpu/src/cpu_memoria.c, on the same
--     sticks as Km/Fisica.
--   Ks/Mutex: kernel_scheduler/src/ks_mutex.c; Ks/Mutex/Colas is its specification, and
--     Ks/Mutex/Avisos is about the signal of inheritance that mutex_ks_lock gives its caller.
--   Ks/Planificador, Ks/Bloqueo: ready queues, preemption, dispatch and the BLOCK queue of
--     kernel_scheduler/src/main.c.
--   Ks/Memoria: the processes that wait for kernel memory, and the steps of the scheduler with them.
--   Ks/Prioridad: the effective priorities of kernel_scheduler/src/main.c, and ks_queue_search.c.
--   Swap: swap/src/main.c.
--   Ensayos/*: the properties at concrete inputs.
--
-- Conventions. A number is a natural number; uint32_t and uint8_t keep their wrap-around written out,
-- and a hypothesis says where a value fits its type. The C type int is the type of integers of
-- Common/Int; its overflow is left out. A C string is the list of its bytes without the final NUL. An
-- array with its count, and a list of so-commons, is a list; a pointer into a list is an index or the
-- value that stands there. `none` is NULL, or the result false or -1 where a comment says so. A
-- function that changes state returns the new state.
--
-- Fuel. leer_desde and escribir_desde, and leer_fragmentos and escribir_fragmentos of the CPU, run on
-- one round more than there are bytes: each round moves at least one byte. duplicar runs on one round
-- more than the id that is to fit. fusionar_rondas runs on the length of the list: each round removes an entry. The
-- theorems about them state the result itself, so they show that this fuel is enough.
--
-- Concurrency. Each function of ks_mutex.c holds the lock of the list or of the mutex around what it
-- touches, and is one step; a theorem about a sequence of calls covers every order in which threads take
-- the locks. The queue operations of the scheduler and the functions of kernel memory are steps under
-- the locks that they or their callers hold.
--
-- What is not modelled: memory for malloc is assumed; logs, delays, timers, semaphores and the opening
-- of connections are input and output. Suspension and the other requests of kernel
-- memory, the CPU cycle with its interruptions and syscalls, the moves into and out of the suspended queues and
-- the devices are not covered. The tests, the configurations and the vendored test framework of the
-- repository are not part of the programs.
pub mod Common
pub mod Utils
pub mod MemoryStick
pub mod Km
pub mod Cpu
pub mod Ks
pub mod Swap
pub mod Ensayos
