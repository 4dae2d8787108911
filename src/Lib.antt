-- ===== src/Lib.antt =====
-- Verification of the operating-systems project: the memory server UMV, the kernel's schedulers, the
-- CPUs, and the messages between them.
--
-- The parts. The UMV (umv/) owns one block of memory and a table of segments. The kernel (kernel/) and
-- the CPUs (CPU/) are its clients, through the requests of msgUMV/. The kernel keeps the programs
-- in queues and hands them to the CPUs, one thread for each CPU, in the messages of
-- protocolo_kernel_cpu/.
--
-- The files. Paths are from the repository's root, below its directory src/.
--   Base: shared names, Boolean tests, lists over the native numbers, and the four bytes of a word.
--   Commons: the functions of commons/collections/list.h and commons/string.h that are called, as
--     parameters with what their headers document; `sequences` is an instance.
--   Memoria: the block of memory, reads, memcpy, and the byte-wise move of the compaction.
--   Mensajes: msgUMV/serializar.c and umv/serializado/serializado.c. Pedidos has the requests and how
--     the server reads them, Respuestas the answers and how the clients read them.
--   Umv: umv/umvMain.c. Busqueda has buscarEspacioWF, buscarEspacioFF and buscarEspacio, Compactacion
--     fnCompactar, Operaciones solicitarBytes, almacenarBytes, generarSegmento, eliminarSegmentos
--     and generarDireccionLogica. Acceso, Creacion and Borrado have their theorems. Conexiones is the
--     thread of one client in umv/sockets/sockets.c, seen by that client in Conexiones/Cliente;
--     Conexiones/Mantiene carries what the operations keep over a round.
--     Umv/Consola has the commands of umv/consola/consola.c, Palabras the words of a line, Listados
--     the dump; Arranque the start in umv/umvMain.c and the rounds of all the threads of the server,
--     in any order.
--   Protocolo: protocolo_kernel_cpu/protocolo.c, from the CPU, from the kernel, and the PCB.
--   Kernel: kernelMain.h and pcp/PCP.h. Planificador has the functions of
--     kernel/src/pcp/PlanificadorPCP_th.c, Carga those of kernel/src/plp/PlanificadorPLP.c (two of
--     them in Planificador), Conexion the reaction to each message in
--     kernel/src/soporte/ConexionConCPU.c. Configuracion has inicializador of
--     kernel/src/kernelMain.c, Sistema nuevo_programa and the arrival of programs there, with the
--     steps of all the threads of the kernel in any order of whole steps; below it, Sumas, Cuenta,
--     Movidas, Salidas, Turno, Cargada and Entrada follow an address through the queues, Invariante,
--     Llegada, Pasos and Hilos are about a step of each thread, Inicio and Valores about the
--     configuration, Perdida about a wait without a semaphore, and Alcanzable about the states that
--     are reached. Planificador/Despertar is about the programs that a semaphore blocks and wakes,
--     Carrera about a signal that comes into a wait.
--   Cpu: CPU/src/cpuMain2.c and CPU/src/funcionesAnsisop/funcionesAnsisop.c. Memoria has
--     definirVariable, obtenerPosicionVariable, dereferenciar, asignar and actualizarContexto, Llamadas
--     the calls and returns, Nucleo the primitives that ask the kernel, Rafaga the taking of a
--     program, the fetch of its lines, the loop of a burst and the main loop. Vistas and Pila are the
--     memory server as the CPU uses it. Contexto, Renombre and Marco are about the variables of a
--     context; Retorno, Locales, Subrutina and Funcion about a call; Cambio about a program that goes from one
--     CPU to another, Codigo about the fetch, Quantum about the burst, Desborde about a full stack, and
--     Acuerdo about the CPU together with Kernel/Conexion.
--   Ejemplos: the theorems at concrete inputs.
--
-- How state is modelled. Umv is a record of the server's global variables, and an operation takes
-- it and returns the new one with the answer's bytes. Kernel is a record of the kernel's globals;
-- a program is an address in the store `programas`, so that a queue and the thread that serves the
-- program share its PCB. What C leaves undefined is `none`. A function of the server that holds
-- its mutex is one step (also generarSegmento, which gives it up around the compaction: no other
-- client comes in there in the model); in the kernel a `sem_wait` with the removal that follows it
-- is one step, not possible while the value is 0.
--
-- Cpu is a record of the globals of a CPU, with the memory server at the other end of its socket, the
-- messages that it has sent to the kernel and those that it will be sent.
--
-- What a client can see of the server is its list of views (program, size, logical address and
-- bytes), without the physical addresses: the operations are specified on the views.
--
-- Bounds and fuel. Words are numbers below 2 ^ 32, with sums and differences modulo 2 ^ 32 where the
-- code adds u_int32_t. The block is below 2 ^ 31 bytes. The searches walk over the free bytes on a
-- fuel of CANT_MEM, which is the most that `posicion` can grow: a walk takes one byte in each step
-- and stops at CANT_MEM. The loop of a burst is a recursion on what is left of the quantum, the walk
-- over the labels one on the length of their block, of which a round takes five bytes or more. The
-- `int` of a semaphore is an integer without bound.
--
-- The threads of the kernel are a step relation: a step is what a thread does from one `sem_wait`
-- or message to the next. The model takes it as one, though the kernel's mutexes only cover each
-- change of a list: fnLock and fnUnlock change and test the value of a semaphore outside any
-- mutex, so what is shown of all orders of the steps leaves out the orders in which a signal comes
-- into a wait. Planificador/Carrera has `fnLock` in its two halves, and what such a signal does.
-- The CPUs send their program's own number. The memory server may be in any state when the long-
-- term planner asks it. `malloc` gives a program an address that no other has, in the model its
-- number; the address of a shared variable is its place in the configuration. Numbers of programs
-- past the largest `int` have no step.
--
-- Not modelled: sockets, logs, the kernel's console, the files of configuration (their values are
-- given), the delays, the freeing of memory, the signal handler of a CPU, the client programa/, and
-- the copies of so-commons and of the parser. The interpreter of a line, the search for a label and
-- the reading of a program's text, which are the parser's, are parameters, and so are the text
-- functions that the console calls.
pub mod Base
pub mod Memoria
pub mod Commons
pub mod Mensajes
pub mod Umv
pub mod Protocolo
pub mod Kernel
pub mod Cpu
pub mod Ejemplos
