-- ===== src/Utils/Protocolo.antt =====
-- The operation codes of the network protocol: utils/src/utils/protocolo.h.
use ssoo.Common.{ℕ}

abbrev pub msg_io_identificacion : ℕ
msg_io_identificacion = 0

abbrev pub msg_cpu_identificacion : ℕ
msg_cpu_identificacion = 1

abbrev pub msg_ks_identificacion : ℕ
msg_ks_identificacion = 2

abbrev pub msg_ok : ℕ
msg_ok = 3

abbrev pub msg_error : ℕ
msg_error = 4

abbrev pub msg_memory_stick_identificacion : ℕ
msg_memory_stick_identificacion = 5

abbrev pub msg_swap_identificacion : ℕ
msg_swap_identificacion = 6

abbrev pub msg_cpu_a_kernel_memory : ℕ
msg_cpu_a_kernel_memory = 7

abbrev pub msg_io_sleep : ℕ
msg_io_sleep = 8

abbrev pub msg_io_stdout : ℕ
msg_io_stdout = 9

abbrev pub msg_io_stdin : ℕ
msg_io_stdin = 10

abbrev pub msg_io_fin : ℕ
msg_io_fin = 11

abbrev pub msg_io_stdin_datos : ℕ
msg_io_stdin_datos = 12

abbrev pub msg_mutex_create : ℕ
msg_mutex_create = 13

abbrev pub msg_mutex_lock : ℕ
msg_mutex_lock = 14

abbrev pub msg_mutex_unlock : ℕ
msg_mutex_unlock = 15

abbrev pub msg_init_proc : ℕ
msg_init_proc = 16

abbrev pub msg_despachar_proceso : ℕ
msg_despachar_proceso = 17

abbrev pub msg_devolver_proceso : ℕ
msg_devolver_proceso = 18

abbrev pub msg_interrupcion_cpu : ℕ
msg_interrupcion_cpu = 19

abbrev pub msg_fetch_instruccion : ℕ
msg_fetch_instruccion = 20

abbrev pub msg_respuesta_instruccion : ℕ
msg_respuesta_instruccion = 21

abbrev pub msg_crear_proceso : ℕ
msg_crear_proceso = 22

abbrev pub msg_guardar_contexto : ℕ
msg_guardar_contexto = 23

abbrev pub msg_restaurar_contexto : ℕ
msg_restaurar_contexto = 24

abbrev pub msg_syscall_sleep : ℕ
msg_syscall_sleep = 25

abbrev pub msg_syscall_stdout : ℕ
msg_syscall_stdout = 26

abbrev pub msg_syscall_stdin : ℕ
msg_syscall_stdin = 27

abbrev pub msg_syscall_exit : ℕ
msg_syscall_exit = 28

abbrev pub msg_memory_write : ℕ
msg_memory_write = 29

abbrev pub msg_memory_read : ℕ
msg_memory_read = 30

abbrev pub msg_memory_read_respuesta : ℕ
msg_memory_read_respuesta = 31

abbrev pub msg_mem_alloc : ℕ
msg_mem_alloc = 32

abbrev pub msg_mem_free : ℕ
msg_mem_free = 33

abbrev pub msg_crear_segmento : ℕ
msg_crear_segmento = 34

abbrev pub msg_eliminar_segmento : ℕ
msg_eliminar_segmento = 35

abbrev pub msg_leer_memoria : ℕ
msg_leer_memoria = 36

abbrev pub msg_leer_memoria_resp : ℕ
msg_leer_memoria_resp = 37

abbrev pub msg_escribir_memoria : ℕ
msg_escribir_memoria = 38

abbrev pub msg_leer_datos : ℕ
msg_leer_datos = 39

abbrev pub msg_leer_datos_resp : ℕ
msg_leer_datos_resp = 40

abbrev pub msg_escribir_datos : ℕ
msg_escribir_datos = 41

abbrev pub msg_compactar : ℕ
msg_compactar = 42

abbrev pub msg_fin_compactacion : ℕ
msg_fin_compactacion = 43

abbrev pub msg_suspender_proceso : ℕ
msg_suspender_proceso = 44

abbrev pub msg_dessuspender_proceso : ℕ
msg_dessuspender_proceso = 45

abbrev pub msg_mas_memoria : ℕ
msg_mas_memoria = 46

abbrev pub msg_bsod : ℕ
msg_bsod = 47

abbrev pub msg_swap_leer : ℕ
msg_swap_leer = 48

abbrev pub msg_swap_leer_resp : ℕ
msg_swap_leer_resp = 49

abbrev pub msg_swap_escribir : ℕ
msg_swap_escribir = 50

abbrev pub msg_tabla_segmentos : ℕ
msg_tabla_segmentos = 51

abbrev pub msg_finalizar_proceso : ℕ
msg_finalizar_proceso = 52

abbrev pub msg_solicitar_memory_stick : ℕ
msg_solicitar_memory_stick = 53

abbrev pub msg_memory_stick_endpoint : ℕ
msg_memory_stick_endpoint = 54

abbrev pub msg_solicitar_memory_stick_direccion : ℕ
msg_solicitar_memory_stick_direccion = 55

abbrev pub msg_cantidad : ℕ
msg_cantidad = 56
