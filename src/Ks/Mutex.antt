-- ===== src/Ks/Mutex.antt =====
-- The mutexes of the processes: kernel_scheduler/src/ks_mutex.h and ks_mutex.c.
-- `lista_mutexes` is explicit state. A function holds the lock of the list or of the mutex around
-- what it reads and writes, so each call is one step; calls of several threads are a sequence of
-- steps in the order in which they take the lock. The logs are left out.
pub mod Turnos
pub mod Colas
pub mod Secuencia
pub mod Refinamiento
pub mod Avisos
pub mod Herencia
pub mod Espera
use ssoo.Common.{
  ℕ, Option, none, some, List, [], ◌∷◌, ◌++◌, Bool, true, false, Texto, strcmp, if◌then◌else◌, ℤ,
  pos, negsuc, menos_uno, int_max, int_eq, int_ltb, a_int,
}

pub record MutexWaiter : Type 0 where
  pub pid : ℕ
  pub prioridad : ℤ

-- `owner_pid` is -1 when the mutex is free; `cola_espera` is in order of arrival.
pub record KsMutex : Type 0 where
  pub nombre : Texto
  pub owner_pid : ℤ
  pub owner_prioridad_original : ℤ
  pub cola_espera : List MutexWaiter

abbrev pub mutexes_init : List KsMutex
mutexes_init = []

unfoldable pub buscar_mutex : List KsMutex → Texto → Option KsMutex
buscar_mutex [] nombre = none
buscar_mutex (m ∷ ms) nombre = if strcmp m.nombre nombre then some m else buscar_mutex ms nombre

-- The list after writes through the pointer that buscar_mutex returned for this name.
unfoldable pub escribir_mutex : List KsMutex → Texto → KsMutex → List KsMutex
escribir_mutex [] nombre nuevo = []
escribir_mutex (m ∷ ms) nombre nuevo =
    if strcmp m.nombre nombre then nuevo ∷ ms else m ∷ escribir_mutex ms nombre nuevo

unfoldable pub mutex_ks_create : List KsMutex → Texto → List KsMutex × ℤ
mutex_ks_create ms nombre = elim (buscar_mutex ms nombre) [
  | some m ↦ (ms, menos_uno)
  | none ↦ (
    ms
        ++ record {
          nombre = nombre;
          owner_pid = menos_uno;
          owner_prioridad_original = menos_uno;
          cola_espera = [];
        }
          ∷ [],
    pos 0,
  )
]

-- The list, the result and the two output parameters of mutex_ks_lock.
pub record SalidaLock : Type 0 where
  pub mutexes : List KsMutex
  pub resultado : ℤ
  pub owner_a_elevar : ℤ
  pub nueva_prioridad_owner : ℤ

unfoldable pub mutex_ks_lock : List KsMutex → ℕ → ℤ → Texto → SalidaLock
mutex_ks_lock ms pid prioridad nombre = elim (buscar_mutex ms nombre) [
  | none ↦ record {
    mutexes = ms;
    resultado = menos_uno;
    owner_a_elevar = menos_uno;
    nueva_prioridad_owner = menos_uno;
  }
  | some m ↦
      if int_eq m.owner_pid menos_uno
      then record {
        mutexes =
            escribir_mutex ms nombre
              (record m { owner_pid = a_int pid; owner_prioridad_original = prioridad });
        resultado = pos 0;
        owner_a_elevar = menos_uno;
        nueva_prioridad_owner = menos_uno;
      }
      else record {
        mutexes = escribir_mutex ms nombre (record m {
          cola_espera = m.cola_espera ++ record { pid = pid; prioridad = prioridad } ∷ [];
        });
        resultado = pos 1;
        owner_a_elevar = m.owner_pid;
        nueva_prioridad_owner = prioridad;
      }
]

-- The list, the result and the output parameter of mutex_ks_unlock.
pub record SalidaUnlock : Type 0 where
  pub mutexes : List KsMutex
  pub resultado : ℤ
  pub prioridad_restaurar : ℤ

-- The hand-over of a mutex that its owner leaves: to the first that waits, or to nobody.
unfoldable pub ceder : KsMutex → KsMutex × ℤ
ceder m = elim m.cola_espera [
  | [] ↦ (record m { owner_pid = menos_uno; owner_prioridad_original = menos_uno }, menos_uno)
  | siguiente ∷ resto ↦ (
    record m {
      owner_pid = a_int siguiente.pid;
      owner_prioridad_original = siguiente.prioridad;
      cola_espera = resto;
    },
    a_int siguiente.pid,
  )
]

unfoldable pub mutex_ks_unlock : List KsMutex → ℕ → Texto → SalidaUnlock
mutex_ks_unlock ms pid nombre = elim (buscar_mutex ms nombre) [
  | none ↦ record { mutexes = ms; resultado = menos_uno; prioridad_restaurar = menos_uno }
  | some m ↦
      if int_eq m.owner_pid (a_int pid)
      then record {
        mutexes = escribir_mutex ms nombre (ceder m).0;
        resultado = (ceder m).1;
        prioridad_restaurar = m.owner_prioridad_original;
      }
      else record { mutexes = ms; resultado = menos_uno; prioridad_restaurar = menos_uno }
]

-- The inner loop of mutex_ks_prioridad_heredada, over those that wait for one mutex.
pub mejor_en_cola : List MutexWaiter → ℤ → ℤ
mejor_en_cola [] mejor = mejor
mejor_en_cola (w ∷ ws) mejor =
    mejor_en_cola ws (if int_ltb w.prioridad mejor then w.prioridad else mejor)

-- Its outer loop, over the mutexes.
pub mejor_en_mutexes : List KsMutex → ℕ → ℤ → ℤ
mejor_en_mutexes [] pid mejor = mejor
mejor_en_mutexes (m ∷ ms) pid mejor =
    mejor_en_mutexes ms pid
      (if int_eq m.owner_pid (a_int pid) then mejor_en_cola m.cola_espera mejor else mejor)

unfoldable pub mutex_ks_prioridad_heredada : List KsMutex → ℕ → ℤ
mutex_ks_prioridad_heredada ms pid = mejor_en_mutexes ms pid int_max
