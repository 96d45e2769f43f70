-- ===== src/Km/Huecos.antt =====
-- The list of free ranges of kernel_memory/src/main.c: adding, merging, best and worst fit.
-- A pointer into the list is an index with the entry that stands there.
pub mod Cobertura
pub mod Ajuste
pub mod Fusion
use ssoo.Common.{
  ℕ, zero, suc, ◌+◌, ◌-◌, Option, none, some, List, [], ◌∷◌, ◌++◌, length, set, leb, ltb, ◌==◌,
  if◌then◌else◌, u32, Texto, codes, strcmp, Bool, ◌&&◌,
}

pub record Hueco : Type 0 where
  pub base_global : ℕ
  pub tamanio : ℕ

-- `list_add` adds at the end.
unfoldable pub agregar_hueco : ℕ → ℕ → List Hueco → List Hueco
agregar_hueco base tamanio hs = hs ++ record { base_global = base; tamanio = tamanio } ∷ []

-- `list_remove`
unfoldable pub list_remove {ℓ} : {A : Type ℓ} → List A → ℕ → List A
list_remove [] j = []
list_remove (h ∷ hs) zero = hs
list_remove (h ∷ hs) (suc j) = h ∷ list_remove hs j

-- The inner loop of `fusionar_huecos`, from index `j` on: the first range but the `i`-th that
-- starts at `fin`.
unfoldable pub buscar_contiguo : ℕ → ℕ → ℕ → List Hueco → Option (ℕ × Hueco)
buscar_contiguo fin i j [] = none
buscar_contiguo fin i j (b ∷ hs) =
    let resto = buscar_contiguo fin i (suc j) hs in
    if i == j then resto else if fin == b.base_global then some (j, b) else resto

abbrev pub con_primero :
    ℕ → Hueco → Option (ℕ × Hueco) → Option (ℕ × Hueco × ℕ × Hueco) → Option (ℕ × Hueco × ℕ × Hueco)
con_primero i a none resto = resto
con_primero i a (some (j, b)) resto = some (i, a, j, b)

-- The outer loop, from index `i` on; `todos` is the whole list.
unfoldable pub buscar_fusion : List Hueco → ℕ → List Hueco → Option (ℕ × Hueco × ℕ × Hueco)
buscar_fusion todos i [] = none
buscar_fusion todos i (a ∷ hs) =
    con_primero i a (buscar_contiguo (u32 (a.base_global + a.tamanio)) i 0 todos)
      (buscar_fusion todos (suc i) hs)

-- The change that ends one round: the second range is added to the first and removed.
unfoldable pub unir : List Hueco → ℕ × Hueco × ℕ × Hueco → List Hueco
unir hs (i, a, j, b) = list_remove (set hs i (record a { tamanio = u32 (a.tamanio + b.tamanio) })) j

-- `while (cambio)`: each round removes an entry, so the length of the list is enough fuel.
unfoldable pub fusionar_rondas : ℕ → List Hueco → List Hueco
fusionar_rondas zero hs = hs
fusionar_rondas (suc n) hs = elim (buscar_fusion hs 0 hs) [
  | none ↦ hs
  | some par ↦ fusionar_rondas n (unir hs par)
]

unfoldable pub fusionar_huecos : List Hueco → List Hueco
fusionar_huecos hs = fusionar_rondas (length hs) hs

-- One round of `best_fit`: `mejor` is the best so far.
abbrev pub mejor_de : ℕ → ℕ → Hueco → Option (ℕ × Hueco) → Option (ℕ × Hueco)
mejor_de tamanio i h none = if leb tamanio h.tamanio then some (i, h) else none
mejor_de tamanio i h (some (k, m)) =
    if leb tamanio h.tamanio && ltb h.tamanio m.tamanio then some (i, h) else some (k, m)

unfoldable pub best_fit_desde : ℕ → ℕ → List Hueco → Option (ℕ × Hueco) → Option (ℕ × Hueco)
best_fit_desde tamanio i [] mejor = mejor
best_fit_desde tamanio i (h ∷ hs) mejor =
    best_fit_desde tamanio (suc i) hs (mejor_de tamanio i h mejor)

unfoldable pub best_fit : ℕ → List Hueco → Option (ℕ × Hueco)
best_fit tamanio hs = best_fit_desde tamanio 0 hs none

-- One round of `worst_fit`.
abbrev pub peor_de : ℕ → ℕ → Hueco → Option (ℕ × Hueco) → Option (ℕ × Hueco)
peor_de tamanio i h none = if leb tamanio h.tamanio then some (i, h) else none
peor_de tamanio i h (some (k, m)) =
    if leb tamanio h.tamanio && ltb m.tamanio h.tamanio then some (i, h) else some (k, m)

unfoldable pub worst_fit_desde : ℕ → ℕ → List Hueco → Option (ℕ × Hueco) → Option (ℕ × Hueco)
worst_fit_desde tamanio i [] peor = peor
worst_fit_desde tamanio i (h ∷ hs) peor =
    worst_fit_desde tamanio (suc i) hs (peor_de tamanio i h peor)

unfoldable pub worst_fit : ℕ → List Hueco → Option (ℕ × Hueco)
worst_fit tamanio hs = worst_fit_desde tamanio 0 hs none

-- `estrategia` is the configuration's ALLOCATION_STRATEGY.
unfoldable pub seleccionar_hueco : Texto → ℕ → List Hueco → Option (ℕ × Hueco)
seleccionar_hueco estrategia tamanio hs =
    if strcmp estrategia (codes "WORST") then worst_fit tamanio hs else best_fit tamanio hs

-- The selected range gives its first `tamanio` bytes, or goes away if it has no more.
unfoldable pub ocupar_hueco : ℕ → ℕ × Hueco → List Hueco → List Hueco
ocupar_hueco tamanio (i, h) hs =
    if h.tamanio == tamanio
    then list_remove hs i
    else set hs i
        (record { base_global = u32 (h.base_global + tamanio); tamanio = h.tamanio - tamanio })
