-- ===== src/Ensayos/Compactacion.antt =====
-- Tests of the compaction: kernel_memory/src/main.c. The list of so-commons is sorted by insertion.
use ssoo.Common.{
  ℕ, ◌≤◌, ◌≡◌, refl, ap, inl, inr, none, some, List, [], ◌∷◌, ltb, ltb→lt, ltb→ge, Bool, Bool-cases,
  true, ◌==◌, if◌then◌else◌, arith,
}
use mathlib.Core.Logic.Or
use native.Mathlib.Bridge.{le_prop}
use mathlib.Core.List.{Mem, Pairwise, Perm, eq-or-mem_of_mem-cons, not-mem-nil}
use mathlib.Core.List.Perm
use ssoo.Utils.Contexto.{EntradaSegmento}
use ssoo.Cpu.Registros.{inicializar_registros_cpu}
use ssoo.Km.Huecos.Cobertura.{libre, cubre}
use ssoo.Km.Sticks.{MemoryStick}
use ssoo.Km.Fisica.{Red}
use ssoo.Km.Fisica.Plana.{Memoria}
use ssoo.Km.Segmentos.{buscar_segmento}
use ssoo.Km.Segmentos.Particion.{ocupado}
use ssoo.Km.Procesos.{EstadoKm}
use ssoo.Km.Procesos.Particion.{ocupado_total, Particionada}
use ssoo.Km.Compactacion.{
  Puntero, ListSort, punteros, leer_puntero, comparar_base_segmento, hueco_final, compactar,
}
use ssoo.Km.Compactacion.Contenido.{Juntos, Conservado}
use ssoo.Km.Compactacion.Resultado.{Ordena, compactar-Conservado}

insertar : (Puntero → Puntero → Bool) → Puntero → List Puntero → List Puntero
insertar cmp x [] = x ∷ []
insertar cmp x (y ∷ ys) = if cmp y x then y ∷ insertar cmp x ys else x ∷ (y ∷ ys)

ordenar : ListSort
ordenar cmp [] = []
ordenar cmp (x ∷ xs) = insertar cmp x (ordenar cmp xs)

insertar-Perm :
    (cmp : Puntero → Puntero → Bool) (x : Puntero) (ys : List Puntero)
    → Perm (insertar cmp x ys) (x ∷ ys)
unfolding insertar
insertar-Perm cmp x [] = Perm.rfl
insertar-Perm cmp x (y ∷ ys) = elim (Bool-cases (cmp y x)) [
  | inl e ↦ rw e (Perm.trans (Perm.cons y (insertar-Perm cmp x ys)) (Perm.swap x y ys))
  | inr e ↦ rw e Perm.rfl
]

ordenar-Perm : (cmp : Puntero → Puntero → Bool) (l : List Puntero) → Perm (ordenar cmp l) l
unfolding ordenar
ordenar-Perm cmp [] = Perm.rfl
ordenar-Perm cmp (x ∷ xs) =
    Perm.trans (insertar-Perm cmp x (ordenar cmp xs)) (Perm.cons x (ordenar-Perm cmp xs))

module _ (clave : Puntero → ℕ) where
  abbrev menor : Puntero → Puntero → Bool
  menor p q = ltb (clave p) (clave q)

  abbrev Orden : List Puntero → Type 0
  Orden = Pairwise (λ p q. clave p ≤ clave q)

  -- Below the head of an ordered list is below all of it.
  bajo_todos :
      (x y : Puntero) (ys : List Puntero)
      → clave x ≤ clave y
      → ((q : Puntero) → Mem q ys → clave y ≤ clave q)
      → (q : Puntero) → Mem q (y ∷ ys)
      → clave x ≤ clave q
  bajo_todos x y ys h f q m =
      Or.elim le_prop (eq-or-mem_of_mem-cons m) (λ g. omega (arith, h, ap clave g))
        (λ k. omega (arith, h, f q k))

  insertar-Orden : (x : Puntero) (ys : List Puntero) → Orden ys → Orden (insertar menor x ys)
  unfolding insertar
  insertar-Orden x [] o = Pairwise.cons (λ q m. absurd (not-mem-nil m)) Pairwise.nil
  insertar-Orden x (y ∷ ys) (Pairwise.cons f o) = elim (Bool-cases (menor y x)) [
    | inl e ↦
        let lt = ltb→lt (clave y) (clave x) e in
        rw e (
          Pairwise.cons
            (λ q m.
              Or.elim le_prop
                (eq-or-mem_of_mem-cons ((Perm.mem_iff (insertar-Perm menor x ys)).0 m))
                (λ g. omega (arith, lt, ap clave g)) (f q))
            (insertar-Orden x ys o))
    | inr e ↦
        rw e
          (Pairwise.cons (bajo_todos x y ys (ltb→ge (clave y) (clave x) e) f) (Pairwise.cons f o))
  ]

  ordenar-Orden : (l : List Puntero) → Orden (ordenar menor l)
  unfolding ordenar
  ordenar-Orden [] = Pairwise.nil
  ordenar-Orden (x ∷ xs) = insertar-Orden x (ordenar menor xs) (ordenar-Orden xs)

ordenar-Ordena : Ordena ordenar
ordenar-Ordena = record { mismos = ordenar-Perm; ordenados = ordenar-Orden }

abbrev stick_a : MemoryStick
stick_a = record {
  id = 0;
  fd = 10;
  tamanio = 4;
  offset_global = 0;
  ipv4 = 1;
  puerto = 9000;
  activo = true;
}

abbrev stick_b : MemoryStick
stick_b = record {
  id = 1;
  fd = 11;
  tamanio = 4;
  offset_global = 4;
  ipv4 = 1;
  puerto = 9001;
  activo = true;
}

abbrev sticks : List MemoryStick
sticks = stick_a ∷ stick_b ∷ []

abbrev red : Red
red fd =
    if fd == 10
    then record { buffer = 10 ∷ 11 ∷ 12 ∷ 13 ∷ []; offset_global_ms = 0 }
    else record { buffer = 14 ∷ 15 ∷ 16 ∷ 17 ∷ []; offset_global_ms = 4 }

abbrev alto : EntradaSegmento
alto = record { id_segmento = 0; id_memory_stick = 1; base = 5; limite = 3 }

abbrev bajo : EntradaSegmento
bajo = record { id_segmento = 2; id_memory_stick = 0; base = 1; limite = 2 }

abbrev estado : EstadoKm
estado = record {
  memoria = record {
    memory_sticks = sticks;
    huecos = record { base_global = 0; tamanio = 1 } ∷ record { base_global = 3; tamanio = 2 } ∷ [];
    next_ms_id = 2;
  };
  contextos =
      record { pid = 1; registros = inicializar_registros_cpu; segmentos = alto ∷ [] }
      ∷ record { pid = 2; registros = inicializar_registros_cpu; segmentos = bajo ∷ [] }
      ∷ [];
  pendiente = none;
}

estado-Particionada : Particionada estado 8
unfolding libre ocupado_total ocupado cubre buscar_segmento
estado-Particionada = record {
  formada = record {
    contiguos = (refl, omega arith, (refl, omega arith, refl));
    fin_cabe = omega arith;
    huecos_en_rango = (omega arith, (omega arith, tt));
  };
  fisicos = (
    record { segmentos_fisicos = (omega arith, tt); distintos = (refl, tt) },
    (record { segmentos_fisicos = (omega arith, tt); distintos = (refl, tt) }, tt),
  );
  reparto = λ x. ground arith;
}

red-Memoria : Memoria red sticks 8
red-Memoria = record {
  contiguos = (refl, omega arith, (refl, omega arith, refl));
  activos = (refl, (refl, tt));
  cableado = (refl, ((omega arith), tt), (refl, tt, tt));
  fin_cabe = omega arith;
}

compactar-Conservado_example :
    let (red', e') = compactar ordenar red estado in
    Memoria red' sticks 8
    × ((q : Puntero) (s : EntradaSegmento)
        → leer_puntero estado.contextos q ≡ some s
        → Conservado sticks red red' e'.contextos q s)
    × ((cursor : ℕ) × Juntos 0 e'.contextos
          (ordenar (comparar_base_segmento estado.contextos) (punteros 0 estado.contextos))
          cursor
        × (e'.memoria.huecos ≡ hueco_final cursor 8))
compactar-Conservado_example =
    compactar-Conservado ordenar red estado 8 ordenar-Ordena estado-Particionada red-Memoria
      (omega arith)
