-- ===== src/Utils/Contexto.antt =====
-- The execution context of a process and its wire format: utils/src/utils/sockets.h and sockets.c.
-- An array with its count is a list: `cant_segmentos` is the length, a NULL array the empty list.
pub mod Formato
use ssoo.Common.{
  ℕ, zero, suc, ◌+◌, ◌*◌, ◌<◌, Option, none, some, List, [], ◌∷◌, ◌++◌, length, All, u32_mod, u32,
  htonl, ntohl, ltb, if◌then◌else◌,
}

-- `pc`, `eax` to `di` are uint32_t; `ax` to `dx` are uint8_t.
pub record RegistrosCpu : Type 0 where
  pub pc : ℕ
  pub ax : ℕ
  pub bx : ℕ
  pub cx : ℕ
  pub dx : ℕ
  pub eax : ℕ
  pub ebx : ℕ
  pub ecx : ℕ
  pub edx : ℕ
  pub si : ℕ
  pub di : ℕ

pub record EntradaSegmento : Type 0 where
  pub id_segmento : ℕ
  pub id_memory_stick : ℕ
  pub base : ℕ
  pub limite : ℕ

pub record ContextoCpu : Type 0 where
  pub pid : ℕ
  pub registros : RegistrosCpu
  pub segmentos : List EntradaSegmento

-- Every register holds a value of its C type.
pub record RegistrosEnRango (r : RegistrosCpu) : Type 0 where
  pub pc_cabe : r.pc < u32_mod
  pub ax_cabe : r.ax < 256
  pub bx_cabe : r.bx < 256
  pub cx_cabe : r.cx < 256
  pub dx_cabe : r.dx < 256
  pub eax_cabe : r.eax < u32_mod
  pub ebx_cabe : r.ebx < u32_mod
  pub ecx_cabe : r.ecx < u32_mod
  pub edx_cabe : r.edx < u32_mod
  pub si_cabe : r.si < u32_mod
  pub di_cabe : r.di < u32_mod

pub record SegmentoEnRango (s : EntradaSegmento) : Type 0 where
  pub id_cabe : s.id_segmento < u32_mod
  pub stick_cabe : s.id_memory_stick < u32_mod
  pub base_cabe : s.base < u32_mod
  pub limite_cabe : s.limite < u32_mod

pub record ContextoEnRango (c : ContextoCpu) : Type 0 where
  pub pid_cabe : c.pid < u32_mod
  pub registros_caben : RegistrosEnRango c.registros
  pub segmentos_caben : All SegmentoEnRango c.segmentos

abbrev pub ctx_header_wire_size : ℕ
ctx_header_wire_size = 40

abbrev pub segmento_wire_size : ℕ
segmento_wire_size = 16

pub serializar_segmentos : List EntradaSegmento → List ℕ
serializar_segmentos [] = []
serializar_segmentos (s ∷ ss) =
    htonl s.id_segmento
    ++ (htonl s.id_memory_stick ++ (htonl s.base ++ (htonl s.limite ++ serializar_segmentos ss)))

unfoldable pub serializar_contexto : ContextoCpu → List ℕ
serializar_contexto c =
    htonl c.pid
    ++ (htonl r.pc
        ++ (r.ax
            ∷ r.bx
            ∷ r.cx
            ∷ r.dx
            ∷ (htonl r.eax
                ++ (htonl r.ebx
                    ++ (htonl r.ecx
                        ++ (htonl r.edx
                            ++ (htonl r.si
                                ++ (htonl r.di
                                    ++ (htonl (length c.segmentos)
                                        ++ serializar_segmentos c.segmentos)))))))))
  where
    open c use {registros as r}

infixl 5 ◌>>=◌
abbrev ◌>>=◌ : {A B : Type 0} → Option A → (A → Option B) → Option B
none >>= f = none
some a >>= f = f a

-- `*p++`
abbrev pub leer_byte : List ℕ → Option (ℕ × List ℕ)
leer_byte [] = none
leer_byte (b ∷ p) = some (b, p)

-- The fixed part of the payload: the context without segments, their count and the bytes behind.
unfoldable pub leer_cabecera : List ℕ → Option ((ContextoCpu × ℕ) × List ℕ)
leer_cabecera p₀ = do
  (pid, p₁) ← ntohl p₀
  (pc, p₂) ← ntohl p₁
  (ax, p₃) ← leer_byte p₂
  (bx, p₄) ← leer_byte p₃
  (cx, p₅) ← leer_byte p₄
  (dx, p₆) ← leer_byte p₅
  (eax, p₇) ← ntohl p₆
  (ebx, p₈) ← ntohl p₇
  (ecx, p₉) ← ntohl p₈
  (edx, p₁₀) ← ntohl p₉
  (si, p₁₁) ← ntohl p₁₀
  (di, p₁₂) ← ntohl p₁₁
  (cant, p₁₃) ← ntohl p₁₂
  some (
    (
      record {
        pid = pid;
        registros = record {
          pc = pc;
          ax = ax;
          bx = bx;
          cx = cx;
          dx = dx;
          eax = eax;
          ebx = ebx;
          ecx = ecx;
          edx = edx;
          si = si;
          di = di;
        };
        segmentos = [];
      },
      cant,
    ),
    p₁₃,
  )

leer_entrada : List ℕ → Option (EntradaSegmento × List ℕ)
leer_entrada p₀ = do
  (id, p₁) ← ntohl p₀
  (ms, p₂) ← ntohl p₁
  (base, p₃) ← ntohl p₂
  (limite, p₄) ← ntohl p₃
  some (record { id_segmento = id; id_memory_stick = ms; base = base; limite = limite }, p₄)

-- The loop over the segments; `none` is a read behind the end of the payload.
pub leer_segmentos : ℕ → List ℕ → Option (List EntradaSegmento)
unfolding leer_entrada
leer_segmentos zero p = some []
leer_segmentos (suc n) p = do (s, q) ← leer_entrada p; resto ← leer_segmentos n q; some (s ∷ resto)

-- What a deserialiser does: it returns NULL, reads outside the payload (undefined behaviour), or
-- returns a value.
pub data Lectura (A : Type 0) : Type 0 where
  nulo : Lectura A
  desborde : Lectura A
  leido : A → Lectura A

abbrev pub completar : ContextoCpu → Option (List EntradaSegmento) → Lectura ContextoCpu
completar c none = desborde
completar c (some ss) = leido (record c { segmentos = ss })

abbrev pub con_segmentos : ℕ → (ContextoCpu × ℕ) × List ℕ → Lectura ContextoCpu
con_segmentos size ((c, cant), p) =
    if ltb size (u32 (ctx_header_wire_size + u32 (cant * segmento_wire_size)))
    then nulo
    else completar c (leer_segmentos cant p)

abbrev pub tras_cabecera : ℕ → Option ((ContextoCpu × ℕ) × List ℕ) → Lectura ContextoCpu
tras_cabecera size none = desborde
tras_cabecera size (some leida) = con_segmentos size leida

unfoldable pub deserializar_contexto : List ℕ → Lectura ContextoCpu
deserializar_contexto p =
    if ltb (length p) ctx_header_wire_size then nulo else tras_cabecera (length p) (leer_cabecera p)
