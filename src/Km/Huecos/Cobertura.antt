-- ===== src/Km/Huecos/Cobertura.antt =====
-- How often a list of ranges covers an address, the view under which the changes are compared.
use ssoo.Common.{
  ℕ, zero, suc, ◌+◌, ◌-◌, ◌≤◌, ◌<◌, ◌≡◌, subst, inl, inr, Bool-cases, some, List, [], ◌∷◌, ◌++◌,
  set, get_elem?, All, leb, ltb, ◌==◌, if◌then◌else◌, u32, u32_mod, ◌&&◌, arith,
}
use ssoo.Km.Huecos.{Hueco, agregar_hueco, list_remove, ocupar_hueco}

-- 1 if `x` is one of the `tamanio` addresses from `base` on, else 0.
unfoldable pub cubre : ℕ → ℕ → ℕ → ℕ
cubre x base tamanio = if leb base x && ltb x (base + tamanio) then 1 else 0

-- The number of free ranges that hold the address `x`.
unfoldable pub libre : ℕ → List Hueco → ℕ
libre x [] = 0
libre x (h ∷ hs) = cubre x h.base_global h.tamanio + libre x hs

-- A range of at least one byte that ends within the 32-bit addresses.
pub record HuecoEnRango (h : Hueco) : Type 0 where
  pub no_vacio : 0 < h.tamanio
  pub cabe : h.base_global + h.tamanio < u32_mod

pub cubre-add : (x base n m : ℕ) → cubre x base (n + m) ≡ cubre x base n + cubre x (base + n) m
unfolding cubre
cubre-add x base n m = ground arith

pub libre-append : (x : ℕ) (hs ks : List Hueco) → libre x (hs ++ ks) ≡ libre x hs + libre x ks
unfolding libre
libre-append x [] ks = omega arith
libre-append x (h ∷ hs) ks = omega (arith, libre-append x hs ks)

pub libre-agregar_hueco :
    (x base tamanio : ℕ) (hs : List Hueco)
    → libre x (agregar_hueco base tamanio hs) ≡ libre x hs + cubre x base tamanio
unfolding agregar_hueco libre
libre-agregar_hueco x base tamanio hs =
    omega (arith, libre-append x hs (record { base_global = base; tamanio = tamanio } ∷ []))

pub libre-list_remove :
    (x i : ℕ) (h : Hueco) (hs : List Hueco)
    → get_elem? hs i ≡ some h
    → libre x hs ≡ cubre x h.base_global h.tamanio + libre x (list_remove hs i)
unfolding libre list_remove
libre-list_remove x i h [] e = absurd (cc)
libre-list_remove x zero h (k ∷ hs) e = ground arith
libre-list_remove x (suc i) h (k ∷ hs) e = omega (arith, libre-list_remove x i h hs e)

pub libre-set :
    (x i : ℕ) (h k : Hueco) (hs : List Hueco)
    → get_elem? hs i ≡ some h
    → libre x hs + cubre x k.base_global k.tamanio
      ≡ cubre x h.base_global h.tamanio + libre x (set hs i k)
unfolding libre
libre-set x i h k [] e = absurd (cc)
libre-set x zero h k (l ∷ hs) e = ground arith
libre-set x (suc i) h k (l ∷ hs) e = omega (arith, libre-set x i h k hs e)

pub All-get {ℓ κ} :
    {A : Type ℓ} (P : A → Type κ) (xs : List A) (i : ℕ) {a : A}
    → get_elem? xs i ≡ some a
    → All P xs
    → P a
All-get P [] i e h = absurd (cc)
All-get P (x ∷ xs) zero e h = subst P (cc) h.0
All-get P (x ∷ xs) (suc i) e h = All-get P xs i e h.1

pub All-list_remove {ℓ κ} :
    {A : Type ℓ} (P : A → Type κ) (xs : List A) (i : ℕ) → All P xs → All P (list_remove xs i)
unfolding list_remove
All-list_remove P [] i h = tt
All-list_remove P (x ∷ xs) zero h = h.1
All-list_remove P (x ∷ xs) (suc i) h = (h.0, All-list_remove P xs i h.1)

pub All-set {ℓ κ} :
    {A : Type ℓ} (P : A → Type κ) (xs : List A) (i : ℕ) (a : A)
    → P a
    → All P xs
    → All P (set xs i a)
All-set P [] i a p h = tt
All-set P (x ∷ xs) zero a p h = (p, h.1)
All-set P (x ∷ xs) (suc i) a p h = (h.0, All-set P xs i a p h.1)

-- Taking the first `tamanio` bytes of the `i`-th range: exactly those stop being free.
pub libre-ocupar_hueco :
    (x tamanio i : ℕ) (h : Hueco) (hs : List Hueco)
    → get_elem? hs i ≡ some h
    → tamanio ≤ h.tamanio
    → HuecoEnRango h
    → libre x hs ≡ cubre x h.base_global tamanio + libre x (ocupar_hueco tamanio (i, h) hs)
unfolding ocupar_hueco
libre-ocupar_hueco x tamanio i h hs e le ok = ground (
  arith,
  libre-list_remove x i h hs e,
  libre-set x i h
      (record { base_global = u32 (h.base_global + tamanio); tamanio = h.tamanio - tamanio }) hs e,
  cubre-add x h.base_global tamanio (h.tamanio - tamanio),
)

pub ocupar_hueco-EnRango :
    (tamanio i : ℕ) (h : Hueco) (hs : List Hueco)
    → tamanio ≤ h.tamanio
    → HuecoEnRango h
    → All HuecoEnRango hs
    → All HuecoEnRango (ocupar_hueco tamanio (i, h) hs)
unfolding ocupar_hueco
ocupar_hueco-EnRango tamanio i h hs le ok a = elim (Bool-cases (h.tamanio == tamanio)) [
  | inl e ↦ rw e (All-list_remove HuecoEnRango hs i a)
  | inr e ↦ rw e (All-set HuecoEnRango hs i _ (ground (arith, e)) a)
]
