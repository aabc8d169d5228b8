-- ===== src/Asm/Memory.antt =====
-- Bytes written and read back.
use ia2_phase.Base.{
  ℕ, ◌≤◌, ◌<◌, ◌≡◌, ◌+◌, ◌⊎◌, if◌then◌else◌, arith, suc, leb, ◌/◌, zero, ◌&&◌, ltb, ◌-◌, refl, ◌*◌,
  ◌%◌,
}
use ia2_phase.Asm.Machine.{store_bytes, load_bytes, update_mem}

pub store_bytes-outside :
    (n : ℕ) (m : ℕ → ℕ) (a v b : ℕ) → (b < a) ⊎ (a + n ≤ b) → store_bytes n m a v b ≡ m b
unfolding store_bytes update_mem
store_bytes-outside zero m a v b h = refl
store_bytes-outside (suc n) m a v b h = ground (arith, store_bytes-outside n m (a + 1) (v / 256) b)

-- Memory holds bytes.
abbrev pub IsBytes : (ℕ → ℕ) → Type 0
IsBytes m = (a : ℕ) → m a < 256

pub store_bytes-IsBytes : (n : ℕ) (m : ℕ → ℕ) (a v : ℕ) → IsBytes m → IsBytes (store_bytes n m a v)
unfolding store_bytes update_mem
store_bytes-IsBytes zero m a v h = h
store_bytes-IsBytes (suc n) m a v h =
    λ b. ground (arith, store_bytes-IsBytes n m (a + 1) (v / 256) h b)

-- What a word of `n` bytes copied from `s` in `m'` leaves at `b`.
pub store-load_bytes :
    (n : ℕ) (m m' : ℕ → ℕ) (d s b : ℕ)
    → IsBytes m'
    → store_bytes n m d (load_bytes n m' s) b
      ≡ (if leb d b && ltb b (d + n) then m' (s + (b - d)) else m b)
unfolding store_bytes load_bytes update_mem
store-load_bytes zero m m' d s b h = ground arith
store-load_bytes (suc n) m m' d s b h =
    let rest = load_bytes n m' (s + 1) in
    let tail : (m' s + 256 * rest) / 256 ≡ rest = omega (arith, h s) in
    let head : (m' s + 256 * rest) % 256 ≡ m' s = omega (arith, h s) in
    let ih = store-load_bytes n m m' (d + 1) (s + 1) b h in
    let here : b ≡ d → s + (b - d) ≡ s = omega arith in
    let there : d < b → s + 1 + (b - (d + 1)) ≡ s + (b - d) = omega arith in
    rw (tail, head) (ground arith)

-- A load reads only its own bytes.
pub load_bytes-congr :
    (n : ℕ) (m m' : ℕ → ℕ) (a : ℕ)
    → ((b : ℕ) → a ≤ b → b < a + n → m b ≡ m' b)
    → load_bytes n m a ≡ load_bytes n m' a
unfolding load_bytes
load_bytes-congr zero m m' a h = refl
load_bytes-congr (suc n) m m' a h =
    ground (arith, h a, load_bytes-congr n m m' (a + 1) (λ b l u. h b (omega arith) (omega arith)))

-- A value of `n` bytes.
abbrev pub FitsIn : ℕ → ℕ → Type 0
FitsIn zero v = v ≡ 0
FitsIn (suc n) v = FitsIn n (v / 256)

-- What was stored is loaded again.
pub load-store_bytes :
    (n : ℕ) (m : ℕ → ℕ) (a v : ℕ) → FitsIn n v → load_bytes n (store_bytes n m a v) a ≡ v
unfolding load_bytes store_bytes update_mem
load-store_bytes zero m a v h = omega arith
load-store_bytes (suc n) m a v h =
    let rest = store_bytes n m (a + 1) (v / 256) in
    let same =
      load_bytes-congr n (update_mem rest a (v % 256)) rest (a + 1) (λ b l u. ground arith) in
    let ih = load-store_bytes n m (a + 1) (v / 256) h in ground arith
