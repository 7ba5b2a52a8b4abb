-- ===== src/WorkSteps/Framing/Injectivity.antt =====
-- domain/work-steps.ts: frames and the parts that they join.
use world_wide_woo.Common.{ℕ, ◌/◌, ◌%◌, ◌<◌, ◌≡◌, refl, List, [], ◌∷◌, ◌++◌, length, All, arith}
use world_wide_woo.WorkSteps.Framing.{uint32, frame}

abbrev pub IsShort : List ℕ → Type 0
IsShort part = length part < 4294967296

prefix-injective :
    (xs ys us vs : List ℕ) → length xs ≡ length ys → xs ++ us ≡ ys ++ vs → (xs ≡ ys) × (us ≡ vs)
prefix-injective [] [] us vs n h = (refl, h)
prefix-injective [] (y ∷ ys) us vs n h = cc (n)
prefix-injective (x ∷ xs) [] us vs n h = cc (n)
prefix-injective (x ∷ xs) (y ∷ ys) us vs n h =
    let (p, q) = prefix-injective xs ys us vs (omega (arith, n)) (cc (h)) in
    let hd : x ≡ y = cc (h) in (cc (hd, p), q)

bytes-injective :
    (m n : ℕ)
    → m < 4294967296
    → n < 4294967296
    → (m / 16777216) % 256 ≡ (n / 16777216) % 256
    → (m / 65536) % 256 ≡ (n / 65536) % 256
    → (m / 256) % 256 ≡ (n / 256) % 256
    → m % 256 ≡ n % 256
    → m ≡ n
bytes-injective m n p q e3 e2 e1 e0 = omega arith

uint32-injective :
    (m n : ℕ) (us vs : List ℕ)
    → m < 4294967296
    → n < 4294967296
    → uint32 m ++ us ≡ uint32 n ++ vs
    → (m ≡ n) × (us ≡ vs)
unfolding uint32
uint32-injective m n us vs p q h =
    let e3 : (m / 16777216) % 256 ≡ (n / 16777216) % 256 = cc (h) in
    let e2 : (m / 65536) % 256 ≡ (n / 65536) % 256 = cc (h) in
    let e1 : (m / 256) % 256 ≡ (n / 256) % 256 = cc (h) in
    let e0 : m % 256 ≡ n % 256 = cc (h) in (bytes-injective m n p q e3 e2 e1 e0, cc (h))

-- Parts shorter than 2^32 are determined by their frame.
pub frame-injective :
    (ps qs : List (List ℕ)) → All IsShort ps → All IsShort qs → frame ps ≡ frame qs → ps ≡ qs
unfolding frame
frame-injective [] [] a b h = refl
frame-injective [] (q ∷ qs) a b h = unfold uint32 in cc (h)
frame-injective (p ∷ ps) [] a b h = unfold uint32 in cc (h)
frame-injective (p ∷ ps) (q ∷ qs) a b h =
    let (n, rest) =
      uint32-injective (length p) (length q) (p ++ frame ps) (q ++ frame qs) a.0 b.0 h in
    let (same, tails) = prefix-injective p q (frame ps) (frame qs) n rest in
    let more = frame-injective ps qs a.1 b.1 tails in cc (same, more)
