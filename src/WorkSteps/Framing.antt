-- ===== src/WorkSteps/Framing.antt =====
-- domain/work-steps.ts: `frame`, which joins the parts of a hash's input with their lengths.
pub mod Injectivity
use world_wide_woo.Common.{ℕ, ◌+◌, ◌/◌, ◌%◌, String, List, [], ◌∷◌, ◌++◌, map, length}
use world_wide_woo.WorkSteps.Runtime.{WorkRuntime, utf8}

-- `view.setUint32(offset, length)`: four bytes, the highest first.
unfoldable pub uint32 : ℕ → List ℕ
uint32 n = (n / 16777216) % 256 ∷ (n / 65536) % 256 ∷ (n / 256) % 256 ∷ n % 256 ∷ []

unfoldable pub frame : List (List ℕ) → List ℕ
unfolding uint32
frame [] = []
frame (part ∷ parts) = uint32 (length part) ++ (part ++ frame parts)

-- `frame` of texts.
unfoldable pub frame_texts : List String → List ℕ
unfolding frame utf8
frame_texts texts = frame (map utf8 texts)

unfoldable pub digest : WorkRuntime → List (List ℕ) → String
unfolding frame
digest rt parts = rt.sha256_hex (frame parts)

unfoldable pub digest_texts : WorkRuntime → List String → String
unfolding frame_texts
digest_texts rt texts = rt.sha256_hex (frame_texts texts)
