-- ===== src/Prelude/Text.antt =====
-- `strings.Contains` and `bytes.HasPrefix` of Go's standard library, on byte strings.
use drt_go_chain_communicati.Prelude.{Bool, true, false, ◌&&◌, ◌||◌, [], ◌∷◌, Bytes, nat_beq}

unfoldable pub has_prefix : Bytes → Bytes → Bool
has_prefix s [] = true
has_prefix [] (p ∷ ps) = false
has_prefix (c ∷ s) (p ∷ ps) = nat_beq c p && has_prefix s ps

-- `strings.Contains(s, sub)`.
unfoldable pub contains : Bytes → Bytes → Bool
unfolding has_prefix
contains [] sub = has_prefix [] sub
contains (c ∷ s) sub = has_prefix (c ∷ s) sub || contains s sub
