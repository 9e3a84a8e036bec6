-- ===== src/Features/Layout.antt =====
-- The layout that the trainer and the cache share.
use belady.Common.{suc, ◌≡◌, ap, List, [], ◌∷◌, map, length, refl, arith}
use belady.Common.Float.{Float32}
use belady.Features.{history_len, feature_count, names, Input, extract}

length-map {ℓ κ} :
    {A : Type ℓ} {B : Type κ} (f : A → B) (xs : List A) → length (map f xs) ≡ length xs
length-map f [] = refl
length-map f (x ∷ xs) = ap suc (length-map f xs)

length-names : length names ≡ feature_count
unfolding names
length-names = refl

pub length-extract :
    (fl : Float32) (i : Input)
    → length i.deltas ≡ history_len
    → length (extract fl i) ≡ feature_count
unfolding extract
length-extract fl i h = omega (arith, length-map fl.of_u32 i.deltas, h)
