-- ===== src/Model/Tree/Binding.antt =====
-- A step that went on.
use belady.Common.{◌≡◌, refl}
use belady.Model.Tree.{Result, ok, err, bind}

pub bind-ok :
    {A B : Type 0} (r : Result A) (f : A → Result B) (b : B)
    → bind r f ≡ ok b
    → (a : A) × (r ≡ ok a) × (f a ≡ ok b)
bind-ok (ok a) f b h = (a, refl, h)
bind-ok (err e) f b h = absurd (cc)
