-- ===== src/Trace/Names/Shuffle.antt =====
-- The files of a directory in the orders that a file system may have them, and sorted by name.
use belady.Common.{
  ℕ, ◌≡◌, inl, inr, refl, sym, ap, ◌∙◌, subst, true, false, List, [], ◌∷◌, ◌++◌, arith, All,
  Bool-cases,
}
use belady.Common.Decimal.{text_less}
use belady.Common.Text.{Text}
use belady.Trace.Names.{Directory, matches, glob, insert_name, sort_names}

text_less_asym : (a b : Text) → text_less a b ≡ true → text_less b a ≡ false
unfolding text_less
text_less_asym [] [] h = refl
text_less_asym [] (y ∷ b) h = refl
text_less_asym (x ∷ a) [] h = absurd (cc)
text_less_asym (x ∷ a) (y ∷ b) h = ground (arith, text_less_asym a b)

glob-append : (ext : Text) (a b : Directory) → glob ext (a ++ b) ≡ glob ext a ++ glob ext b
unfolding glob
glob-append ext [] b = refl
glob-append ext (f ∷ a) b = elim (Bool-cases (matches ext f.0)) [
  | inl fits ↦ rw (fits, glob-append ext a b) refl
  | inr other ↦ rw (other, glob-append ext a b) refl
]

-- The files of a directory in another order.
pub data Shuffled : Directory → Directory → Type 0 where
  no_file : Shuffled [] []
  placed :
      (f : Text × List ℕ) (d a b : Directory)
      → Shuffled d (a ++ b)
      → Shuffled (f ∷ d) (a ++ (f ∷ b))

pub glob-Shuffled :
    (ext : Text) (d e : Directory) → Shuffled d e → Shuffled (glob ext d) (glob ext e)
unfolding glob
glob-Shuffled ext _ _ no_file = no_file
glob-Shuffled ext _ _ (placed f d a b s) =
    let rest : Shuffled (glob ext d) (glob ext a ++ glob ext b) =
      subst (Shuffled (glob ext d)) (glob-append ext a b) (glob-Shuffled ext d (a ++ b) s) in
    subst (Shuffled (glob ext (f ∷ d))) (sym (glob-append ext a (f ∷ b)))
      (elim (Bool-cases (matches ext f.0)) [
        | inl fits ↦ rw (fits, glob) (placed f (glob ext d) (glob ext a) (glob ext b) rest)
        | inr other ↦ rw (other, glob) rest
      ])

All-around :
    (P : Text × List ℕ → Type 0) (a b : Directory) (f : Text × List ℕ)
    → P f
    → All P (a ++ b)
    → All P (a ++ (f ∷ b))
All-around P [] b f here all = (here, all)
All-around P (g ∷ a) b f here all = (all.0, All-around P a b f here all.1)

All-Shuffled : (P : Text × List ℕ → Type 0) (d e : Directory) → Shuffled d e → All P d → All P e
All-Shuffled P _ _ no_file all = tt
All-Shuffled P _ _ (placed f d a b s) all =
    All-around P a b f all.0 (All-Shuffled P d (a ++ b) s all.1)

All-insert_name :
    (P : Text × List ℕ → Type 0) (f : Text × List ℕ) (d : Directory)
    → P f
    → All P d
    → All P (insert_name f d)
unfolding insert_name
All-insert_name P f [] here all = (here, tt)
All-insert_name P f (g ∷ d) here all = elim (Bool-cases (text_less g.0 f.0)) [
  | inl less ↦ rw less (all.0, All-insert_name P f d here all.1)
  | inr other ↦ rw other (here, all)
]

All-sort_names : (P : Text × List ℕ → Type 0) (d : Directory) → All P d → All P (sort_names d)
unfolding sort_names
All-sort_names P [] all = tt
All-sort_names P (f ∷ d) all = All-insert_name P f (sort_names d) all.0 (All-sort_names P d all.1)

-- The files after this one by name.
abbrev pub Behind : Text × List ℕ → Text × List ℕ → Type 0
Behind f g = text_less f.0 g.0 ≡ true

insert_name-least : (f : Text × List ℕ) (d : Directory) → All (Behind f) d → insert_name f d ≡ f ∷ d
unfolding insert_name
insert_name-least f [] all = refl
insert_name-least f (g ∷ d) all = rw (text_less_asym f.0 g.0 all.0) refl

sort_names-least :
    (f : Text × List ℕ) (a b : Directory)
    → All (Behind f) (a ++ b)
    → sort_names (a ++ (f ∷ b)) ≡ f ∷ sort_names (a ++ b)
unfolding sort_names insert_name
sort_names-least f [] b all = insert_name-least f (sort_names b) (All-sort_names (Behind f) b all)
sort_names-least f (g ∷ a) b all =
    ap (insert_name g) (sort_names-least f a b all.1) ∙ rw (all.0) refl

abbrev pub Ascending : Directory → Type 0
Ascending [] = Unit
Ascending (f ∷ d) = All (Behind f) d × Ascending d

pub sort_names-Shuffled : (d e : Directory) → Shuffled d e → Ascending d → sort_names e ≡ d
unfolding sort_names
sort_names-Shuffled _ _ no_file up = refl
sort_names-Shuffled _ _ (placed f d a b s) up =
    sort_names-least f a b (All-Shuffled (Behind f) d (a ++ b) s up.0)
    ∙ ap (λ rest. f ∷ rest) (sort_names-Shuffled d (a ++ b) s up.1)
