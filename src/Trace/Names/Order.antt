-- ===== src/Trace/Names/Order.antt =====
-- The order of a recorder's files by name and by date.
use belady.Common.{
  ℕ, zero, suc, ◌+◌, ◌%◌, ◌/◌, ◌≡◌, ◌<◌, ◌≤◌, ◌^◌, inl, inr, refl, sym, ap, ◌∙◌, subst, true, false,
  none, some, List, [], ◌∷◌, ◌++◌, arith, All, Map, append_assoc, length, length-append, Bool-cases,
  Option-cases,
}
use belady.Common.Decimal.{decimal, decimal_from, decimal-less, text_less, text_less-prefix}
use belady.Common.Text.{Text, same_text, same_text-eq, same_text_refl, cut_suffix, is_empty}
use belady.Common.Text
use belady.Trace.Disk.{Disk}
use belady.Trace.Names.Shuffle.{Shuffled, glob-Shuffled, Behind, Ascending, sort_names-Shuffled}
use belady.Trace.Names.{
  extension, tmp_extension, file_name, Directory, named, listing, no_separator, matches, glob,
  segments_of,
}

-- Nanoseconds of an int64 that have 19 digits: from September 2001 to April 2262.
abbrev pub IsDated : ℕ → Type 0
IsDated k = (10 ^ 18 ≤ k) × (k < 2 ^ 63)

-- Dated files, in the order of their dates.
abbrev pub Rising : Map (List ℕ) → Type 0
Rising [] = Unit
Rising ((k, bytes) ∷ m) = IsDated k × All (λ s. k < s.0) m × Rising m

no_separator-append :
    (a b : Text) → no_separator a ≡ true → no_separator b ≡ true → no_separator (a ++ b) ≡ true
unfolding no_separator
no_separator-append [] b h k = k
no_separator-append (c ∷ a) b h k = ground (arith, no_separator-append a b)

no_separator-decimal_from : (fuel n : ℕ) → no_separator (decimal_from fuel n) ≡ true
unfolding no_separator decimal_from
no_separator-decimal_from zero n = ground arith
no_separator-decimal_from (suc fuel) n =
    let last : no_separator ((b'0' + n % 10) ∷ []) ≡ true = ground arith in
    let all =
      no_separator-append (decimal_from fuel (n / 10)) ((b'0' + n % 10) ∷ [])
        (no_separator-decimal_from fuel (n / 10)) last in
    ground (arith, all)

-- The name is the node and the number, before the extension.
abbrev stem : Text → ℕ → Text
stem node_id nanos = node_id ++ (b'-' ∷ decimal nanos)

file_name-stem :
    (node_id : Text) (nanos : ℕ) (ext : Text)
    → file_name node_id nanos ext ≡ stem node_id nanos ++ ext
unfolding file_name
file_name-stem node_id nanos ext = sym (append_assoc node_id (b'-' ∷ decimal nanos) ext)

no_separator-stem :
    (node_id : Text) (nanos : ℕ)
    → no_separator node_id ≡ true
    → no_separator (stem node_id nanos) ≡ true
unfolding no_separator decimal
no_separator-stem node_id nanos flat =
    no_separator-append node_id (b'-' ∷ decimal nanos) flat (no_separator-decimal_from 20 nanos)

cut_suffix-append : (xs ys : Text) (y : ℕ) → cut_suffix (xs ++ (y ∷ ys)) (y ∷ ys) ≡ some xs
unfolding cut_suffix
cut_suffix-append [] ys y = rw (same_text_refl (y ∷ ys)) refl
cut_suffix-append (x ∷ xs) ys y = elim (Bool-cases (same_text (x ∷ (xs ++ (y ∷ ys))) (y ∷ ys))) [
  | inl same ↦ absurd (
      omega (
        arith,
        ap length (same_text-eq (x ∷ (xs ++ (y ∷ ys))) (y ∷ ys) same),
        length-append xs (y ∷ ys),
      ))
  | inr other ↦ rw (other, cut_suffix-append xs ys y) refl
]

cut_suffix_sound :
    (s : Text) (y : ℕ) (ys t : Text) → cut_suffix s (y ∷ ys) ≡ some t → s ≡ t ++ (y ∷ ys)
unfolding cut_suffix is_empty
cut_suffix_sound [] y ys t h = absurd (cc)
cut_suffix_sound (c ∷ s) y ys t h = elim (Bool-cases (same_text (c ∷ s) (y ∷ ys))) [
  | inl same ↦
      let empty : t ≡ [] = ground (arith, same) in rw empty (same_text-eq (c ∷ s) (y ∷ ys) same)
  | inr other ↦ elim (Option-cases (cut_suffix s (y ∷ ys))) [
    | inl nowhere ↦ absurd (ground (arith, other, nowhere))
    | inr (u, found) ↦
        let longer : t ≡ c ∷ u = ground (arith, other, found) in
        rw longer (ap (λ z. c ∷ z) (cut_suffix_sound s y ys u found))
  ]
]

abbrev last_of : ℕ → Text → ℕ
last_of a [] = a
last_of a (c ∷ s) = last_of c s

last_of-append : (a : ℕ) (xs : Text) (y : ℕ) (ys : Text) → last_of a (xs ++ (y ∷ ys)) ≡ last_of y ys
last_of-append a [] y ys = refl
last_of-append a (x ∷ xs) y ys = last_of-append x xs y ys

matches-found :
    (ext name t : Text) → cut_suffix name ext ≡ some t → matches ext name ≡ no_separator t
unfolding matches
matches-found ext name t found = ground (arith, found)

matches-nowhere : (ext name : Text) → cut_suffix name ext ≡ none → matches ext name ≡ false
unfolding matches
matches-nowhere ext name nowhere = ground (arith, nowhere)

matches-segment :
    (node_id : Text) (nanos : ℕ)
    → no_separator node_id ≡ true
    → matches extension (file_name node_id nanos extension) ≡ true
matches-segment node_id nanos flat =
    matches-found extension (file_name node_id nanos extension) (stem node_id nanos) (
      ap (λ name. cut_suffix name extension) (file_name-stem node_id nanos extension)
      ∙ cut_suffix-append (stem node_id nanos) (Text.codes "trace") b'.')
    ∙ no_separator-stem node_id nanos flat

matches-partial :
    (node_id : Text) (nanos : ℕ) → matches extension (file_name node_id nanos tmp_extension) ≡ false
matches-partial node_id nanos =
    let name = file_name node_id nanos tmp_extension in
    elim (Option-cases (cut_suffix name extension)) [
      | inl nowhere ↦ matches-nowhere extension name nowhere
      | inr (t, found) ↦
          let same : stem node_id nanos ++ tmp_extension ≡ t ++ extension =
            sym (file_name-stem node_id nanos tmp_extension)
            ∙ cut_suffix_sound name b'.' (Text.codes "trace") t found in
          absurd (
            omega (
              arith,
              ap (last_of 0) same,
              last_of-append 0 (stem node_id nanos) b'.' (Text.codes "partial"),
              last_of-append 0 t b'.' (Text.codes "trace"),
            ))
    ]

glob-listing :
    (node_id : Text) (partials segments : Map (List ℕ))
    → no_separator node_id ≡ true
    → glob extension (named node_id tmp_extension partials ++ named node_id extension segments)
      ≡ named node_id extension segments
unfolding glob named
glob-listing node_id [] [] flat = refl
glob-listing node_id [] ((k, bytes) ∷ m) flat =
    rw (matches-segment node_id k flat)
      (ap (λ d. (file_name node_id k extension, bytes) ∷ d) (glob-listing node_id [] m flat))
glob-listing node_id ((k, bytes) ∷ p) m flat =
    rw (matches-partial node_id k) (glob-listing node_id p m flat)

file_name-less :
    (node_id ext : Text) (j k : ℕ)
    → IsDated j
    → IsDated k
    → j < k
    → text_less (file_name node_id j ext) (file_name node_id k ext) ≡ true
unfolding file_name
file_name-less node_id ext j k dated_j dated_k lt =
    text_less-prefix node_id (b'-' ∷ (decimal j ++ ext)) (b'-' ∷ (decimal k ++ ext))
    ∙ text_less-prefix (b'-' ∷ []) (decimal j ++ ext) (decimal k ++ ext)
    ∙ decimal-less j k ext ext dated_j.0 lt (omega (arith, dated_k))

named-Behind :
    (node_id ext : Text) (k : ℕ) (bytes : List ℕ) (m : Map (List ℕ))
    → IsDated k
    → All (λ s. k < s.0) m
    → Rising m
    → All (Behind (file_name node_id k ext, bytes)) (named node_id ext m)
unfolding named
named-Behind node_id ext k bytes [] dated above rising = tt
named-Behind node_id ext k bytes ((j, other) ∷ m) dated above rising = (
  file_name-less node_id ext k j dated rising.0 above.0,
  named-Behind node_id ext k bytes m dated above.1 rising.2,
)

named-Ascending :
    (node_id ext : Text) (m : Map (List ℕ)) → Rising m → Ascending (named node_id ext m)
unfolding named
named-Ascending node_id ext [] rising = tt
named-Ascending node_id ext ((k, bytes) ∷ m) (dated, above, rising) =
    (named-Behind node_id ext k bytes m dated above rising, named-Ascending node_id ext m rising)

pub segments_of-listing :
    (node_id : Text) (d : Disk) (files : Directory)
    → no_separator node_id ≡ true
    → Rising d.segments
    → Shuffled (listing node_id d) files
    → segments_of files ≡ named node_id extension d.segments
unfolding segments_of listing
segments_of-listing node_id d files flat rising shuffled =
    let all = listing node_id d in
    let found = glob-Shuffled extension all files shuffled in
    sort_names-Shuffled (named node_id extension d.segments) (glob extension files)
      (subst (λ x. Shuffled x (glob extension files))
        (glob-listing node_id d.partials d.segments flat) found)
      (named-Ascending node_id extension d.segments rising)
