-- ===== src/Messages/Groups.antt =====
-- groupMedia and the partition of the files by album or message.
use undelete.Base.{
  suc, ◌≤◌, ◌≡◌, refl, sym, ap, subst, ◌∙◌, Bool, true, false, Option, List, [], ◌∷◌, ◌++◌, String,
  ◌==◌, string_comparable, keep, All, arith, Bool-cases, inl, inr, if-split, ==-refl, nat_beq,
  nat_beq_iff,
}
use mathlib.Core.List.{append_assoc}
use undelete.Base.Int.{ℤ, int_comparable, int_beq_iff}
use undelete.Base.Rows.{
  count_where, set_where, set_where-none, count-set_where, count-append, count-same, All-implies,
  append-All,
}
use undelete.Media.Catalogue.{File}
use undelete.Messages.Media.{
  MediaGroup, or_empty, is_for, new_group, join, add_file, group_loop, group_media,
}

add_file-new :
    (anchors : String → Option ℤ) (f : File) (gs : List MediaGroup)
    → count_where (is_for f) gs ≡ 0
    → add_file anchors f gs ≡ gs ++ new_group anchors f ∷ []
unfolding add_file
add_file-new anchors f [] h = refl
add_file-new anchors f (g ∷ gs) h = elim (Bool-cases (is_for f g)) [
  | inl e ↦ let full = rw e at h in absurd (omega (arith, full))
  | inr e ↦ rw e (ap (λ rest. g ∷ rest) (add_file-new anchors f gs (rw e at h)))
]

add_file-joined :
    (anchors : String → Option ℤ) (f : File) (gs : List MediaGroup)
    → count_where (is_for f) gs ≡ 1
    → add_file anchors f gs ≡ set_where (is_for f) (join f) gs
unfolding add_file
add_file-joined anchors f [] h = absurd (omega (arith, h))
add_file-joined anchors f (g ∷ gs) h = elim (Bool-cases (is_for f g)) [
  | inl e ↦
      let one : suc (count_where (is_for f) gs) ≡ 1 = rw e at h in
      rw (e, set_where-none (is_for f) (join f) gs (omega (arith, one))) refl
  | inr e ↦ rw e (ap (λ rest. g ∷ rest) (add_file-joined anchors f gs (rw e at h)))
]

-- A file is for the group that it opens.
is_for-new : (anchors : String → Option ℤ) (f : File) → is_for f (new_group anchors f) ≡ true
is_for-new anchors f = elim (Bool-cases (or_empty f.media_group == "")) [
  | inl e ↦ rw (e, ==-refl f.key.message) refl
  | inr e ↦ rw (e, ==-refl (or_empty f.media_group)) refl
]

-- What is for a group that another file opens goes where that file goes.
is_for-same :
    (anchors : String → Option ℤ) (f h : File) (g : MediaGroup)
    → is_for h (new_group anchors f) ≡ true
    → is_for h g ≡ is_for f g
is_for-same anchors f h g e =
    let a = or_empty f.media_group in
    let b = or_empty h.media_group in
    elim (Bool-cases (a == "")) [
      | inl f_alone ↦ elim (Bool-cases (b == "")) [
        | inl h_alone ↦
            let message : (f.key.message == h.key.message) ≡ true = rw (h_alone, f_alone) at e in
            rw (h_alone, f_alone, (int_beq_iff f.key.message h.key.message).0 message) refl
        | inr h_album ↦
            let same : (a == b) ≡ true = rw h_album at e in
            let equal : a ≡ b = (string_comparable.equals_iff a b).0 same in
            let clash : (b == "") ≡ true = rw equal at f_alone in cc
      ]
      | inr f_album ↦ elim (Bool-cases (b == "")) [
        | inl h_alone ↦ let clash : false ≡ true = rw (h_alone, f_album) at e in cc
        | inr h_album ↦
            let same : (a == b) ≡ true = rw h_album at e in
            rw (h_album, f_album, (string_comparable.equals_iff a b).0 same) refl
      ]
    ]

keep-append :
    (p : File → Bool) (fs : List File) (f : File)
    → keep p (fs ++ f ∷ []) ≡ keep p fs ++ keep p (f ∷ [])
keep-append p [] f = refl
keep-append p (g ∷ fs) f = elim (Bool-cases (p g)) [
  | inl e ↦ rw e (ap (λ rest. g ∷ rest) (keep-append p fs f))
  | inr e ↦ rw e (keep-append p fs f)
]

append-empty : (fs : List File) → fs ++ [] ≡ fs
append-empty [] = refl
append-empty (f ∷ fs) = ap (λ rest. f ∷ rest) (append-empty fs)

abbrev Holds : List File → MediaGroup → Type 0
Holds seen g = g.files ≡ keep (λ f. is_for f g) seen

-- The groups of the files that the loop has seen.
record Grouped (seen : List File) (groups : List MediaGroup) : Type 0 where
  holds : All (Holds seen) groups
  placed : All (λ (f : File). count_where (is_for f) groups ≡ 1) seen
  once : (f : File) → count_where (is_for f) groups ≤ 1

joined-Holds :
    (f : File) (seen : List File) (gs : List MediaGroup)
    → All (Holds seen) gs
    → All (Holds (seen ++ f ∷ [])) (set_where (is_for f) (join f) gs)
joined-Holds f seen [] a = tt
joined-Holds f seen (g ∷ gs) a = (
  if-split (Holds (seen ++ f ∷ [])) (is_for f g) _ _
      (λ e. rw (keep-append (λ h. is_for h g) seen f, e, a.0) refl)
      (λ e. rw (keep-append (λ h. is_for h g) seen f, e) (a.0 ∙ sym (append-empty _))),
  joined-Holds f seen gs a.1,
)

others-Holds :
    (f : File) (seen : List File) (gs : List MediaGroup)
    → count_where (is_for f) gs ≡ 0
    → All (Holds seen) gs
    → All (Holds (seen ++ f ∷ [])) gs
others-Holds f seen [] h a = tt
others-Holds f seen (g ∷ gs) h a = elim (Bool-cases (is_for f g)) [
  | inl e ↦ let full = rw e at h in absurd (omega (arith, full))
  | inr e ↦ (
    rw (keep-append (λ h. is_for h g) seen f, e) (a.0 ∙ sym (append-empty _)),
    others-Holds f seen gs (rw e at h) a.1,
  )
]

keep-none : (p : File → Bool) (fs : List File) → All (λ (f : File). p f ≡ false) fs → keep p fs ≡ []
keep-none p [] a = refl
keep-none p (f ∷ fs) a = rw a.0 (keep-none p fs a.1)

add_file-Grouped_joined :
    (anchors : String → Option ℤ) (f : File) (seen : List File) (groups : List MediaGroup)
    → Grouped seen groups
    → count_where (is_for f) groups ≡ 1
    → Grouped (seen ++ f ∷ []) (add_file anchors f groups)
add_file-Grouped_joined anchors f seen groups h one =
    let kept = λ (x : File). count-set_where (is_for x) (is_for f) (join f) groups (λ g. refl) in
    rw (add_file-joined anchors f groups one) (record {
      holds = joined-Holds f seen groups h.holds;
      placed =
          append-All _ seen (f ∷ []) (All-implies _ _ seen (λ x e. kept x ∙ e) h.placed)
            (kept f ∙ one, tt);
      once = λ x. rw (kept x) (h.once x);
    })

add_file-Grouped_new :
    (anchors : String → Option ℤ) (f : File) (seen : List File) (groups : List MediaGroup)
    → Grouped seen groups
    → count_where (is_for f) groups ≡ 0
    → Grouped (seen ++ f ∷ []) (add_file anchors f groups)
add_file-Grouped_new anchors f seen groups h free =
    let new = new_group anchors f in
    let grown = λ (x : File). count-append (is_for x) groups new in
    let moved : (x : File) → is_for x new ≡ true → count_where (is_for x) groups ≡ 0 =
      λ x e. count-same (is_for x) (is_for f) groups (λ g. is_for-same anchors f x g e) ∙ free in
    let apart : All (λ (x : File). is_for x new ≡ false) seen =
      All-implies _ _ seen
        (λ x e. elim (Bool-cases (is_for x new)) [
          | inl t ↦ let gone = moved x t in absurd (omega (arith, gone, e))
          | inr t ↦ t
        ])
        h.placed in
    rw (add_file-new anchors f groups free) (record {
      holds = append-All _ groups (new ∷ []) (others-Holds f seen groups free h.holds) (
        rw (keep-append (λ x. is_for x new) seen f, keep-none _ seen apart, is_for-new anchors f)
            refl,
        tt,
      );
      placed =
          append-All _ seen (f ∷ [])
            (All-implies _ _ seen
              (λ x e. elim (Bool-cases (is_for x new)) [
                | inl t ↦ let gone = moved x t in absurd (omega (arith, gone, e))
                | inr t ↦ rw (grown x, t) (omega (arith, e))
              ])
              h.placed)
            (rw (grown f, is_for-new anchors f) (omega (arith, free)), tt);
      once = λ x. elim (Bool-cases (is_for x new)) [
        | inl t ↦ let gone = moved x t in rw (grown x, t) (omega (arith, gone))
        | inr t ↦ let few = h.once x in rw (grown x, t) (omega (arith, few))
      ];
    })

add_file-Grouped :
    (anchors : String → Option ℤ) (f : File) (seen : List File) (groups : List MediaGroup)
    → Grouped seen groups
    → Grouped (seen ++ f ∷ []) (add_file anchors f groups)
add_file-Grouped anchors f seen groups h =
    elim (Bool-cases (nat_beq (count_where (is_for f) groups) 1)) [
      | inl one ↦
          add_file-Grouped_joined anchors f seen groups h
            ((nat_beq_iff (count_where (is_for f) groups) 1).0 one)
      | inr other ↦
          let most = h.once f in
          add_file-Grouped_new anchors f seen groups h (ground (arith, other, most))
    ]

group_loop-Grouped :
    (anchors : String → Option ℤ) (fs seen : List File) (groups : List MediaGroup)
    → Grouped seen groups
    → Grouped (seen ++ fs) (group_loop anchors fs groups)
unfolding group_loop
group_loop-Grouped anchors [] seen groups h =
    subst (λ (all : List File). Grouped all groups) (sym (append-empty seen)) h
group_loop-Grouped anchors (f ∷ fs) seen groups h =
    subst (λ (all : List File). Grouped all (group_loop anchors fs (add_file anchors f groups)))
      (append_assoc seen (f ∷ []) fs)
      (group_loop-Grouped anchors fs (seen ++ f ∷ []) (add_file anchors f groups)
        (add_file-Grouped anchors f seen groups h))

-- Whatever the anchors: each group holds exactly the files of its album, or of its message when it
-- has no album, in the order given, and each file has exactly one such group.
pub group_media_lem :
    (files : List File) (anchors : String → Option ℤ)
    → let groups = group_media files anchors in
      All (λ (g : MediaGroup). g.files ≡ keep (λ f. is_for f g) files) groups
      × All (λ (f : File). count_where (is_for f) groups ≡ 1) files
unfolding group_media
group_media_lem files anchors =
    let grouped =
      group_loop-Grouped anchors files [] []
        (record { holds = tt; placed = tt; once = λ f. omega arith }) in
    (grouped.holds, grouped.placed)
