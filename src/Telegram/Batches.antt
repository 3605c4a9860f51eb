-- ===== src/Telegram/Batches.antt =====
-- The batches of planMediaBatches and the items they are cut from.
use undelete.Base.{
  ℕ, suc, true, ◌≤◌, ◌≡◌, refl, subst, ap, ◌∙◌, false, Option, none, some, List, [], ◌∷◌, ◌++◌,
  String, ◌==◌, string_comparable, All, arith, Option-cases, inl, inr, ◌⊎◌, length, map, nat_beq,
}
use undelete.Base.Int.{ℤ}
use undelete.Media.Path.{FilePath}
use undelete.Telegram.Upload.{
  SendError, MediaAlertItem, Request, files, FileInfo, max_group_items, group_class, Placement,
  alone, opens, joins, place_item, flush, flushed_class, plan_loop, plan_media_batches, check_batch,
  send_batches,
}

abbrev pub concat : List (List MediaAlertItem) → List MediaAlertItem
concat [] = []
concat (b ∷ bs) = b ++ concat bs

-- One to ten items that may stand in one album.
abbrev pub IsGroup : String → List MediaAlertItem → Type 0
IsGroup class b =
    (1 ≤ length b)
    × (length b ≤ max_group_items)
    × (class == "" ≡ false)
    × All (λ (i : MediaAlertItem). group_class i.kind ≡ class) b

-- What one call may send: a single item, or a group.
abbrev pub IsBatch : List MediaAlertItem → Type 0
IsBatch b = (length b ≡ 1) ⊎ ((class : String) × IsGroup class b)

-- What is known of the current group.
abbrev IsCurrent : List MediaAlertItem → String → Type 0
IsCurrent current class = (current ≡ []) ⊎ IsGroup class current

append_assoc : (a b c : List MediaAlertItem) → (a ++ b) ++ c ≡ a ++ (b ++ c)
append_assoc [] b c = refl
append_assoc (x ∷ a) b c = ap (λ l. x ∷ l) (append_assoc a b c)

length-append_one :
    (a : List MediaAlertItem) (x : MediaAlertItem) → length (a ++ x ∷ []) ≡ suc (length a)
length-append_one [] x = refl
length-append_one (y ∷ a) x = ap suc (length-append_one a x)

concat-flush :
    (current : List MediaAlertItem) (bs : List (List MediaAlertItem))
    → concat (flush current bs) ≡ current ++ concat bs
unfolding flush
concat-flush [] bs = refl
concat-flush (i ∷ current) bs = refl

append_nil : (a : List MediaAlertItem) → a ++ [] ≡ a
append_nil [] = refl
append_nil (x ∷ a) = ap (λ l. x ∷ l) (append_nil a)

Placement-cases : (p : Placement) → (p ≡ alone) ⊎ ((p ≡ opens) ⊎ (p ≡ joins))
Placement-cases alone = inl refl
Placement-cases opens = inr (inl refl)
Placement-cases joins = inr (inr refl)

concat-plan_loop :
    (current : List MediaAlertItem) (class : String) (items : List MediaAlertItem)
    → concat (plan_loop current class items) ≡ current ++ items
unfolding plan_loop
concat-plan_loop current class [] = concat-flush current []
concat-plan_loop current class (item ∷ items) =
    elim (Placement-cases (place_item current class item)) [
      | inl e ↦
          rw (e, plan_loop)
            (concat-flush current _
              ∙ ap (λ l. current ++ item ∷ l)
                  (concat-plan_loop [] (flushed_class current class) items))
      | inr (inl e) ↦
          rw (e, plan_loop)
            (concat-flush current _
              ∙ ap (λ l. current ++ l) (concat-plan_loop (item ∷ []) (group_class item.kind) items))
      | inr (inr e) ↦
          rw (e, plan_loop)
            (concat-plan_loop (current ++ item ∷ []) class items
              ∙ append_assoc current (item ∷ []) items)
    ]

flush-IsBatch :
    (current : List MediaAlertItem) (class : String) (bs : List (List MediaAlertItem))
    → IsCurrent current class
    → All IsBatch bs
    → All IsBatch (flush current bs)
unfolding flush
flush-IsBatch [] class bs h k = k
flush-IsBatch (i ∷ current) class bs (inl e) k = absurd cc
flush-IsBatch (i ∷ current) class bs (inr g) k = (inr (class, g), k)

All-append_one :
    (P : MediaAlertItem → Type 0) (a : List MediaAlertItem) (x : MediaAlertItem)
    → All P a
    → P x
    → All P (a ++ x ∷ [])
All-append_one P [] x h p = (p, tt)
All-append_one P (y ∷ a) x h p = (h.0, All-append_one P a x h.1 p)

-- The group that an item may be put into.
grown-IsGroup :
    (current : List MediaAlertItem) (class : String) (item : MediaAlertItem)
    → place_item current class item ≡ joins
    → IsCurrent current class
    → IsGroup class (current ++ item ∷ [])
unfolding place_item
grown-IsGroup current class item e h =
    let named : group_class item.kind == "" ≡ false = ground (arith, e) in
    let same : group_class item.kind == class ≡ true = ground (arith, e) in
    let room : nat_beq (length current) max_group_items ≡ false = ground (arith, e) in
    let equal = (string_comparable.equals_iff (group_class item.kind) class).0 same in
    let grown = length-append_one current item in
    elim h [
      | inl none_yet ↦
          rw none_yet
            (omega arith, omega arith, subst (λ c. c == "" ≡ false) equal named, (equal, tt))
      | inr g ↦ (
        omega (arith, grown),
        ground (arith, grown, room, g.1),
        g.2,
        All-append_one _ current item g.3 equal,
      )
    ]

opens-named :
    (current : List MediaAlertItem) (class : String) (item : MediaAlertItem)
    → place_item current class item ≡ opens
    → group_class item.kind == "" ≡ false
unfolding place_item
opens-named current class item e = ground (arith, e)

plan_loop-IsBatch :
    (current : List MediaAlertItem) (class : String) (items : List MediaAlertItem)
    → IsCurrent current class
    → All IsBatch (plan_loop current class items)
unfolding plan_loop
plan_loop-IsBatch current class [] h = flush-IsBatch current class [] h tt
plan_loop-IsBatch current class (item ∷ items) h =
    elim (Placement-cases (place_item current class item)) [
      | inl e ↦
          rw (e, plan_loop)
            (flush-IsBatch current class _ h
              (inl refl, plan_loop-IsBatch [] (flushed_class current class) items (inl refl)))
      | inr (inl e) ↦
          rw (e, plan_loop)
            (flush-IsBatch current class _ h (
              plan_loop-IsBatch (item ∷ []) (group_class item.kind) items
                (inr (omega arith, omega arith, opens-named current class item e, (refl, tt)))))
      | inr (inr e) ↦
          rw (e, plan_loop)
            (plan_loop-IsBatch (current ++ item ∷ []) class items
              (inr (grown-IsGroup current class item e h)))
    ]

-- The batches are the items, in their order, and each may be one call.
pub plan_media_batches_lem :
    (items : List MediaAlertItem)
    → (concat (plan_media_batches items) ≡ items) × All IsBatch (plan_media_batches items)
unfolding plan_media_batches
plan_media_batches_lem items =
    (concat-plan_loop [] "" items, plan_loop-IsBatch [] "" items (inl refl))

-- The requests of `sent` are the first of the batches.
abbrev pub IsPartOf : ℤ → List Request → List (List MediaAlertItem) → Type 0
IsPartOf chat sent batches = (left : List Request) × (sent ++ left ≡ map (files chat) batches)

-- The calls that succeeded are the first batches, and all of them when the loop succeeds.
abbrev pub Uploaded : ℤ → List (List MediaAlertItem) → Option SendError × List Request → Type 0
Uploaded chat batches (none, sent) = sent ≡ map (files chat) batches
Uploaded chat batches (some e, sent) = IsPartOf chat sent batches

pub send_batches-Uploaded :
    (lstat : FilePath → Option FileInfo) (answer : ℕ → Option SendError) (chat : ℤ) (index : ℕ)
    (batches : List (List MediaAlertItem))
    → Uploaded chat batches (send_batches lstat answer chat index batches)
unfolding send_batches
send_batches-Uploaded lstat answer chat index [] = refl
send_batches-Uploaded lstat answer chat index (b ∷ bs) = elim (Option-cases (check_batch lstat b)) [
  | inr (e, c) ↦ rw (c, send_batches) (map (files chat) (b ∷ bs), refl)
  | inl c ↦ elim (Option-cases (answer index)) [
    | inr (e, a) ↦ rw (c, send_batches, a) (map (files chat) (b ∷ bs), refl)
    | inl a ↦
        rw (c, send_batches, a)
          (one_more (send_batches lstat answer chat (suc index) bs)
            (send_batches-Uploaded lstat answer chat (suc index) bs))
  ]
]
  where
    one_more :
        (r : Option SendError × List Request)
        → Uploaded chat bs r
        → Uploaded chat (b ∷ bs) (r.0, files chat b ∷ r.1)
    one_more (none, sent) h = ap (λ l. files chat b ∷ l) h
    one_more (some e, sent) (left, h) = (left, ap (λ l. files chat b ∷ l) h)
