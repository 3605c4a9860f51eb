-- ===== src/Messages/Known.antt =====
-- The messages that a deletion's alerts are about.
use undelete.Base.{
  ◌≡◌, subst, true, Option, some, List, [], ◌∷◌, String, ◌==◌, nat_comparable, string_comparable,
  map, All, arith, Bool-cases, Option-cases, inl, inr, if◌then◌else◌, if-both,
}
use undelete.Base.Int.{ℤ, int_comparable, int_beq_iff, ltb_ℤ, leb_ℤ}
use undelete.Base.Rows.{keep-holds, All-implies}
use undelete.Media.Catalogue.{File, Catalogue}
use undelete.Media.Queries.{
  mem_ℤ, is_before, insert_file, sort_files, select_stored, min_message, album_anchor,
}
use undelete.Messages.Store.{Message, DeletedRecord, returned, insert_record, sort_records}
use undelete.Messages.Media.{
  MediaGroup, or_empty, is_for, anchor_of, add_file, group_loop, group_media,
}

-- The anchors of the groups are messages of the files or albums' anchors.
module _ (P : ℤ → Type 0) where
  abbrev pub OfFile : File → Type 0
  OfFile f = P f.key.message

  insert_file-All :
      (f : File) (fs : List File) → OfFile f → All OfFile fs → All OfFile (insert_file f fs)
  insert_file-All f [] h a = (h, tt)
  insert_file-All f (g ∷ fs) h a =
      if-both (All OfFile) (is_before f g) _ _ (h, a) (a.0, insert_file-All f fs h a.1)

  pub sort_files-All : (fs : List File) → All OfFile fs → All OfFile (sort_files fs)
  sort_files-All [] a = tt
  sort_files-All (f ∷ fs) a = insert_file-All f (sort_files fs) a.0 (sort_files-All fs a.1)

  pub min_message-holds : (fs : List File) (m : ℤ) → All OfFile fs → min_message fs ≡ some m → P m
  min_message-holds [] m a e = absurd (ground arith)
  min_message-holds (f ∷ fs) m a e = elim (Option-cases (min_message fs)) [
    | inl none_left ↦
        let this : some f.key.message ≡ some m = rw none_left at e in
        let same : f.key.message ≡ m = cc in subst P same a.0
    | inr (n, one) ↦
        let this : some (if ltb_ℤ n f.key.message then n else f.key.message) ≡ some m =
          rw one at e in
        let same : (if ltb_ℤ n f.key.message then n else f.key.message) ≡ m = cc in
        subst P same (if-both P (ltb_ℤ n f.key.message) _ _ (min_message-holds fs n a.1 one) a.0)
  ]

  anchor_of-holds :
      (anchors : String → Option ℤ) (f : File)
      → ((id : String) (m : ℤ) → anchors id ≡ some m → P m)
      → OfFile f
      → P (anchor_of anchors f)
  anchor_of-holds anchors f h k =
      if-both P (or_empty f.media_group == "") _ _ k
        (elim (Option-cases (anchors (or_empty f.media_group))) [
          | inl e ↦ rw e k
          | inr (m, e) ↦ rw e (h (or_empty f.media_group) m e)
        ])

  abbrev pub Anchored : MediaGroup → Type 0
  Anchored g = P g.anchor

  add_file-Anchored :
      (anchors : String → Option ℤ) (f : File) (gs : List MediaGroup)
      → ((id : String) (m : ℤ) → anchors id ≡ some m → P m)
      → OfFile f
      → All Anchored gs
      → All Anchored (add_file anchors f gs)
  unfolding add_file
  add_file-Anchored anchors f [] h k a = (anchor_of-holds anchors f h k, tt)
  add_file-Anchored anchors f (g ∷ gs) h k a =
      if-both (All Anchored) (is_for f g) _ _ a (a.0, add_file-Anchored anchors f gs h k a.1)

  pub group_loop-Anchored :
      (anchors : String → Option ℤ) (fs : List File) (gs : List MediaGroup)
      → ((id : String) (m : ℤ) → anchors id ≡ some m → P m)
      → All OfFile fs
      → All Anchored gs
      → All Anchored (group_loop anchors fs gs)
  unfolding group_loop
  group_loop-Anchored anchors [] gs h k a = a
  group_loop-Anchored anchors (f ∷ fs) gs h k a =
      group_loop-Anchored anchors fs (add_file anchors f gs) h k.1
        (add_file-Anchored anchors f gs h k.0 a)

  -- So are those of one deletion, when its ids have the property.
  pub group_media-Anchored :
      (owner : ℤ) (connection : String) (chat : ℤ) (ids : List ℤ) (c : Catalogue)
      → ((m : ℤ) → mem_ℤ m ids ≡ true → P m)
      → All Anchored (
          group_media
            (select_stored owner connection chat ids c)
            (album_anchor owner connection chat ids c))
  unfolding group_media select_stored album_anchor
  group_media-Anchored owner connection chat ids c h =
      group_loop-Anchored _ _ []
        (λ id m e.
          min_message-holds _ m
            (All-implies _ OfFile _ (λ f t. h f.key.message (ground arith)) (keep-holds _ c.files))
            e)
        (sort_files-All _
          (All-implies _ OfFile _ (λ f t. h f.key.message (ground arith)) (keep-holds _ c.files)))
        tt

  abbrev pub OfRecord : DeletedRecord → Type 0
  OfRecord d = P d.message_id

  pub OfRecord-mem :
      (m : ℤ) (ds : List DeletedRecord)
      → All OfRecord ds
      → mem_ℤ m (map (λ (d : DeletedRecord). d.message_id) ds) ≡ true
      → P m
  OfRecord-mem m [] a h = absurd (ground arith)
  OfRecord-mem m (d ∷ ds) a h = elim (Bool-cases (d.message_id == m)) [
    | inl e ↦ subst P ((int_beq_iff d.message_id m).0 e) a.0
    | inr e ↦ OfRecord-mem m ds a.1 (rw e at h)
  ]

module _ (Q : DeletedRecord → Type 0) where
  insert_record-All :
      (d : DeletedRecord) (ds : List DeletedRecord) → Q d → All Q ds → All Q (insert_record d ds)
  insert_record-All d [] h a = (h, tt)
  insert_record-All d (e ∷ ds) h a =
      if-both (All Q) (leb_ℤ d.message_id e.message_id) _ _ (h, a)
        (a.0, insert_record-All d ds h a.1)

  pub sort_records-All : (ds : List DeletedRecord) → All Q ds → All Q (sort_records ds)
  unfolding sort_records
  sort_records-All [] a = tt
  sort_records-All (d ∷ ds) a = insert_record-All d (sort_records ds) a.0 (sort_records-All ds a.1)

  pub map-returned-All :
      (ms : List Message) → All (λ (m : Message). Q (returned m)) ms → All Q (map returned ms)
  map-returned-All [] a = tt
  map-returned-All (m ∷ ms) a = (a.0, map-returned-All ms a.1)
