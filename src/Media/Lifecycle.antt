-- ===== src/Media/Lifecycle.antt =====
-- The states of a catalogued file: what is on disk, one row for each key, and redeliveries.
use undelete.Base.{
  ℕ, ◌≤◌, ◌≡◌, refl, Bool, true, false, ◌&&◌, not, Option, none, some, List, [], ◌∷◌, ◌==◌,
  nat_comparable, string_comparable, keep, nat_beq, is_some, All, arith, if-both, Bool-cases,
  Option-cases, inl, inr,
}
use undelete.Base.Int.{ℤ, int_comparable, int_beq_iff}
use undelete.Base.Rows.{
  count_where, set_where-All, keep-All, append-All, count-set_where, count-append,
  count-remove_where-le, count-same,
}
use undelete.Media.Path.{FilePath, validate_relative_path}
use undelete.Media.Hash.{validate_sha256}
use undelete.Media.Catalogue.{
  Status, pending, stored, purged, MediaKey, Record, File, StoredFile, Catalogue, MediaError, owned,
  same_key, fresh_file, refreshed, save, update, validate_thumbnail, stored_row, mark_stored,
  purged_row, mark_purged, requeued_row, mark_pending_retry, null_if_no_path,
}
use undelete.Media.Queries.{delete_batch, page, is_among}

abbrev pub is_plain_path : Option FilePath → Bool
is_plain_path none = false
is_plain_path (some p) = not (is_some (validate_relative_path p))

abbrev pub is_plain_thumbnail : Option FilePath → Bool
is_plain_thumbnail none = true
is_plain_thumbnail (some p) = not (is_some (validate_relative_path p))

abbrev pub is_valid_hash : Option (List ℕ) → Bool
is_valid_hash none = false
is_valid_hash (some h) = not (is_some (validate_sha256 h))

-- What a row says of the disk fits its status.
abbrev pub is_sound : Status → Option FilePath → Option FilePath → Option (List ℕ) → Bool
is_sound pending path thumbnail hash =
    not (is_some path) && (not (is_some thumbnail) && not (is_some hash))
is_sound purged path thumbnail hash = not (is_some path) && not (is_some thumbnail)
is_sound stored path thumbnail hash =
    is_plain_path path && (is_plain_thumbnail thumbnail && is_valid_hash hash)

abbrev pub IsSound : File → Type 0
IsSound f = is_sound f.status f.relative_path f.thumbnail f.sha256 ≡ true

-- Every row is sound.
abbrev pub AreSound : Catalogue → Type 0
AreSound c = All IsSound c.files

update-AreSound :
    (owner : ℤ) (id : ℕ) (change : File → File) (c : Catalogue)
    → ((f : File) → IsSound f → IsSound (change f))
    → AreSound c
    → AreSound (update owner id change c).0
unfolding update
update-AreSound owner id change c keeps h =
    if-both (λ (r : Catalogue × Option MediaError). AreSound (r.0))
      (nat_beq (count_where (λ f. owned owner f && (f.id == id)) c.files) 0) _ _ h
      (set_where-All IsSound _ change c.files keeps h)

save-AreSound :
    (now : ℕ) (k : MediaKey) (m : Record) (c : Catalogue) → AreSound c → AreSound (save now k m c).0
unfolding save
save-AreSound now k m c h = go (keep (same_key k) c.files) refl
  where
    go : (fs : List File) → keep (same_key k) c.files ≡ fs → AreSound (save now k m c).0
    go [] e =
        rw (e, save) (append-All IsSound c.files (fresh_file c.next_id now k m ∷ []) h (refl, tt))
    go (f ∷ fs) e = rw (e, save) (set_where-All IsSound _ (refreshed now m) c.files (λ g s. s) h)

thumbnail-plain :
    (p : FilePath) → validate_thumbnail p ≡ none → is_plain_thumbnail (null_if_no_path p) ≡ true
thumbnail-plain [] e = refl
thumbnail-plain (b ∷ p) e = rw e refl

-- A change to `stored` is refused, or is an update after three checks.
mark_stored-cases :
    (P : Catalogue → Type 0) (now : ℕ) (owner : ℤ) (id : ℕ) (s : StoredFile) (c : Catalogue)
    → P c
    → (validate_relative_path s.relative_path ≡ none
        → validate_thumbnail s.thumbnail ≡ none
        → validate_sha256 s.sha256 ≡ none
        → P (update owner id (stored_row now s) c).0)
    → P (mark_stored now owner id s c).0
unfolding mark_stored
mark_stored-cases P now owner id s c h k =
    elim (Option-cases (validate_relative_path s.relative_path)) [
      | inr (e, p) ↦ rw (p, mark_stored) h
      | inl p ↦ elim (Option-cases (validate_thumbnail s.thumbnail)) [
        | inr (e, q) ↦ rw (p, mark_stored, q) h
        | inl q ↦ elim (Option-cases (validate_sha256 s.sha256)) [
          | inr (e, r) ↦ rw (p, mark_stored, q, r) h
          | inl r ↦ rw (p, mark_stored, q, r) (k p q r)
        ]
      ]
    ]

mark_stored-AreSound :
    (now : ℕ) (owner : ℤ) (id : ℕ) (s : StoredFile) (c : Catalogue)
    → AreSound c
    → AreSound (mark_stored now owner id s c).0
mark_stored-AreSound now owner id s c h = mark_stored-cases AreSound now owner id s c h (λ p q r.
    update-AreSound owner id (stored_row now s) c
      (λ f sound. rw (p, thumbnail-plain s.thumbnail q, r) refl) h)

-- One statement that changes the catalogue, with its arguments.
pub data Statement : Type 0 where
  save_file : ℕ → MediaKey → Record → Statement
  store_file : ℕ → ℤ → ℕ → StoredFile → Statement
  purge_file requeue_file : ℕ → ℤ → ℕ → Statement
  delete_files : ℤ → (File → Bool) → ℕ → Statement

unfoldable pub perform : Statement → Catalogue → Catalogue
perform (save_file now k m) c = (save now k m c).0
perform (store_file now owner id s) c = (mark_stored now owner id s c).0
perform (purge_file now owner id) c = (mark_purged now owner id c).0
perform (requeue_file now owner id) c = (mark_pending_retry now owner id c).0
perform (delete_files owner p limit) c = (delete_batch owner p limit c).0

unfoldable pub perform_all : List Statement → Catalogue → Catalogue
perform_all [] c = c
perform_all (s ∷ ss) c = perform_all ss (perform s c)

perform-AreSound : (s : Statement) (c : Catalogue) → AreSound c → AreSound (perform s c)
unfolding perform mark_purged mark_pending_retry delete_batch
perform-AreSound (save_file now k m) c h = save-AreSound now k m c h
perform-AreSound (store_file now owner id s) c h = mark_stored-AreSound now owner id s c h
perform-AreSound (purge_file now owner id) c h =
    update-AreSound owner id (purged_row now) c (λ f s. refl) h
perform-AreSound (requeue_file now owner id) c h =
    update-AreSound owner id (requeued_row now) c (λ f s. refl) h
perform-AreSound (delete_files owner p limit) c h = keep-All IsSound _ c.files h

perform_all-keeps :
    (P : Catalogue → Type 0) (ss : List Statement) (c : Catalogue)
    → ((s : Statement) (c : Catalogue) → P c → P (perform s c))
    → P c
    → P (perform_all ss c)
unfolding perform_all
perform_all-keeps P [] c keeps h = h
perform_all-keeps P (s ∷ ss) c keeps h = perform_all-keeps P ss (perform s c) keeps (keeps s c h)

abbrev pub no_files : Catalogue
no_files = record { files = []; next_id = 1 }

-- One row for each key.
abbrev pub IsUnique : Catalogue → Type 0
IsUnique c = (k : MediaKey) → count_where (same_key k) c.files ≤ 1

-- A row that has two keys makes them one.
same_key-same : (k : MediaKey) (f g : File) → same_key k f ≡ true → same_key k g ≡ same_key f.key g
same_key-same k f g h =
    let owner : f.key.owner ≡ k.owner = (int_beq_iff f.key.owner k.owner).0 (ground arith) in
    let connection : f.key.connection ≡ k.connection =
      (string_comparable.equals_iff f.key.connection k.connection).0 (ground arith) in
    let chat : f.key.chat ≡ k.chat = (int_beq_iff f.key.chat k.chat).0 (ground arith) in
    let message : f.key.message ≡ k.message =
      (int_beq_iff f.key.message k.message).0 (ground arith) in
    let index : f.key.file_index ≡ k.file_index =
      (int_beq_iff f.key.file_index k.file_index).0 (ground arith) in
    rw (owner, connection, chat, message, index) refl

update-IsUnique :
    (owner : ℤ) (id : ℕ) (change : File → File) (c : Catalogue)
    → ((f : File) (k : MediaKey) → same_key k (change f) ≡ same_key k f)
    → IsUnique c
    → IsUnique (update owner id change c).0
unfolding update
update-IsUnique owner id change c keeps h k =
    if-both (λ (r : Catalogue × Option MediaError). count_where (same_key k) ((r.0).files) ≤ 1)
      (nat_beq (count_where (λ f. owned owner f && (f.id == id)) c.files) 0) _ _ (h k)
      (rw
        (count-set_where (same_key k) (λ f. owned owner f && (f.id == id)) change c.files
          (λ f. keeps f k))
        (h k))

save-IsUnique :
    (now : ℕ) (k : MediaKey) (m : Record) (c : Catalogue) → IsUnique c → IsUnique (save now k m c).0
unfolding save
save-IsUnique now k m c h j = go (keep (same_key k) c.files) refl
  where
    go :
        (fs : List File)
        → keep (same_key k) c.files ≡ fs
        → count_where (same_key j) (save now k m c).0.files ≤ 1
    go [] e =
        let fresh = fresh_file c.next_id now k m in
        let no_row : count_where (same_key k) c.files ≡ 0 = rw e refl in
        elim (Bool-cases (same_key j fresh)) [
          | inl same ↦
              rw
                (
                  e,
                  save,
                  count-append (same_key j) c.files fresh,
                  count-same (same_key j) (same_key k) c.files (λ g. same_key-same j fresh g same),
                  same,
                )
                (omega (arith, no_row))
          | inr other ↦
              let below = h j in
              rw (e, save, count-append (same_key j) c.files fresh, other) (omega (arith, below))
        ]
    go (f ∷ fs) e =
        rw
          (e, save, count-set_where (same_key j) (same_key k) (refreshed now m) c.files (λ g. refl))
          (h j)

perform-IsUnique : (s : Statement) (c : Catalogue) → IsUnique c → IsUnique (perform s c)
unfolding perform mark_purged mark_pending_retry delete_batch
perform-IsUnique (save_file now k m) c h = save-IsUnique now k m c h
perform-IsUnique (store_file now owner id s) c h =
    mark_stored-cases IsUnique now owner id s c h
      (λ p q r. update-IsUnique owner id (stored_row now s) c (λ f k. refl) h)
perform-IsUnique (purge_file now owner id) c h =
    update-IsUnique owner id (purged_row now) c (λ f k. refl) h
perform-IsUnique (requeue_file now owner id) c h =
    update-IsUnique owner id (requeued_row now) c (λ f k. refl) h
perform-IsUnique (delete_files owner p limit) c h = λ k.
    let fewer =
      count-remove_where-le (same_key k)
        (λ f. owned owner f && is_among (page (λ g. owned owner g && p g) limit c) f) c.files in
    let at_most = h k in omega (arith, fewer, at_most)

-- Whatever statements run from the empty table on: every row's paths and hash fit its status
-- (a stored row has a path and a hash that the checks accept and no other row has a path), and there
-- is at most one row for each key.
pub perform_all_sound :
    (ss : List Statement) → AreSound (perform_all ss no_files) × IsUnique (perform_all ss no_files)
perform_all_sound ss = (
  perform_all-keeps AreSound ss no_files perform-AreSound tt,
  perform_all-keeps IsUnique ss no_files perform-IsUnique (λ k. omega arith),
)
