-- ===== src/Media/Queries.antt =====
-- bot/internal/media/repository.go: the reads of media_files and its batched deletions. A period is
-- in nanoseconds but for the days of a retention, of 86400 s each as for the database's UTC clock.
use undelete.Base.{
  ℕ, ◌+◌, ◌*◌, ◌^◌, Bool, true, false, ◌&&◌, ◌||◌, Option, none, some, List, [], ◌∷◌, String,
  if◌then◌else◌, ltb, ◌==◌, nat_comparable, string_comparable, keep, nat_beq, is_some,
}
use undelete.Base.Int.{ℤ, int_comparable, ltb_ℤ, leb_ℤ}
use undelete.Base.Rows.{remove_where, count_where, order_by, limit_to, any_where}
use undelete.Media.Catalogue.{pending, stored, purged, status_beq, File, Catalogue, owned}

abbrev pub day : ℕ
day = 86400 * 10 ^ 9

abbrev pub mem_ℤ : ℤ → List ℤ → Bool
mem_ℤ n ms = any_where (λ m. m == n) ms

-- `x < now - period`, for instants since 1970.
abbrev pub is_older : ℕ → ℕ → ℕ → Bool
is_older now period x = ltb (x + period) now

-- `ORDER BY id LIMIT n` on the rows of a WHERE clause.
unfoldable pub page : (File → Bool) → ℕ → Catalogue → List File
page p limit c = limit_to limit (order_by (λ f. f.id) (keep p c.files))

unfoldable pub list_pending : ℤ → ℕ → Catalogue → List File
list_pending owner limit c = page (λ f. owned owner f && status_beq f.status pending) limit c

unfoldable pub list_expired_stored : ℕ → ℤ → ℕ → ℕ → ℕ → Catalogue → List File
list_expired_stored now owner after days limit c =
    page
      (λ f.
        owned owner f
        && (status_beq f.status stored
            && (ltb after f.id && is_older now (days * day) f.created_at)))
      limit c

unfoldable pub list_stored_page : ℤ → ℕ → ℕ → Catalogue → List File
list_stored_page owner after limit c =
    page (λ f. owned owner f && (status_beq f.status stored && ltb after f.id)) limit c

unfoldable pub list_tenant_page : ℤ → ℕ → ℕ → Catalogue → List File
list_tenant_page owner after limit c = page (λ f. owned owner f && ltb after f.id) limit c

-- `id IN (SELECT id …)`.
abbrev pub is_among : List File → File → Bool
is_among fs f = any_where (λ g. nat_beq g.id f.id) fs

-- `DELETE … WHERE id IN (SELECT … ORDER BY id LIMIT n)`, and how many went.
unfoldable pub delete_batch : ℤ → (File → Bool) → ℕ → Catalogue → Catalogue × ℕ
delete_batch owner p limit c =
    let gone =
      λ (f : File). owned owner f && is_among (page (λ g. owned owner g && p g) limit c) f in
    (record c { files = remove_where gone c.files }, count_where gone c.files)

unfoldable pub delete_tenant_batch : ℤ → ℕ → Catalogue → Catalogue × ℕ
delete_tenant_batch owner limit c = delete_batch owner (λ f. true) limit c

abbrev pub is_stale_pending : ℕ → ℕ → ℕ → File → Bool
is_stale_pending now max_age days f =
    status_beq f.status pending
    && (is_older now (days * day) f.created_at
        || (is_older now max_age f.created_at && is_older now max_age f.updated_at))

unfoldable pub delete_stale_pending : ℕ → ℤ → ℕ → ℕ → ℕ → Catalogue → Catalogue × ℕ
delete_stale_pending now owner max_age days limit c =
    delete_batch owner (is_stale_pending now max_age days) limit c

abbrev pub is_old_purged : ℕ → ℕ → ℕ → File → Bool
is_old_purged now grace days f =
    status_beq f.status purged
    && (is_older now (days * day) f.created_at && is_older now grace f.updated_at)

unfoldable pub delete_purged : ℕ → ℤ → ℕ → ℕ → ℕ → Catalogue → Catalogue × ℕ
delete_purged now owner grace days limit c =
    delete_batch owner (is_old_purged now grace days) limit c

-- The rows of one chat under a batch of message ids.
abbrev pub of_messages : ℤ → String → ℤ → List ℤ → File → Bool
of_messages owner connection chat ids f =
    owned owner f
    && ((f.key.connection == connection) && ((f.key.chat == chat) && mem_ℤ f.key.message ids))

-- `(message_id, file_index)` in ascending order.
abbrev pub is_before : File → File → Bool
is_before f g =
    ltb_ℤ f.key.message g.key.message
    || ((f.key.message == g.key.message) && leb_ℤ f.key.file_index g.key.file_index)

abbrev pub insert_file : File → List File → List File
insert_file f [] = f ∷ []
insert_file f (g ∷ fs) =
    let rest = insert_file f fs in if is_before f g then f ∷ g ∷ fs else g ∷ rest

abbrev pub sort_files : List File → List File
sort_files [] = []
sort_files (f ∷ fs) = insert_file f (sort_files fs)

unfoldable pub select_stored : ℤ → String → ℤ → List ℤ → Catalogue → List File
select_stored owner connection chat ids c = sort_files (
    keep
      (λ f.
        of_messages owner connection chat ids f
        && (status_beq f.status stored && is_some f.relative_path))
      c.files)

unfoldable pub get_by_message : ℤ → String → ℤ → ℤ → Catalogue → List File
get_by_message owner connection chat message c =
    sort_files (keep (of_messages owner connection chat (message ∷ [])) c.files)

-- `MIN(message_id)` of a group that may be empty.
abbrev pub min_message : List File → Option ℤ
min_message [] = none
min_message (f ∷ fs) = elim (min_message fs) [
  | none ↦ some f.key.message
  | some m ↦ some (if ltb_ℤ m f.key.message then m else f.key.message)
]

abbrev pub in_group : String → File → Bool
in_group group f = elim f.media_group [ none ↦ false | some g ↦ g == group ]

-- The anchor of one album: what `SelectAlbumAnchorsTx` maps its id to.
unfoldable pub album_anchor : ℤ → String → ℤ → List ℤ → Catalogue → String → Option ℤ
album_anchor owner connection chat ids c group =
    min_message (keep (λ f. of_messages owner connection chat ids f && in_group group f) c.files)
