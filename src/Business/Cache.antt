-- ===== src/Business/Cache.antt =====
-- bot/internal/business/cache.go: the bounded, expiring, least-recently-used cache of connections.
-- The recency list `order` is the state; the index `byID` is the search of it by id. Instants are
-- numbers of nanoseconds, and each operation takes the reading of `c.now()` as an argument.
use undelete.Base.{
  ℕ, ◌+◌, ◌*◌, ◌^◌, Bool, false, not, Option, none, some, List, [], ◌∷◌, if◌then◌else◌, ltb, String,
  ◌==◌, string_comparable, length, is_some,
}
use undelete.Base.Int.{ℤ, int_comparable}
use undelete.Base.Dict.{lookup, insert, delete}

-- `Connection` of service.go.
pub record Connection : Type 0 where
  pub id : String
  pub owner : ℤ
  pub owner_telegram : ℤ
  pub can_reply : Bool
  pub is_enabled : Bool

abbrev pub connection_cache_ttl : ℕ
connection_cache_ttl = 60 * 10 ^ 9

abbrev pub connection_cache_max_entries : ℕ
connection_cache_max_entries = 4096

-- `entryKind` with the field of `cacheEntry` that each kind gives a meaning to.
pub data Entry : Type 0 where
  resolved : Connection → Entry
  unknown : Entry
  refused : ℤ → Entry

-- `cacheEntry`.
pub record CacheEntry : Type 0 where
  pub id : String
  pub entry : Entry
  pub expires_at : ℕ

-- `struct{}`, the value of a map that is used as a set.
pub data Marker : Type 0 where
  marked : Marker

pub record Cache : Type 0 where
  pub ttl : ℕ
  pub max : ℕ
  pub order : List CacheEntry
  pub disabled_owners : List (ℤ × Marker)

unfoldable pub new_connection_cache : ℕ → ℕ → Cache
new_connection_cache ttl max = record { ttl = ttl; max = max; order = []; disabled_owners = [] }

-- `c.byID[id]`.
unfoldable pub element_of : String → List CacheEntry → Option CacheEntry
element_of id [] = none
element_of id (e ∷ es) = let rest = element_of id es in if e.id == id then some e else rest

-- `c.remove`: the element of one id leaves the list.
unfoldable pub unlink : String → List CacheEntry → List CacheEntry
unlink id [] = []
unlink id (e ∷ es) = let rest = unlink id es in if e.id == id then rest else e ∷ rest

-- The list without `order.Back()`.
unfoldable pub drop_back : List CacheEntry → List CacheEntry
drop_back [] = []
drop_back (e ∷ []) = []
drop_back (e ∷ f ∷ es) = e ∷ drop_back (f ∷ es)

unfoldable pub lookup_cache : String → ℕ → Cache → Cache × Option Entry
lookup_cache id now c = elim (element_of id c.order) [
  | none ↦ (c, none)
  | some e ↦
      if ltb now e.expires_at
      then (record c { order = e ∷ unlink id c.order }, some e.entry)
      else (record c { order = unlink id c.order }, none)
]

-- The eviction of an insertion.
unfoldable pub evict : ℕ → List CacheEntry → List CacheEntry
evict max es = if ltb max (length es) then drop_back es else es

unfoldable pub put_locked : String → Entry → ℕ → Cache → Cache
put_locked id entry now c =
    let e : CacheEntry = record { id = id; entry = entry; expires_at = now + c.ttl } in
    if is_some (element_of id c.order)
    then record c { order = e ∷ unlink id c.order }
    else record c { order = evict c.max (e ∷ c.order) }

unfoldable pub store : Connection → ℕ → Cache → Cache
store conn now c = put_locked conn.id (resolved conn) now (record c {
  disabled_owners =
      if conn.is_enabled
      then delete conn.owner c.disabled_owners
      else insert conn.owner marked c.disabled_owners;
})

-- The test of `storeDB`: an entry that resolves to a disabled connection.
abbrev pub is_disabled : Entry → Bool
is_disabled (resolved conn) = not conn.is_enabled
is_disabled unknown = false
is_disabled (refused n) = false

abbrev pub holds_disabled : Option CacheEntry → Bool
holds_disabled none = false
holds_disabled (some e) = is_disabled e.entry

unfoldable pub store_db : Connection → ℕ → Cache → Cache
store_db conn now c =
    if not conn.is_enabled
    then put_locked conn.id (resolved conn) now c
    else (if holds_disabled (element_of conn.id c.order)
        then c
        else (if is_some (lookup conn.owner c.disabled_owners)
            then put_locked conn.id (resolved (record conn { is_enabled = false })) now c
            else put_locked conn.id (resolved conn) now c))

unfoldable pub store_unknown : String → ℕ → Cache → Cache
store_unknown id now c = put_locked id unknown now c

unfoldable pub store_refused : String → ℤ → ℕ → Cache → Cache
store_refused id owner_telegram now c = put_locked id (refused owner_telegram) now c

-- The body of the loop of `disableOwner`.
abbrev pub disable_entry : ℤ → Entry → Entry
disable_entry owner (resolved conn) =
    resolved (if conn.owner == owner then record conn { is_enabled = false } else conn)
disable_entry owner unknown = unknown
disable_entry owner (refused n) = refused n

unfoldable pub disable_entries : ℤ → List CacheEntry → List CacheEntry
disable_entries owner [] = []
disable_entries owner (e ∷ es) =
    record e { entry = disable_entry owner e.entry } ∷ disable_entries owner es

unfoldable pub disable_owner : ℤ → Cache → Cache
disable_owner owner c = record c {
  disabled_owners = insert owner marked c.disabled_owners;
  order = disable_entries owner c.order;
}

-- The operations of the cache, each with its reading of the clock.
pub data Operation : Type 0 where
  lookup_op : String → ℕ → Operation
  store_op store_db_op : Connection → ℕ → Operation
  store_unknown_op : String → ℕ → Operation
  store_refused_op : String → ℤ → ℕ → Operation
  disable_owner_op : ℤ → Operation

unfoldable pub operate : Operation → Cache → Cache
operate (lookup_op id now) c = (lookup_cache id now c).0
operate (store_op conn now) c = store conn now c
operate (store_db_op conn now) c = store_db conn now c
operate (store_unknown_op id now) c = store_unknown id now c
operate (store_refused_op id n now) c = store_refused id n now c
operate (disable_owner_op owner) c = disable_owner owner c

unfoldable pub run : List Operation → Cache → Cache
run [] c = c
run (o ∷ os) c = run os (operate o c)
