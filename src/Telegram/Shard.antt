-- ===== src/Telegram/Shard.antt =====
-- bot/internal/telegram/shard.go: ShardKey and shardIndex. Ids of connections are byte strings;
-- `format_int` is strconv.FormatInt in base 10 and `fnv` the Sum64 of FNV-1a.
use undelete.Base.{ℕ, ◌%◌, ◌<◌, ◌≡◌, refl, List, ◌∷◌, ◌++◌, arith}
use undelete.Base.Int.{ℤ}

-- The pointer of `Update` that is set, with what ShardKey reads behind it; `other` has the update id.
pub data Update : Type 0 where
  business_connection : List ℕ → Update
  business_message edited_business_message deleted_business_messages : List ℕ → ℤ → Update
  other : ℤ → Update

abbrev pub num_shards : ℕ
num_shards = 32

module _ (format_int : ℤ → List ℕ) (fnv : List ℕ → ℕ) where
  -- "chat\x00", the connection, "\x00" and the chat.
  unfoldable pub chat_key : List ℕ → ℤ → List ℕ
  chat_key connection chat = b'c' ∷ b'h' ∷ b'a' ∷ b't' ∷ 0 ∷ connection ++ 0 ∷ format_int chat

  unfoldable pub shard_key : Update → List ℕ
  shard_key (business_connection id) = b'c' ∷ b'o' ∷ b'n' ∷ b'n' ∷ 0 ∷ id
  shard_key (business_message connection chat) = chat_key connection chat
  shard_key (edited_business_message connection chat) = chat_key connection chat
  shard_key (deleted_business_messages connection chat) = chat_key connection chat
  shard_key (other id) = b'u' ∷ b'p' ∷ b'd' ∷ b'a' ∷ b't' ∷ b'e' ∷ 0 ∷ format_int id

  unfoldable pub shard_index : List ℕ → ℕ
  shard_index key = fnv key % num_shards

  -- Every update goes to one of the 32 workers, and a message of a chat, its edit and its deletion go
  -- to the same one, whatever the hash is.
  pub shard_index-same_chat :
      (u : Update) (connection : List ℕ) (chat : ℤ)
      → (shard_index (shard_key u) < num_shards)
        × (shard_index (shard_key (edited_business_message connection chat))
            ≡ shard_index (shard_key (business_message connection chat)))
        × (shard_index (shard_key (deleted_business_messages connection chat))
            ≡ shard_index (shard_key (business_message connection chat)))
  unfolding shard_key shard_index
  shard_index-same_chat u connection chat = (ground arith, refl, refl)
