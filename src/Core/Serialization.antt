-- ===== src/Core/Serialization.antt =====
-- rabia-core/src/serialization.rs: messages as bytes. The two encodings are of other crates, and so
-- are parameters; `grow` is the capacity of a `Vec` after it is extended to a length. The pool is
-- the one of the thread.
pub mod Pooled
pub mod Examples
use rabia.Base.{
  ℕ, ◌+◌, ◌*◌, Bool, true, false, List, [], ◌∷◌, ◌++◌, Option, none, some, length, if◌then◌else◌,
}
use rabia.Core.Types.{Bytes, CommandBatch}
use rabia.Core.Error.{RabiaError, Text, text, internal, Result, ok, err, serialization_error}
use rabia.Core.Message.{
  ProtocolMessage, MessageType, propose, vote_round1, vote_round2, decision, sync_request,
  sync_response, new_batch, heart_beat, quorum_notification,
}
use rabia.Core.Pool.{Buffer, MemoryPool, PooledBuffer, get_buffer, drop_buffer}

-- An encoding of messages.
pub record Codec : Type 0 where
  pub encode : ProtocolMessage → Option Bytes
  pub decode : Bytes → Option ProtocolMessage

pub data Serializer : Type 0 where
  json binary : Serializer

pub record SerializationConfig : Type 0 where
  pub use_binary : Bool
  pub compression_threshold : ℕ

-- `SerializationConfig::default`
abbrev pub default_serialization : SerializationConfig
default_serialization = record { use_binary = true; compression_threshold = 1024 }

-- `SerializerFactory::create`
abbrev pub create_serializer : SerializationConfig → Serializer
create_serializer config = if config.use_binary then binary else json

abbrev pub or_serialization : {A : Type 0} → Text → Option A → Result A
or_serialization t none = err (serialization_error t)
or_serialization t (some a) = ok a

abbrev pub estimated_batch : Option CommandBatch → ℕ
estimated_batch none = 0
estimated_batch (some b) = length b.commands * 64

unfoldable pub estimate_message_size : ProtocolMessage → ℕ
estimate_message_size m = 128 + (elim m.message_type [
  | propose p ↦ 64 + estimated_batch p.batch
  | vote_round1 v ↦ 32
  | vote_round2 v ↦ 32 + length v.round1_votes * 16
  | decision d ↦ 64 + estimated_batch d.batch
  | sync_request r ↦ 16
  | sync_response r ↦ 64 + length r.pending_batches * 64 + length r.committed_phases * 16
  | new_batch b ↦ 32 + length b.batch.commands * 64
  | heart_beat h ↦ 24
  | quorum_notification q ↦ 16 + length q.active_nodes * 16
])

-- `extend_from_slice`
abbrev pub extend : (ℕ → ℕ → ℕ) → Bytes → Buffer → Buffer
extend grow b v = record {
  contents = v.contents ++ b;
  capacity = grow v.capacity (length v.contents + length b);
}

-- What `?` does with the buffer: an error drops it.
abbrev pub fill :
    (ℕ → ℕ → ℕ) → PooledBuffer × MemoryPool → Result Bytes → Result PooledBuffer × MemoryPool
fill grow taken (ok b) = (ok (record taken.0 { buffer = extend grow b taken.0.buffer }), taken.1)
fill grow taken (err e) = (err e, drop_buffer taken.0 taken.1)

module _ (json_codec binary_codec : Codec) where
  unfoldable pub serialize_message : Serializer → ProtocolMessage → Result Bytes
  serialize_message json m =
      or_serialization (text "JSON serialization failed: {}") (json_codec.encode m)
  serialize_message binary m =
      or_serialization (text "Binary serialization failed: {}") (binary_codec.encode m)

  unfoldable pub deserialize_message : Serializer → Bytes → Result ProtocolMessage
  deserialize_message json b =
      or_serialization (text "JSON deserialization failed: {}") (json_codec.decode b)
  deserialize_message binary b =
      or_serialization (text "Binary deserialization failed: {}") (binary_codec.decode b)

  unfoldable pub serialize_message_pooled :
      (ℕ → ℕ)
      → (ℕ → ℕ → ℕ)
      → Serializer
      → ProtocolMessage
      → MemoryPool
      → Result PooledBuffer × MemoryPool
  serialize_message_pooled allocate grow s m pool =
      fill grow (get_buffer allocate (estimate_message_size m) pool) (serialize_message s m)
