-- ===== src/Net.antt =====
-- src/net and include/core/message_serializer.hpp: what the transports and the factories share.
pub mod Frame
pub mod Send
pub mod Json
pub mod Factory
pub mod Lifecycle
pub mod Udp
pub mod Tcp
use libgossip.Base.{ℕ, Bytes}
use libgossip.Node.{GossipMessage}

pub data SerializationError : Type 0 where
  success serialization_failed deserialization_failed invalid_input unsupported_format :
      SerializationError
  other : ℕ → SerializationError

pub data ErrorCode : Type 0 where
  success network_error serialization_error invalid_argument operation_not_permitted : ErrorCode

-- `to_error_code` of src/net/udp_transport.cpp and of src/net/tcp_transport.cpp.
unfoldable pub to_error_code : SerializationError → ErrorCode
to_error_code SerializationError.success = ErrorCode.success
to_error_code SerializationError.serialization_failed = ErrorCode.serialization_error
to_error_code SerializationError.deserialization_failed = ErrorCode.serialization_error
to_error_code SerializationError.invalid_input = ErrorCode.invalid_argument
to_error_code SerializationError.unsupported_format = ErrorCode.invalid_argument
to_error_code (SerializationError.other n) = ErrorCode.serialization_error

-- The class message_serializer, an interface that users may implement.
pub record Serializer : Type 0 where
  pub serialize : GossipMessage → SerializationError × Bytes
  pub deserialize : Bytes → SerializationError × GossipMessage
