-- ===== src/Peer.antt =====
-- src/libs/protobuf_comm/peer.{h,cpp}: the UDP peer, which broadcasts protobuf messages, plain or
-- encrypted, and receives those of others. Completion handlers and calls are functions of the
-- peer's state; what they start or signal is a list of actions, in order.
pub mod Sending
pub mod Receiving
pub mod Delivery
pub mod Transfer
pub mod Short
pub mod Refused
pub mod Sealed
pub mod Opening
pub mod Encrypted
pub mod Replay
pub mod Events
pub mod Sound
pub mod SoundReceiving
pub mod States
mod Examples
mod SecretExamples
use at_work_central_factory.Common.{
  ℕ, ◌+◌, ◌-◌, ◌%◌, ◌^◌, String, Bool, true, false, ◌&&◌, not, Option, none, some, List, [], ◌∷◌,
  ◌++◌, length, replicate, ltb, ◌==◌, str_eq, if◌then◌else◌, Result, ok, err,
}
use at_work_central_factory.Common.Bytes.{htonl}
use at_work_central_factory.Wire.{
  FrameHeader, MessageHeader, QueueEntry, FrameVersion, pb_frame_v1, pb_frame_v2, new_entry,
  frame_header_bytes, frame_header_v1_bytes, message_header_bytes,
}
use at_work_central_factory.Protobuf.{Protobuf}
use at_work_central_factory.Register.{Register, Reason, Thrown, key_from_desc, serialize}
use at_work_central_factory.Server.{Endpoint}
use at_work_central_factory.Crypto.{
  Openssl, CryptoError, BufferEncryptor, BufferDecryptor, new_encryptor, new_decryptor, encrypt,
  encrypted_buffer_size,
}

abbrev pub max_packet_length : ℕ
max_packet_length = 1024

-- A queue entry with its buffers: a frame header of either version, and what the second and the
-- third buffer point to.
pub record Packet : Type 0 where
  pub first : FrameVersion
  pub entry : QueueEntry
  pub second : List ℕ
  pub third : List ℕ

unfoldable pub first_bytes : FrameVersion → QueueEntry → List ℕ
first_bytes pb_frame_v1 e = frame_header_v1_bytes e.frame_header_v1
first_bytes pb_frame_v2 e = frame_header_bytes e.frame_header

unfoldable pub packet_bytes : Packet → List ℕ
packet_bytes p = first_bytes p.first p.entry ++ (p.second ++ p.third)

-- `in_data_` holds `max_packet_length` bytes. `listeners` is the number of slots of `sig_rcvd_`, and
-- `recv_encrypted` whether the read that is under way was given the buffer for encrypted data.
pub record Peer (Message : Type 0) : Type 0 where
  pub filter_self : Bool
  pub crypto : Bool
  pub crypto_buf : Bool
  pub recv_encrypted : Bool
  pub crypto_enc : Option BufferEncryptor
  pub crypto_dec : Option BufferDecryptor
  pub frame_header_version : FrameVersion
  pub in_data : List ℕ
  pub enc_in_data : Option (List ℕ)
  pub local_endpoints : List Endpoint
  pub listeners : ℕ
  pub outbound_queue : List Packet
  pub outbound_active : Bool
  pub outbound_endpoint : Option Endpoint
  pub message_register : Register Message

pub data SendError : Type 0 where
  resolving_failed sending_failed : SendError

pub data RecvError : Type 0 where
  encryption_disabled encryption_enabled : RecvError
  decryption_fail : CryptoError → RecvError
  deserialization_fail : Reason → RecvError
  invalid_number_of_bytes general_error : RecvError

pub data Action (Message : Type 0) : Type 0 where
  async_resolve : String → ℕ → Action Message
  async_receive_from : ℕ → Action Message
  async_send_to : List ℕ → Option Endpoint → Action Message
  sig_rcvd_raw : Endpoint → FrameHeader → List ℕ → Action Message
  sig_rcvd : Endpoint → (component_id msg_type : ℕ) → Message → Action Message
  sig_recv_error : Endpoint → RecvError → Action Message
  sig_send_error : SendError → Action Message

-- What leaves a function as an exception, and the use of a null pointer.
pub data Failure : Type 0 where
  null_pointer : Failure
  crypto_needs_v2 : Failure
  too_big : Failure
  crypto_failure : CryptoError → Failure
  thrown : Thrown → Failure

-- A call with its exception: the state is that in which it was left.
abbrev pub Outcome : Type 0 → Type 0
Outcome Message = Peer Message × Result Failure (List (Action Message))

-- The buffer for encrypted data, which is allocated once; what it holds is not known.
abbrev pub allocated : Option (List ℕ) → Option (List ℕ)
allocated none = some []
allocated (some buffer) = some buffer

module _ {Message : Type 0} where
  abbrev pub before : List (Action Message) → Outcome Message → Outcome Message
  before out (p, ok out') = (p, ok (out ++ out'))
  before out (p, err what) = (p, err what)

  unfoldable pub set_filter_self : Bool → Peer Message → Peer Message
  set_filter_self filter p = record p { filter_self = filter }

  unfoldable pub start_recv : Peer Message → Peer Message × List (Action Message)
  start_recv p = (
    record p { crypto_buf = p.crypto; recv_encrypted = p.crypto },
    async_receive_from max_packet_length ∷ [],
  )

  -- In the midst of `setup_crypto`: the pointers are NULL, and `crypto_` and `crypto_buf_` are as they
  -- were.
  abbrev pub without_keys : Peer Message → Peer Message
  without_keys p = record p { crypto_enc = none; crypto_dec = none }

  abbrev pub without_crypto : Peer Message → Peer Message
  without_crypto p = record (without_keys p) { crypto = false; crypto_buf = false }

  with_crypto :
      Peer Message
      → String
      → Result CryptoError BufferEncryptor
      → Peer Message × Result Failure (Unit {0})
  with_crypto p key (err what) = (without_crypto p, err (crypto_failure what))
  with_crypto p key (ok enc) = (
    record (without_crypto p) {
      crypto_enc = some enc;
      enc_in_data = allocated p.enc_in_data;
      crypto_dec = some (new_decryptor key);
      crypto = true;
    },
    ok tt,
  )

module _ {Message Context : Type 0} (o : Openssl Context) where
  setup_crypto_v2 :
      Peer Message → (key cipher : String) → Option ℕ → Peer Message × Result Failure (Unit {0})
  unfolding with_crypto
  setup_crypto_v2 p key cipher random =
      if not (str_eq key "") && not (str_eq cipher "")
      then with_crypto p key (new_encryptor o key cipher random)
      else (without_crypto p, ok tt)

  crypto_for :
      FrameVersion
      → Peer Message
      → (key cipher : String) → Option ℕ
      → Peer Message × Result Failure (Unit {0})
  unfolding setup_crypto_v2
  crypto_for pb_frame_v1 p key cipher random = (p, err crypto_needs_v2)
  crypto_for pb_frame_v2 p key cipher random = setup_crypto_v2 p key cipher random

  -- `random` is what `RAND_bytes` gives the encryptor.
  unfoldable pub setup_crypto :
      Peer Message
      → (key cipher : String) (random : Option ℕ) → Peer Message × Result Failure (Unit {0})
  unfolding crypto_for
  setup_crypto p key cipher random = crypto_for p.frame_header_version p key cipher random

  -- A peer before its constructor starts anything.
  abbrev blank_peer : Register Message → FrameVersion → List Endpoint → Peer Message
  blank_peer mr version local = record {
    filter_self = true;
    crypto = false;
    crypto_buf = false;
    recv_encrypted = false;
    crypto_enc = none;
    crypto_dec = none;
    frame_header_version = version;
    in_data = [];
    enc_in_data = none;
    local_endpoints = local;
    listeners = 0;
    outbound_queue = [];
    outbound_active = true;
    outbound_endpoint = none;
    message_register = mr;
  }

  keyed : Peer Message → (key cipher : String) → Option ℕ → Peer Message × Result Failure (Unit {0})
  keyed p key cipher random = if str_eq key "" then (p, ok tt) else setup_crypto p key cipher random

  -- `ctor`; `local` are the endpoints that `determine_local_endpoints` finds. An exception leaves
  -- the constructor.
  unfoldable pub ctor :
      Register Message
      → FrameVersion
      → List Endpoint
      → (address : String) (port : ℕ) (key cipher : String) (random : Option ℕ)
      → Result Failure (Peer Message × List (Action Message))
  unfolding keyed start_recv
  ctor mr version local address port key cipher random =
      let (p, r) = keyed (blank_peer mr version local) key cipher random in
      elim r [
        | err what ↦ err what
        | ok _ ↦ ok ((start_recv p).0, async_resolve address port ∷ (start_recv p).1)
      ]
