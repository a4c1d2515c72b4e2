-- ===== src/Client/Transfer.antt =====
-- Messages from the `send` of one side to the received signals of a client, over the handlers of
-- src/libs/protobuf_comm/client.cpp, in both versions of the frame header.
use at_work_central_factory.Common.{
  ℕ, zero, suc, ◌^◌, ◌<◌, ◌≡◌, refl, ◌∙◌, true, some, inl, inr, List, [], ◌∷◌, ◌++◌, length, take,
  drop, ltb, if◌then◌else◌, Result, ok, ◌>>=◌, Bool-cases, take-append, drop-append,
}
use at_work_central_factory.Common.Dict.{find}
use at_work_central_factory.Common.Bytes.{ntohs, ntohs-htons}
use at_work_central_factory.Wire.{
  FrameHeader, MessageHeader, QueueEntry, FrameVersion, frame_header_size,
}
use at_work_central_factory.Protobuf.{Protobuf, ProtobufLaws}
use at_work_central_factory.Register.{Register, Thrown, key_type_key, deserialize}
use at_work_central_factory.Register.Codec.{serialize_fields, deserialize_sized}
use at_work_central_factory.Client.{
  Client, Action, async_read_header, async_read_message, sig_rcvd, handle_read_header,
  handle_read_message, buffers, announced, headers,
}
use at_work_central_factory.Client.Understood.{
  header_of, payload_of, take-buffers, drop-buffers, Carries, Understood, Carries-Understood,
}

-- The client after a header that announces `n` bytes, where the buffer can grow.
abbrev header_read : {Message : Type 0} → Client Message → List ℕ → ℕ → Client Message
header_read c h n = record c {
  in_frame_header = h;
  in_data_size = if ltb c.in_data_size n then n else c.in_data_size;
}

module _ {Hosts Message : Type 0} where
  -- How many bytes a read of a payload asks for.
  abbrev pub asked : List (Action Hosts Message) → ℕ
  asked (async_read_message n ∷ out) = n
  asked _ = 0

  handle_read_header_lem :
      (c : Client Message) (h : List ℕ) (n : ℕ)
      → announced c.frame_header_version h ≡ n
      → handle_read_header {Hosts = Hosts} c true (ok h)
        ≡ (header_read c h n, async_read_message n ∷ [])
  unfolding handle_read_header
  handle_read_header_lem c h n e = elim (Bool-cases (ltb c.in_data_size n)) [
    | inl t ↦ rw (e, t) refl
    | inr f ↦ rw (e, f) refl
  ]

  -- What a client does with `frames` whole frames at the front of a stream: each read gets as many
  -- bytes as its handler asked for.
  unfoldable pub receive :
      {Descriptor : Type 0}
      → Protobuf Descriptor Message
      → (frames : ℕ) → Client Message
      → List ℕ
      → Result Thrown (Client Message × List (Action Hosts Message))
  receive pb zero c stream = ok (c, [])
  receive pb (suc frames) c stream = do
    let head = handle_read_header c true (ok (take 8 stream))
    let n = asked head.1
    (c', out) ← handle_read_message pb head.0 (ok (take n (drop 8 stream)))
    (c'', out') ← receive pb frames c' (drop n (drop 8 stream))
    ok (c'', out ++ out')

  -- What is signalled, and the next read, for each message in order.
  abbrev pub signals : List (ℕ × ℕ × Message) → List (Action Hosts Message)
  signals [] = []
  signals ((c, t, m) ∷ ms) = sig_rcvd c t m ∷ async_read_header frame_header_size ∷ signals ms

abbrev pub stream : FrameVersion → List QueueEntry → List ℕ
stream v [] = []
stream v (e ∷ es) = buffers v e ++ stream v es

module _ {Descriptor Message : Type 0} (pb : Protobuf Descriptor Message) where
  -- Entries that carry messages one by one.
  abbrev pub AllCarry : FrameVersion → List QueueEntry → List (ℕ × ℕ × Message) → Type 0
  AllCarry v [] [] = Unit
  AllCarry v (e ∷ es) ((c, t, m) ∷ ms) = Carries pb v e c t m × AllCarry v es ms
  AllCarry v _ _ = ⊥

  -- Every type is registered.
  abbrev pub AllKnown : Register Message → List (ℕ × ℕ × Message) → Type 0
  AllKnown r [] = Unit
  AllKnown r ((c, t, m) ∷ ms) =
      ((p : Message) × (find (c, t) r.by_comp_type ≡ some p) × (pb.descriptor p ≡ pb.descriptor m))
      × AllKnown r ms

module _ (Hosts : Type 0) {Descriptor Message : Type 0} (pb : Protobuf Descriptor Message)
    (laws : ProtobufLaws pb) where
  handle_read_message_lem :
      (x : Client Message) (payload : List ℕ) (c t : ℕ) (m : Message) (fh : FrameHeader)
      (mh : MessageHeader) (body : List ℕ)
      → headers x.frame_header_version x.in_frame_header
          (payload ++ drop (length payload) x.in_data)
        ≡ (fh, mh, body)
      → ntohs mh.component_id ≡ c
      → ntohs mh.msg_type ≡ t
      → deserialize pb x.message_register fh mh body ≡ ok m
      → handle_read_message {Hosts = Hosts} pb x (ok payload)
        ≡ ok (
          record x { in_data = payload ++ drop (length payload) x.in_data },
          sig_rcvd c t m ∷ async_read_header frame_header_size ∷ [],
        )
  unfolding handle_read_message
  handle_read_message_lem x payload c t m fh mh body e hc ht d = rw (e, hc, ht, d) refl

  -- The client behind the message that it read.
  abbrev message_read : Client Message → List ℕ → List ℕ → Client Message
  message_read x header payload = record (header_read x header (length payload)) {
    in_data = payload ++ drop (length payload) x.in_data;
  }

  handle_read_message-Understood :
      (x : Client Message) (header payload : List ℕ) (c t : ℕ) (m p : Message) (bytes : List ℕ)
      → Understood pb laws x.frame_header_version header payload c t bytes
      → c < 2 ^ 16
      → t < 2 ^ 16
      → length bytes < 2 ^ 31
      → pb.serialize_to_string m ≡ some bytes
      → find (c, t) x.message_register.by_comp_type ≡ some p
      → pb.descriptor p ≡ pb.descriptor m
      → handle_read_message {Hosts = Hosts} pb (header_read x header (length payload)) (ok payload)
        ≡ ok (
          message_read x header payload,
          sig_rcvd c t m ∷ async_read_header frame_header_size ∷ [],
        )
  handle_read_message-Understood x header payload c t m p bytes u hc ht small sz there same =
      let rest = drop (length payload) x.in_data in
      let hs = headers x.frame_header_version header (payload ++ rest) in
      handle_read_message_lem (header_read x header (length payload)) payload c t m hs.0 hs.1 hs.2
        refl (rw (u.ids rest) (ntohs-htons c hc)) (rw (u.ids rest) (ntohs-htons t ht))
        (rw (u.ids rest, u.body rest)
          (deserialize_sized pb laws x.message_register c t p m hs.0 bytes rest hc ht there same sz
            (u.size rest) small))

  receive-suc :
      (n : ℕ) (x : Client Message) (header payload rest s : List ℕ)
      (signal next : Action Hosts Message)
      → take 8 s ≡ header
      → drop 8 s ≡ payload ++ rest
      → announced x.frame_header_version header ≡ length payload
      → handle_read_message pb (header_read x header (length payload)) (ok payload)
        ≡ ok (message_read x header payload, signal ∷ next ∷ [])
      → receive pb (suc n) x s
        ≡ (receive pb n (message_read x header payload) rest >>= λ r. ok (r.0, signal ∷ next ∷ r.1))
  unfolding receive
  receive-suc n x header payload rest s signal next eh ep a r =
      rw
        (
          eh,
          ep,
          handle_read_header_lem {Hosts = Hosts} x header (length payload) a,
          take-append payload rest,
          drop-append payload rest,
          r,
        )
        refl

  pub receive_all :
      (v : FrameVersion) (es : List QueueEntry) (ms : List (ℕ × ℕ × Message)) (x : Client Message)
      → x.frame_header_version ≡ v
      → AllCarry pb v es ms
      → AllKnown pb x.message_register ms
      → (x' : Client Message) × (receive {Hosts = Hosts} pb (length es) x (stream v es)
          ≡ ok (x', signals ms))
  unfolding receive
  receive_all v [] [] x ver k r = (x, refl)
  receive_all v [] (m ∷ ms) x ver k r = absurd k
  receive_all v (e ∷ es) [] x ver k r = absurd k
  receive_all v (e ∷ es) ((c, t, m) ∷ ms) x ver (k, ks) ((p, there, same), rs) =
      let u : Understood pb laws x.frame_header_version (header_of v e) (payload_of v e) c t
          k.bytes =
        rw ver (Carries-Understood pb laws v e c t m k) in
      let (sz, _, _) =
        serialize_fields pb laws c t m _ k.frame_header k.message_header k.bytes k.written in
      let (x', rec) =
        receive_all v es ms (message_read x (header_of v e) (payload_of v e)) ver ks rs in
      (
        x',
        receive-suc (length es) x (header_of v e) (payload_of v e) (stream v es) (stream v (e ∷ es))
              (sig_rcvd c t m) (async_read_header frame_header_size)
              (take-buffers v e (stream v es)) (drop-buffers v e (stream v es)) u.announces
              (handle_read_message-Understood x (header_of v e) (payload_of v e) c t m p k.bytes u
                k.component_fits k.type_fits k.bytes_fit sz there same)
            ∙ rw rec refl,
      )
