-- ===== src/Server/Transfer.antt =====
-- A message from `send` on one side to the received signal on the other, over the handlers of
-- src/libs/protobuf_comm/server.cpp.
use at_work_central_factory.Common.{
  ℕ, ◌^◌, ◌<◌, ◌≡◌, refl, sym, ◌∙◌, ap, subst, true, Option, some, inl, inr, List, [], ◌∷◌, ◌++◌,
  length, take, drop, ltb, if◌then◌else◌, ok, arith, Bool-cases, >>=-eq-ok, append_assoc,
}
use at_work_central_factory.Common.Dict.{nat_key, find, find-insert_self}
use at_work_central_factory.Common.Bytes.{ntohs, ntohl, ntohs-htons, htonl-lt, htons-lt}
use at_work_central_factory.Wire.{
  FrameHeader, MessageHeader, QueueEntry, new_entry, message_header_size, read_frame_header,
  read_message_header, message_header_bytes, entry_bytes,
}
use at_work_central_factory.Wire.Layout.{
  read_frame_header_bytes, read_message_header_bytes, announced_size, take-entry_bytes,
  drop-entry_bytes, length-payload, drop-payload,
}
use at_work_central_factory.Protobuf.{Protobuf, ProtobufLaws}
use at_work_central_factory.Register.{key_type_key, serialize, deserialize}
use at_work_central_factory.Register.Codec.{serialize_fields, deserialize-serialize}
use at_work_central_factory.Outbound.{enqueue}
use at_work_central_factory.Server.{
  Server, Session, async_read_header, async_read_message, sig_rcvd, set_object,
}
use at_work_central_factory.Server.Handlers.{handle_read_header, handle_read_message}
use at_work_central_factory.Server.Sending.{session_send}

module _ {Descriptor Message : Type 0} (pb : Protobuf Descriptor Message) where
  -- The entry that a session queues for a message, and that it is all that `send` changes.
  pub record Queued (fresh : QueueEntry) (c t : ℕ) (m : Message) (x x' : Session)
      (w : Option QueueEntry) : Type 0 where
    pub entry : QueueEntry
    pub filled :
        serialize pb c t m (new_entry fresh).frame_header
        ≡ ok (entry.frame_header, entry.message_header, entry.serialized_message)
    pub session : x' ≡ record x { outbound = (enqueue x.outbound entry).0 }
    pub write : w ≡ (enqueue x.outbound entry).1

  pub session_send-Queued :
      (fresh : QueueEntry) (c t : ℕ) (m : Message) (x x' : Session) (w : Option QueueEntry)
      → session_send pb fresh c t m x ≡ ok (x', w)
      → Queued fresh c t m x x' w
  unfolding session_send
  session_send-Queued fresh c t m x x' w h =
      let ((fh, mh, bytes), s, e) =
        >>=-eq-ok (serialize pb c t m (new_entry fresh).frame_header) _ h in
      record {
        entry = record (new_entry fresh) {
          frame_header = fh;
          message_header = mh;
          serialized_message = bytes;
        };
        filled = s;
        session = ground (arith, e);
        write = ground (arith, e);
      }

-- The session after a header that announces `n` bytes, where the buffer can grow.
abbrev header_read : Session → FrameHeader → ℕ → Session
header_read y fh n = record y {
  in_frame_header = fh;
  in_data_size = if ltb y.in_data_size n then n else y.in_data_size;
}

module _ {Message : Type 0} where
  handle_read_header_lem :
      (s : Server Message) (o : ℕ) (y : Session) (bytes : List ℕ) (fh : FrameHeader) (n : ℕ)
      → read_frame_header bytes ≡ fh
      → ntohl fh.payload_size ≡ n
      → handle_read_header s o y true (ok bytes)
        ≡ (set_object o (header_read y fh n) s, async_read_message o n ∷ [])
  unfolding handle_read_header
  handle_read_header_lem s o y bytes fh n e f = elim (Bool-cases (ltb y.in_data_size n)) [
    | inl t ↦ rw (e, f, t) refl
    | inr u ↦ rw (e, f, u) refl
  ]

module _ {Descriptor Message : Type 0} (pb : Protobuf Descriptor Message)
    (laws : ProtobufLaws pb) where
  open pb use {descriptor}

  handle_read_message_lem :
      (s : Server Message) (o : ℕ) (y : Session) (bytes : List ℕ) (c t : ℕ) (m : Message)
      (mh : MessageHeader)
      → read_message_header (bytes ++ drop (length bytes) y.in_data) ≡ mh
      → ntohs mh.component_id ≡ c
      → ntohs mh.msg_type ≡ t
      → deserialize pb s.message_register y.in_frame_header mh
          (drop message_header_size (bytes ++ drop (length bytes) y.in_data))
        ≡ ok m
      → handle_read_message pb s o y (ok bytes)
        ≡ ok (
          set_object o (record y { in_data = bytes ++ drop (length bytes) y.in_data }) s,
          sig_rcvd y.id c t m ∷ async_read_header o ∷ [],
        )
  unfolding handle_read_message
  handle_read_message_lem s o y bytes c t m mh e hc ht d = rw (e, hc, ht, d) refl

  sent_entry :
      (fresh entry : QueueEntry) (c t : ℕ) (m : Message) (x x' : Session)
      → session_send pb fresh c t m x ≡ ok (x', some entry)
      → serialize pb c t m (new_entry fresh).frame_header
        ≡ ok (entry.frame_header, entry.message_header, entry.serialized_message)
  unfolding enqueue
  sent_entry fresh entry c t m x x' h =
      let q = session_send-Queued pb fresh c t m x x' (some entry) h in
      let same : q.entry ≡ entry = ground (arith, q.write) in
      subst {A = QueueEntry}
        (λ e.
          serialize pb c t m (new_entry fresh).frame_header
          ≡ ok (e.frame_header, e.message_header, e.serialized_message))
        same q.filled

  -- What one side sends on an idle session, read by the other side as its handlers ask for it
  -- (eight bytes, then as many as the header announces), is signalled there as the same message
  -- under the same component and type, if these numbers fit 16 bits, that type is registered there,
  -- the bytes fit an `int` and `realloc`, where the buffer has to grow, succeeds.
  pub receive-send :
      (fresh entry : QueueEntry) (c t : ℕ) (m p : Message) (x x' : Session) (s : Server Message)
      (o : ℕ) (y : Session)
      → session_send pb fresh c t m x ≡ ok (x', some entry)
      → c < 2 ^ 16
      → t < 2 ^ 16
      → length entry.serialized_message < 2 ^ 31
      → find (c, t) s.message_register.by_comp_type ≡ some p
      → descriptor p ≡ descriptor m
      → let stream = entry_bytes entry in
        let r = handle_read_header s o y true (ok (take 8 stream)) in
        (r.1 ≡ async_read_message o (length (drop 8 stream)) ∷ [])
        × ((y' : Session) × (s' : Server Message) × (find o r.0.objects ≡ some y')
            × (handle_read_message pb r.0 o y' (ok (drop 8 stream))
                ≡ ok (s', sig_rcvd y.id c t m ∷ async_read_header o ∷ [])))
  receive-send fresh entry c t m p x x' s o y h hc ht small there same =
      let fh = entry.frame_header in
      let bytes = entry.serialized_message in
      let filled = sent_entry fresh entry c t m x x' h in
      let (_, size, mh) = serialize_fields pb laws c t m _ fh entry.message_header bytes filled in
      let n = length (drop 8 (entry_bytes entry)) in
      let header : read_frame_header (take 8 (entry_bytes entry)) ≡ fh =
        ap read_frame_header (take-entry_bytes entry)
        ∙ read_frame_header_bytes fh (rw size (htonl-lt _)) in
      let announced : ntohl fh.payload_size ≡ n =
        announced_size fh (length bytes) size small
        ∙ sym (ap length (drop-entry_bytes entry) ∙ length-payload entry.message_header bytes) in
      let rest = bytes ++ drop n y.in_data in
      let all : drop 8 (entry_bytes entry) ++ drop n y.in_data
          ≡ message_header_bytes entry.message_header ++ rest =
        rw drop-entry_bytes (append_assoc (message_header_bytes entry.message_header) bytes _) in
      rw (handle_read_header_lem s o y (take 8 (entry_bytes entry)) fh n header announced) (
        refl,
        (
          header_read y fh n,
          _,
          find-insert_self o (header_read y fh n) s.objects,
          handle_read_message_lem _ o (header_read y fh n) (drop 8 (entry_bytes entry)) c t m
              entry.message_header
              (rw all (
                read_message_header_bytes entry.message_header rest (rw mh (htons-lt c))
                  (rw mh (htons-lt t))))
              (rw mh (ntohs-htons c hc)) (rw mh (ntohs-htons t ht))
              (rw (all, drop-payload entry.message_header rest)
                (deserialize-serialize pb laws s.message_register c t p m _ fh entry.message_header
                  bytes (drop n y.in_data) hc ht there same filled small)),
        ),
      )
