-- ===== src/Server/Reading.antt =====
-- What a session of src/libs/protobuf_comm/server.cpp does with what it reads.
use at_work_central_factory.Common.{
  ℕ, ◌≤◌, ◌<◌, ◌≡◌, refl, Bool, true, false, some, inl, inr, ◌⊎◌, List, [], ◌∷◌, ◌++◌, length, drop,
  ltb, ltb→lt, lt→ltb, ok, err, arith, Option-cases, Bool-cases,
}
use at_work_central_factory.Common.Dict.{nat_key, find, find-insert_self}
use at_work_central_factory.Common.Bytes.{ntohs, ntohl}
use at_work_central_factory.Wire.{
  FrameHeader, MessageHeader, read_frame_header, read_message_header, message_header_size,
}
use at_work_central_factory.Protobuf.{Protobuf}
use at_work_central_factory.Register.{
  Register, Reason, runtime_error, key_type_key, deserialize, new_message_for, data_size,
  not_registered, parse_failed,
}
use at_work_central_factory.Server.{
  Server, Session, not_enough_memory, Action, async_read_header, async_read_message, sig_rcvd,
  sig_recv_failed, sig_disconnected, set_object,
}
use at_work_central_factory.Server.Handlers.{handle_read_header, handle_read_message}

module _ {Message : Type 0} where
  -- The read that a header leads to fits the session's buffer, if the buffer was large enough or
  -- could be enlarged.
  pub handle_read_header_fits :
      (s : Server Message) (o : ℕ) (x : Session) (realloc : Bool) (bytes : List ℕ)
      → (realloc ≡ true) ⊎ (ntohl (read_frame_header bytes).payload_size ≤ x.in_data_size)
      → let r = handle_read_header s o x realloc (ok bytes) in
        (y : Session) × (n : ℕ) × (find o r.0.objects ≡ some y)
        × (n ≤ y.in_data_size)
        × (r.1 ≡ async_read_message o n ∷ [])
  unfolding handle_read_header
  handle_read_header_fits s o x realloc bytes h =
      let n = ntohl (read_frame_header bytes).payload_size in
      let y = record x { in_frame_header = read_frame_header bytes } in
      let grown = record y { in_data_size = n } in
      elim (Bool-cases (ltb x.in_data_size n)) [
        | inl t ↦
            let more = ltb→lt x.in_data_size n t in
            let e : realloc ≡ true = ground arith in
            rw (t, e) (grown, n, find-insert_self o grown s.objects, omega arith, refl)
        | inr f ↦ rw f (y, n, find-insert_self o y s.objects, ground arith, refl)
      ]

  -- If enlarging it fails, the client is reported as disconnected, and yet a read is set up that is
  -- larger than the buffer.
  pub handle_read_header_overruns :
      (s : Server Message) (o : ℕ) (x : Session) (bytes : List ℕ)
      → x.in_data_size < ntohl (read_frame_header bytes).payload_size
      → let r = handle_read_header s o x false (ok bytes) in
        (y : Session) × (find o r.0.objects ≡ some y)
        × (y.in_data_size < ntohl (read_frame_header bytes).payload_size)
        × (r.1
            ≡ sig_disconnected x.id not_enough_memory
              ∷ async_read_message o (ntohl (read_frame_header bytes).payload_size)
              ∷ [])
  unfolding handle_read_header
  handle_read_header_overruns s o x bytes lt =
      let y = record x { in_frame_header = read_frame_header bytes } in
      rw (lt→ltb x.in_data_size (ntohl (read_frame_header bytes).payload_size) lt)
        (y, find-insert_self o y s.objects, lt, refl)

module _ {Descriptor Message : Type 0} (pb : Protobuf Descriptor Message) where
  deserialize_runtime :
      (r : Register Message) (fh : FrameHeader) (mh : MessageHeader) (bytes : List ℕ)
      → ((m : Message) × (deserialize pb r fh mh bytes ≡ ok m))
        ⊎ ((w : Reason) × (deserialize pb r fh mh bytes ≡ err (runtime_error w)))
  unfolding deserialize new_message_for
  deserialize_runtime r fh mh bytes =
      elim (Option-cases (find (ntohs mh.component_id, ntohs mh.msg_type) r.by_comp_type)) [
        | inl e ↦ inr (not_registered (ntohs mh.component_id) (ntohs mh.msg_type), ground arith)
        | inr (p, e) ↦ elim (Option-cases (pb.parse_from_array (pb.fresh p) bytes (data_size fh))) [
          | inl f ↦ inr (parse_failed, ground arith)
          | inr (m, f) ↦ inl (m, ground arith)
        ]
      ]

  -- Whatever a payload holds, no exception of parsing it leaves the handler: the message is signalled,
  -- or its failure is, under the IDs in its header, and the session goes on to read the next header.
  -- Exceptions that a slot of the signal throws are left out.
  pub handle_read_message_total :
      (s : Server Message) (o : ℕ) (x : Session) (bytes : List ℕ)
      → let buffer = bytes ++ drop (length bytes) x.in_data in
        let mh = read_message_header buffer in
        (s' : Server Message) × (signal : Action Message) × (handle_read_message pb s o x (ok bytes)
          ≡ ok (s', signal ∷ async_read_header o ∷ []))
        × (s'.sessions ≡ s.sessions)
        × (((m : Message) × (deserialize pb s.message_register x.in_frame_header mh
                  (drop message_header_size buffer)
                ≡ ok m)
              × (signal ≡ sig_rcvd x.id (ntohs mh.component_id) (ntohs mh.msg_type) m))
            ⊎ ((w : Reason) × (deserialize pb s.message_register x.in_frame_header mh
                    (drop message_header_size buffer)
                  ≡ err (runtime_error w))
                × (signal ≡ sig_recv_failed x.id (ntohs mh.component_id) (ntohs mh.msg_type) w)))
  unfolding handle_read_message
  handle_read_message_total s o x bytes =
      let buffer = bytes ++ drop (length bytes) x.in_data in
      let mh = read_message_header buffer in
      elim (deserialize_runtime s.message_register x.in_frame_header mh
        (drop message_header_size buffer)) [
          | inl (m, e) ↦ (
            set_object o (record x { in_data = buffer }) s,
            sig_rcvd x.id (ntohs mh.component_id) (ntohs mh.msg_type) m,
            rw e refl,
            refl,
            inl (m, e, refl),
          )
          | inr (w, e) ↦ (
            set_object o (record x { in_data = buffer }) s,
            sig_recv_failed x.id (ntohs mh.component_id) (ntohs mh.msg_type) w,
            rw e refl,
            refl,
            inr (w, e, refl),
          )
        ]
