-- ===== src/Outbound/Fifo.antt =====
-- The order in which the outbound queue starts its writes.
use at_work_central_factory.Common.{
  ℕ, zero, suc, ◌+◌, ◌≡◌, refl, sym, ◌∙◌, ap, false, Option, none, some, List, [], ◌∷◌, ◌++◌,
  append-nil, append_assoc, length, arith, if◌then◌else◌, Bool-cases, inl, inr,
}
use at_work_central_factory.Outbound.{Outbound, idle, enqueue, next_write, complete}

module _ {ℓ} {A : Type ℓ} where
  abbrev pub to_list : Option A → List A
  to_list none = []
  to_list (some a) = a ∷ []

  abbrev pub count : Option A → ℕ
  count none = 0
  count (some a) = 1

  -- A history of the queue: the messages sent, the writes started, and how many of those are not
  -- completed. The socket completes a write that was started.
  pub data Run : Outbound A → List A → List A → ℕ → Type ℓ where
    start : Run idle [] [] 0
    send :
        {o : Outbound A} {sent started : List A} {flying : ℕ} (a : A)
        → Run o sent started flying
        → Run
            (enqueue o a).0
            (sent ++ a ∷ [])
            (started ++ to_list (enqueue o a).1)
            (flying + count (enqueue o a).1)
    written :
        {o : Outbound A} {sent started : List A} {flying : ℕ}
        → Run o sent started (suc flying)
        → Run
            (complete o).0
            sent
            (started ++ to_list (complete o).1)
            (flying + count (complete o).1)

  pub record Fifo (o : Outbound A) (sent started : List A) (flying : ℕ) : Type ℓ where
    pub in_order : started ++ o.queue ≡ sent
    pub one : flying ≡ (if o.active then 1 else 0)
    pub waits : o.active ≡ false → o.queue ≡ []

  enqueue-Fifo :
      (o : Outbound A) (sent started : List A) (flying : ℕ) (a : A)
      → Fifo o sent started flying
      → Fifo
          (enqueue o a).0
          (sent ++ a ∷ [])
          (started ++ to_list (enqueue o a).1)
          (flying + count (enqueue o a).1)
  unfolding enqueue
  enqueue-Fifo o sent started flying a f = elim (Bool-cases o.active) [
    | inl on ↦ rw on (record {
      in_order = rw (append-nil started, ← append_assoc started o.queue (a ∷ []), f.in_order);
      one = ground arith;
      waits = λ e. cc;
    })
    | inr off ↦ rw off (record {
      in_order =
          rw (f.waits off, append-nil (started ++ a ∷ []))
            (ap (λ l. l ++ a ∷ [])
              (sym (append-nil started) ∙ ap (◌++◌ started) (sym (f.waits off)) ∙ f.in_order));
      one = ground arith;
      waits = λ e. cc;
    })
  ]

  next_write-Fifo :
      (queue : List A) (o : Outbound A) (sent started : List A) (flying : ℕ)
      → o.queue ≡ queue
      → Fifo o sent started (suc flying)
      → Fifo
          (next_write queue o).0
          sent
          (started ++ to_list (next_write queue o).1)
          (flying + count (next_write queue o).1)
  unfolding next_write
  next_write-Fifo [] o sent started flying e f = record {
    in_order = rw (append-nil started) f.in_order;
    one = ground (arith, f.one);
    waits = λ _. e;
  }
  next_write-Fifo (x ∷ queue) o sent started flying e f = record {
    in_order = append_assoc started (x ∷ []) queue ∙ ap (◌++◌ started) (sym e) ∙ f.in_order;
    one = ground (arith, f.one, f.waits);
    waits = λ off. ground (arith, f.one);
  }

  complete-Fifo :
      (o : Outbound A) (sent started : List A) (flying : ℕ)
      → Fifo o sent started (suc flying)
      → Fifo (complete o).0 sent (started ++ to_list (complete o).1) (flying + count (complete o).1)
  unfolding complete
  complete-Fifo o sent started flying f = next_write-Fifo o.queue o sent started flying refl f

  -- In every history in which no write fails, the writes start in the order of the sends, at most one
  -- is under way, and a message waits only behind one.
  pub Run-Fifo :
      {o : Outbound A} {sent started : List A} {flying : ℕ}
      → Run o sent started flying
      → Fifo o sent started flying
  Run-Fifo start = record { in_order = refl; one = refl; waits = λ _. refl }
  Run-Fifo (send {o} {sent} {started} {flying} a r) =
      enqueue-Fifo o sent started flying a (Run-Fifo r)
  Run-Fifo (written {o} {sent} {started} {flying} r) =
      complete-Fifo o sent started flying (Run-Fifo r)

  -- Completing writes until the queue is idle.
  pub drain : ℕ → Outbound A → List A → Outbound A × List A
  drain zero o started = (o, started)
  drain (suc n) o started = drain n (complete o).0 (started ++ to_list (complete o).1)

  complete_last :
      (o : Outbound A) → o.queue ≡ [] → complete o ≡ (record { queue = []; active = false }, none)
  unfolding complete
  complete_last o e = ground arith

  complete_next :
      (o : Outbound A) (x : A) (rest : List A)
      → o.queue ≡ x ∷ rest
      → complete o ≡ (record o { queue = rest }, some x)
  unfolding complete
  complete_next o x rest e = ground arith

  drain-suc :
      (n : ℕ) (o : Outbound A) (started : List A)
      → drain (suc n) o started ≡ drain n (complete o).0 (started ++ to_list (complete o).1)
  unfolding drain
  drain-suc n o started = refl

  drain_suc_last :
      (o : Outbound A) (started : List A)
      → o.queue ≡ []
      → drain 1 o started ≡ (record { queue = []; active = false }, started ++ [])
  unfolding drain
  drain_suc_last o started e = rw (complete_last o e)

  drain_all :
      (queue : List A) (o : Outbound A) (started : List A)
      → o.queue ≡ queue
      → drain (suc (length queue)) o started
        ≡ (record { queue = []; active = false }, started ++ queue)
  drain_all [] o started e = drain_suc_last o started e
  drain_all (x ∷ queue) o started e =
      drain-suc (suc (length queue)) o started
      ∙ rw (complete_next o x queue e) (
          drain_all queue (record o { queue = queue }) (started ++ x ∷ []) refl
          ∙ ap (λ l. (idle, l)) (append_assoc started (x ∷ []) queue))

  -- After any history in which no write fails: once the write under way and those of the waiting
  -- messages complete, without an error, everything that was sent has been written and the queue is
  -- idle again.
  pub Run-drain :
      {o : Outbound A} {sent started : List A} {flying : ℕ}
      → Run o sent started flying
      → drain (suc (length o.queue)) o started ≡ (idle, sent)
  Run-drain {o} {sent} {started} r =
      drain_all o.queue o started refl ∙ ap (λ l. (idle, l)) ((Run-Fifo r).in_order)
