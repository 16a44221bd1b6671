-- ===== src/Transaction/Runnable.antt =====
-- A job of database/transaction.hpp runs to its end where its entries have what it needs.
use sekkeizu.Base.{
  All-both, count-none, ℕ, ◌≤◌, ◌≡◌, ◌≢◌, refl, sym, ap, subst, ◌∙◌, inl, inr, Bool, true, false,
  Option, none, some, List, [], ◌∷◌, arith, All, All-mono, count, write, Option-cases, Bool-cases,
  ==_iff, ==_ne, ==_self, ◌==◌,
}
use sekkeizu.Transaction.Types.{
  OpType, insert, delete_one, delete_many, update_one, update_many, upsert_one, upsert_many, Info,
}
use sekkeizu.Transaction.Jobs.{
  Command, ◌>>=◌, command_of, queue_bulk, queue_all, finish_all, call_all, run_on, flag_done,
}
use sekkeizu.Transaction.Window.{is_operation}
use sekkeizu.Transaction.Runs.{queue_all-Frames}
use sekkeizu.Transaction.Supply.{HasDocuments, HasCallable, CanRun}

module _ {B C : Type 0} where
  command_of_total :
      (type : OpType) (a b : B) → (c : Command B C) × (command_of type (some a) (some b) ≡ some c)
  unfolding command_of
  command_of_total insert a b = (_, refl)
  command_of_total delete_one a b = (_, refl)
  command_of_total delete_many a b = (_, refl)
  command_of_total update_one a b = (_, refl)
  command_of_total update_many a b = (_, refl)
  command_of_total upsert_one a b = (_, refl)
  command_of_total upsert_many a b = (_, refl)

  HasDocuments-some :
      (o : Option (Info B C))
      → HasDocuments o
      → (t : Info B C) × (a : B) × (b : B) × (o ≡ some t)
        × (t.operation_op_1 ≡ some a)
        × (t.operation_op_2 ≡ some b)
  HasDocuments-some none h = absurd h
  HasDocuments-some (some t) h = elim (Option-cases t.operation_op_1) [
    | inl gone ↦ absurd (h.0 gone)
    | inr (a, here) ↦ elim (Option-cases t.operation_op_2) [
      | inl gone ↦ absurd (h.1 gone)
      | inr (b, there) ↦ (t, a, b, refl, here, there)
    ]
  ]

  HasCallable-some :
      (o : Option (Info B C))
      → HasCallable o
      → (t : Info B C) × (c : C) × (o ≡ some t) × (t.callable ≡ some c)
  HasCallable-some none h = absurd h
  HasCallable-some (some t) h = elim (Option-cases t.callable) [
    | inl gone ↦ absurd (h gone)
    | inr (c, here) ↦ (t, c, refl, here)
  ]

  queue_bulk_total :
      (f : ℕ → Option (Info B C)) (id : ℕ)
      → HasDocuments (f id)
      → (c : Command B C) × (t : Info B C) × (queue_bulk f id
          ≡ some (c, write f id (record t { operation_op_1 = none; operation_op_2 = none })))
  unfolding queue_bulk
  queue_bulk_total f id h =
      let (t, a, b, here, first, second) = HasDocuments-some (f id) h in
      let (c, e) = command_of_total t.type a b in
      (c, t, rw (here, queue_bulk) (rw (first, second, e) refl))

  queue_all-total :
      (ids : List ℕ) (f : ℕ → Option (Info B C))
      → All (λ j. HasDocuments (f j)) ids
      → ((j : ℕ) → count j ids ≤ 1)
      → (commands : List (Command B C)) × (g : ℕ → Option (Info B C)) × (queue_all ids f
          ≡ some (commands, g))
  unfolding queue_all
  queue_all-total [] f h once = ([], f, refl)
  queue_all-total (id ∷ ids) f h once =
      let (c, t, e) = queue_bulk_total f id h.0 in
      let f' : ℕ → Option (Info B C) =
        write f id (record t { operation_op_1 = none; operation_op_2 = none }) in
      let apart = count-none id ids (ground (arith, once id, ==_self id)) in
      let kept : All (λ j. HasDocuments (f' j)) ids =
        All-mono _ _
          (λ (j : ℕ) (q : HasDocuments (f j) × (j ≢ id)).
            rw (==_ne id j (λ same. q.1 (sym same))) q.0)
          ids (All-both _ _ ids h.1 apart) in
      let (commands, g, rest) = queue_all-total ids f' kept (λ j. ground (arith, once j)) in
      (c ∷ commands, g, rw (e, queue_all) (rw (rest, queue_all) refl))

  is_operation-some :
      (o : Option (Info B C)) → is_operation o ≡ true → (t : Info B C) × (o ≡ some t)
  is_operation-some none e = absurd (cc)
  is_operation-some (some t) e = (t, refl)

  finish_all-total :
      (ids : List ℕ) (f : ℕ → Option (Info B C))
      → All (λ j. is_operation (f j) ≡ true) ids
      → (g : ℕ → Option (Info B C)) × (finish_all ids f ≡ some g)
  unfolding finish_all
  finish_all-total [] f h = (f, refl)
  finish_all-total (id ∷ ids) f h =
      let (t, here) = is_operation-some (f id) h.0 in
      let f' : ℕ → Option (Info B C) = write f id (flag_done t) in
      let (g, rest) = finish_all-total ids f' (
        All-mono _ _ (λ (j : ℕ) (op : is_operation (f j) ≡ true). ground (arith, here, h.0, op)) ids
          h.1) in
      (g, rw (here, finish_all) rest)

  flagged-HasCallable :
      (f : ℕ → Option (Info B C)) (id j : ℕ) (t : Info B C)
      → f id ≡ some t
      → HasCallable (f j)
      → HasCallable (write f id (flag_done t) j)
  flagged-HasCallable f id j t here h = elim (Bool-cases (id == j)) [
    | inl hit ↦
        let same : f j ≡ some t = ap f (sym ((==_iff id j).0 hit)) ∙ here in
        rw hit (subst HasCallable same h)
    | inr miss ↦ rw miss h
  ]

  call_all-some :
      (id : ℕ) (ids : List ℕ) (f g : ℕ → Option (Info B C)) (t : Info B C) (c : C)
      (commands : List (Command B C))
      → f id ≡ some t
      → t.callable ≡ some c
      → call_all ids (write f id (flag_done t)) ≡ some (commands, g)
      → call_all (id ∷ ids) f ≡ some (Command.call c ∷ commands, g)
  unfolding call_all
  call_all-some id ids f g t c commands here callable rest =
      ap
        (λ o. o >>= (λ u. u.callable >>= (λ k.
          call_all ids (write f id (flag_done u)) >>= (λ r. some (Command.call k ∷ r.0, r.1)))))
        here
      ∙ ap
          (λ o. o >>= (λ k.
            call_all ids (write f id (flag_done t)) >>= (λ r. some (Command.call k ∷ r.0, r.1))))
          callable
      ∙ ap (λ o. o >>= (λ r. some (Command.call c ∷ r.0, r.1))) rest

  call_all-total :
      (ids : List ℕ) (f : ℕ → Option (Info B C))
      → All (λ j. HasCallable (f j)) ids
      → (commands : List (Command B C)) × (g : ℕ → Option (Info B C)) × (call_all ids f
          ≡ some (commands, g))
  unfolding call_all
  call_all-total [] f h = ([], f, refl)
  call_all-total (id ∷ ids) f h =
      let (t, c, here, callable) = HasCallable-some (f id) h.0 in
      let f' : ℕ → Option (Info B C) = write f id (flag_done t) in
      let (commands, g, rest) = call_all-total ids f' (
        All-mono _ _ (λ (j : ℕ) (q : HasCallable (f j)). flagged-HasCallable f id j t here q) ids
          h.1) in
      (Command.call c ∷ commands, g, call_all-some id ids f g t c commands here callable rest)

  pub run_on-total :
      (bulk : Bool) (ids : List ℕ) (f : ℕ → Option (Info B C))
      → All (λ j. CanRun bulk (f j)) ids
      → All (λ j. is_operation (f j) ≡ true) ids
      → ((j : ℕ) → count j ids ≤ 1)
      → (commands : List (Command B C)) × (g : ℕ → Option (Info B C)) × (run_on bulk ids f
          ≡ some (commands, g))
  unfolding run_on
  run_on-total true ids f h ops once =
      let (commands, g, queued) = queue_all-total ids f h once in
      let frames = queue_all-Frames ids f g commands queued in
      let (g', finished) = finish_all-total ids g (
        All-mono _ _ (λ (j : ℕ) (op : is_operation (f j) ≡ true). frames.operation j ∙ op) ids
          ops) in
      (commands, g', rw (queued, run_on) (rw (finished, run_on) refl))
  run_on-total false ids f h ops once = call_all-total ids f h
