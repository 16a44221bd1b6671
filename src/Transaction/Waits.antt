-- ===== src/Transaction/Waits.antt =====
-- The callables that wait in the collections of database/transaction.hpp, and how a walk of `update` and
-- a push change their number.
use sekkeizu.Base.{
  ℕ, ◌+◌, ◌-◌, ◌%◌, ◌^◌, ◌≤◌, ◌<◌, ◌≡◌, refl, ap, ap₂, ◌∙◌, inl, inr, Option, some, List, [], ◌∷◌,
  arith, Each, find, replace, write, Bool-cases, List-cases, ==_ne, ==_self, ◌==◌,
}
use sekkeizu.Database.Defs.{Database, execute}
use sekkeizu.Transaction.Types.{Info, Collection, Transaction, Job}
use sekkeizu.Transaction.Push.{fill_slot, entry}
use sekkeizu.Transaction.Pending.{Pending, get_pending_operations}
use sekkeizu.Transaction.Update.{clear_all, send_pending}
use sekkeizu.Transaction.Window.{
  bit, is_callable, callables, callables-add, callables-cong, callables-suc, payload,
}
use sekkeizu.Transaction.Batch.{IsOpen, get_pending_operations-Takes}

module _ {B C : Type 0} where
  -- The callables of a collection, and of all, that wait.
  abbrev pub waiting : Collection B C → ℕ
  waiting info = callables info.transactions info.first_id (info.current_id - info.first_id)

  abbrev pub waiting_all : List (ℕ × Collection B C) → ℕ
  waiting_all [] = 0
  waiting_all ((_, info) ∷ cs) = waiting info + waiting_all cs

  pub waiting_all-replace :
      (k : ℕ) (v w : Collection B C) (cs : List (ℕ × Collection B C))
      → find k cs ≡ some w
      → waiting_all (replace k v cs) + waiting w ≡ waiting_all cs + waiting v
  waiting_all-replace k v w [] e = absurd (cc)
  waiting_all-replace k v w ((j, x) ∷ cs) e = ground (arith, waiting_all-replace k v w cs)

  module _ (getter : ℕ → Option (Transaction B C)) where
    module _ (k counter : ℕ) (info : Collection B C) (o : IsOpen info) where
      abbrev got : Pending B C
      got = get_pending_operations getter counter k info

      got-waiting :
          (got.pending_callables + waiting info) % 256 ≡ (counter + waiting got.info) % 256
      got-waiting =
          let (n, t) = get_pending_operations-Takes getter counter k info o in
          let rest = info.current_id - (info.first_id + n) in
          let f = info.transactions in
          let whole : waiting info
              ≡ callables f info.first_id n + callables f (info.first_id + n) rest =
            ap (callables f info.first_id) (omega (arith, t.within))
            ∙ callables-add f info.first_id n rest in
          let left : waiting got.info ≡ callables f (info.first_id + n) rest =
            ap₂ (callables got.info.transactions) t.moved (omega (arith, t.moved, t.current))
            ∙ callables-cong got.info.transactions f (info.first_id + n) rest
                (λ j a b. ap payload (t.ahead j a)) in
          omega (arith, whole, left, t.counted)

    pub send_pending-waiting :
        (cs : List (ℕ × Collection B C)) (counter : ℕ) (database : Database Job)
        → Each (λ _ info. IsOpen info) cs
        → let sent = send_pending getter cs counter database in
          (sent.1 + waiting_all cs) % 256 ≡ (counter + waiting_all sent.0) % 256
    unfolding send_pending
    send_pending-waiting [] counter database o = refl
    send_pending-waiting ((k, info) ∷ cs) counter database o =
        elim (Bool-cases (info.first_id == info.current_id)) [
          | inl idle ↦
              rw (idle, send_pending) (omega (arith, send_pending-waiting cs counter database o.1))
          | inr busy ↦ elim (List-cases (got k counter info o.0).transactions) [
            | inl empty ↦
                rw (busy, empty, send_pending) (omega (arith, got-waiting k counter info o.0))
            | inr (x, xs, some_taken) ↦
                let p = got k counter info o.0 in
                let sent =
                  execute database
                    (record { collection = k; ids = p.transactions; bulk = p.has_non_callable }) in
                let rest = send_pending-waiting cs p.pending_callables sent o.1 in
                rw (busy, some_taken, send_pending)
                  (omega (arith, got-waiting k counter info o.0, rest))
          ]
        ]

  -- A push adds its entry to those that wait.
  pub fill_slot-waiting :
      (info : Collection B C) (fill : Info B C → Info B C)
      → info.first_id ≤ info.current_id
      → info.current_id + 1 < 2 ^ 64
      → waiting (fill_slot info fill)
        ≡ waiting info + bit (is_callable (some (fill (entry info.transactions info.current_id))))
  fill_slot-waiting info fill h room =
      let f = info.transactions in
      let new = some (fill (entry f info.current_id)) in
      let n = info.current_id - info.first_id in
      let g = write f info.current_id (fill (entry f info.current_id)) in
      let here : g info.current_id ≡ new = rw (==_self info.current_id) refl in
      let old : callables g info.first_id n ≡ callables f info.first_id n =
        callables-cong g f info.first_id n
          (λ j a b. ap payload (rw (==_ne info.current_id j (omega arith)) refl)) in
      ap (callables g info.first_id) (omega arith)
      ∙ callables-suc g info.first_id n
      ∙ ap₂ (λ m o. m + bit (is_callable o)) old (ap g (omega arith) ∙ here)

  pub clear_all-waiting : (cs : List (ℕ × Collection B C)) → waiting_all (clear_all cs) ≡ 0
  unfolding clear_all callables
  clear_all-waiting [] = refl
  clear_all-waiting ((k, info) ∷ cs) = omega (arith, clear_all-waiting cs)
