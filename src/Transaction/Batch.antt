-- ===== src/Transaction/Batch.antt =====
-- What `get_pending_operations` of database/transaction.hpp takes, and where it stops.
use sekkeizu.Base.{
  ℕ, ◌+◌, ◌%◌, ◌^◌, ◌≤◌, ◌<◌, ◌≡◌, ◌≢◌, refl, sym, inl, inr, true, false, not, Option, some, [],
  arith, All, subst, distance64,
}
use sekkeizu.Transaction.Types.{Dependency, Info, Collection, Transaction}
use sekkeizu.Transaction.Pending.{is_met, scan, scan_start, Pending, get_pending_operations}
use sekkeizu.Transaction.Window.{IsKind, IsWaiting, payload, operations, callables}
use sekkeizu.Transaction.Scanned.{scan_start-Ends, Ends}

module _ {B C : Type 0} where
  -- The ids did not wrap, and every entry from `first_id` on is there and waits.
  pub record IsOpen (info : Collection B C) : Type 0 where
    pub ordered : info.first_id ≤ info.current_id
    pub small : info.current_id < 2 ^ 64
    pub waits : (j : ℕ) → info.first_id ≤ j → j < info.current_id → IsWaiting (info.transactions j)

  module _ (getter : ℕ → Option (Transaction B C)) (counter collection : ℕ)
      (info : Collection B C) where
    abbrev result : Pending B C
    result = get_pending_operations getter counter collection info

    -- What a call that passes `n` ids by leaves behind.
    pub record Takes (n : ℕ) : Type 0 where
      pub moved : result.info.first_id ≡ info.first_id + n
      pub within : info.first_id + n ≤ info.current_id
      pub current : result.info.current_id ≡ info.current_id
      pub taken : result.transactions ≡ operations info.transactions info.first_id n
      pub one_kind :
          All (λ j. IsKind result.has_non_callable (info.transactions j)) result.transactions
      pub counted :
          (result.pending_callables + callables info.transactions info.first_id n) % 256
          ≡ counter % 256
      pub payloads : (j : ℕ) → payload (result.info.transactions j) ≡ payload (info.transactions j)
      pub ahead : (j : ℕ) → info.first_id + n ≤ j → result.info.transactions j ≡ info.transactions j
      pub behind : (j : ℕ) → j < info.first_id → result.info.transactions j ≡ info.transactions j
      pub met :
          (j : ℕ) (t : Info B C) (d : Dependency)
          → info.first_id ≤ j
          → j < info.first_id + n
          → info.transactions j ≡ some t
          → t.dependency ≡ some d
          → is_met getter collection d ≡ true

    -- Why the call went no further: nothing is left, or the next entry is a dependency that is not
    -- met, or it is of the other kind and something was taken.
    pub data Stops : Type 0 where
      at_end : result.info.first_id ≡ info.current_id → Stops
      at_dependency :
          (t : Info B C) (d : Dependency)
          → info.transactions result.info.first_id ≡ some t
          → t.dependency ≡ some d
          → is_met getter collection d ≡ false
          → Stops
      at_other_kind :
          result.transactions ≢ []
          → IsKind (not result.has_non_callable) (info.transactions result.info.first_id)
          → Stops

    ends :
        (o : IsOpen info)
        → Ends
            (is_met getter collection)
            info.transactions
            info.first_id
            info.current_id
            counter
            o.waits
            o.small
            (scan
              (is_met getter collection)
              info.current_id
              (distance64 info.first_id info.current_id)
              (scan_start counter info))
    ends o =
        scan_start-Ends (is_met getter collection) info.transactions info.first_id info.current_id
          counter o.waits o.small info refl refl o.ordered

    pub get_pending_operations-Takes : IsOpen info → (n : ℕ) × Takes n
    unfolding get_pending_operations
    get_pending_operations-Takes o =
        let p = (ends o).0 in
        (
          p.k,
          record {
            moved = p.visited;
            within = omega (arith, p.visited, p.in_range);
            current = refl;
            taken = p.taken;
            one_kind = p.kinds;
            counted = p.counted;
            payloads = p.same;
            ahead = λ j h. p.ahead j (omega (arith, p.visited));
            behind = p.behind;
            met = λ j t d a b. p.passed j t d a (omega (arith, p.visited));
          },
        )

    pub get_pending_operations-Stops : IsOpen info → Stops
    unfolding get_pending_operations
    get_pending_operations-Stops o = elim (ends o).1 [
      | inl e ↦ at_end e
      | inr (_, t, e, inl (d, q, m)) ↦ at_dependency t d e q m
      | inr (_, t, e, inr (m, k)) ↦ at_other_kind m (subst (IsKind _) (sym e) k)
    ]
