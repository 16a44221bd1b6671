-- ===== src/Transaction/Deletion.antt =====
-- When `update` of database/transaction.hpp asks for the deletion of an object.
use mathlib.Core.Bool.{false≢true}
use sekkeizu.Base.{
  ℕ, ◌≡◌, refl, sym, ◌∙◌, subst, ◌⊎◌, inl, inr, true, false, Option, some, List, [], ◌∷◌, arith,
  Each, find, Each-find, Bool-cases, Option-cases, dec64, ◌↔◌,
}
use sekkeizu.Database.Defs.{Database}
use sekkeizu.Transaction.Types.{BsonApi, Dependency, Info, Collection, Transaction, Job}
use sekkeizu.Transaction.Update.{is_finished, can_delete, update}
use sekkeizu.Transaction.Window.{IsPlain}
use sekkeizu.Transaction.System.{System, Reach}
use sekkeizu.Transaction.Initial.{Reach-Inv}

module _ {B C : Type 0} where
  -- No id is left to take, and the newest entry, if there is one, is done.
  pub record IsFinished (info : Collection B C) : Type 0 where
    pub drained : info.first_id ≡ info.current_id
    pub last_done :
        (t : Info B C) → info.transactions (dec64 info.current_id) ≡ some t → t.done ≡ true

  is_finished_sound : (info : Collection B C) → is_finished info ≡ true → IsFinished info
  unfolding is_finished
  is_finished_sound info e = record { drained = ground arith; last_done = λ t h. ground arith }

  is_finished_complete : (info : Collection B C) → IsFinished info → is_finished info ≡ true
  unfolding is_finished
  is_finished_complete info f = elim (Option-cases (info.transactions (dec64 info.current_id))) [
    | inl gone ↦ ground (arith, f.drained)
    | inr (t, here) ↦ ground (arith, f.drained, f.last_done t here)
  ]

  can_delete_sound :
      (cs : List (ℕ × Collection B C)) → can_delete cs ≡ true → Each (λ _ info. IsFinished info) cs
  unfolding can_delete
  can_delete_sound [] e = tt
  can_delete_sound ((k, info) ∷ cs) e =
      (is_finished_sound info (ground arith), can_delete_sound cs (ground arith))

  can_delete_complete :
      (cs : List (ℕ × Collection B C)) → Each (λ _ info. IsFinished info) cs → can_delete cs ≡ true
  unfolding can_delete
  can_delete_complete [] h = refl
  can_delete_complete ((k, info) ∷ cs) h =
      ground (arith, is_finished_complete info h.0, can_delete_complete cs h.1)

  -- `update` asks for deletion exactly when the object is flagged and was already scheduled for it,
  -- or is flagged and all its collections are finished; it then hands no job to the database, and
  -- leaves the object scheduled.
  pub update-deletes :
      (diff : ℕ) (database : Database Job) (getter : ℕ → Option (Transaction B C))
      (t : Transaction B C)
      → let out = update diff database getter t in
        ((out.0 ≡ false) ↔ (
          (t.flagged ≡ true)
          × ((t.scheduled ≡ true) ⊎ Each (λ _ info. IsFinished info) t.collections)))
        × (out.0 ≡ false → (out.2 ≡ database) × (out.1 ≡ record t { scheduled = true }))
  unfolding update
  update-deletes diff database getter t = (
    (
      λ e. (
        ground arith,
        elim (Bool-cases t.scheduled) [
          | inl old ↦ inl old
          | inr new ↦ inr (can_delete_sound t.collections (ground arith))
        ],
      ),
      λ h. elim h.1 [
        | inl old ↦ ground arith
        | inr finished ↦ ground (arith, can_delete_complete t.collections finished)
      ],
    ),
    λ e. (ground arith, ground arith),
  )

  -- An object whose newest push to some collection is a dependency is not deleted, however often it
  -- is updated and whatever its jobs have done: the entry of a dependency is never marked done.
  -- (Until it is unflagged or something else is pushed; an object that was scheduled before stays so.)
  pub dependency_last-kept :
      {api : BsonApi B} {s : System B C} (r : Reach api s) (k : ℕ) (info : Collection B C)
      (t : Info B C) (d : Dependency) (diff : ℕ) (database : Database Job)
      (getter : ℕ → Option (Transaction B C))
      → find k s.self.collections ≡ some info
      → info.transactions (dec64 info.current_id) ≡ some t
      → t.dependency ≡ some d
      → s.self.scheduled ≡ false
      → (update diff database getter s.self).0 ≡ true
  dependency_last-kept {s} r k info t d diff database getter known newest dep fresh =
      elim (Bool-cases (update diff database getter s.self).0) [
        | inl kept ↦ kept
        | inr deleted ↦ elim ((update-deletes diff database getter s.self).0.0 deleted).1 [
          | inl old ↦ absurd (false≢true (sym fresh ∙ old))
          | inr finished ↦
              let f = Each-find _ k info s.self.collections known finished in
              let v = Each-find _ k info s.self.collections known (Reach-Inv r).each in
              let plain : IsPlain (some t) =
                subst IsPlain newest (v.plain (dec64 info.current_id)) in
              absurd (false≢true (sym (plain (ground arith)) ∙ f.last_done t newest))
        ]
      ]
