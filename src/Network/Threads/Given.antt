-- ===== src/Network/Threads/Given.antt =====
-- What the callbacks of core/coreloop_network_plugin.hpp have given the derived class.
use sekkeizu.Base.{
  ℕ, ◌≡◌, refl, sym, ap, subst, ◌∙◌, Bool, true, false, inl, inr, List, [], ◌∷◌, ◌++◌,
  if◌then◌else◌, ◌==◌, ==_iff, ==_ne, map, keep, All, Avoids, Distinct, append-nil, append_assoc,
  Bool-cases,
}
use sekkeizu.Network.Defs.{Event, new_client, client_inputs, post_network_tick, on_disconnected}
use sekkeizu.Network.Tick.{input_events}
use sekkeizu.Network.Threads.Vectors.{vector}

-- The buffers of the endpoint since it was last disconnected, behind those before the events.
abbrev pub given : ℕ → List ℕ → List Event → List ℕ
given e acc [] = acc
given e acc (new_client _ ∷ events) = given e acc events
given e acc (client_inputs j buffers ∷ events) =
    given e (if j == e then acc ++ buffers else acc) events
given e acc (post_network_tick _ ∷ events) = given e acc events
given e acc (on_disconnected j ∷ events) = given e (if j == e then [] else acc) events

pub given-append :
    (e : ℕ) (xs ys : List Event) (acc : List ℕ)
    → given e acc (xs ++ ys) ≡ given e (given e acc xs) ys
given-append e [] ys acc = refl
given-append e (new_client _ ∷ xs) ys acc = given-append e xs ys acc
given-append e (client_inputs j buffers ∷ xs) ys acc = given-append e xs ys _
given-append e (post_network_tick _ ∷ xs) ys acc = given-append e xs ys acc
given-append e (on_disconnected j ∷ xs) ys acc = given-append e xs ys _

pub given-new_clients : (e : ℕ) (acc es : List ℕ) → given e acc (map new_client es) ≡ acc
given-new_clients e acc [] = refl
given-new_clients e acc (x ∷ es) = given-new_clients e acc es

given-Avoids :
    (e : ℕ) (acc : List ℕ) (m : List (ℕ × List ℕ)) → Avoids e m → given e acc (input_events m) ≡ acc
unfolding input_events
given-Avoids e acc [] a = refl
given-Avoids e acc ((j, v) ∷ m) a = rw (==_ne j e a.0, given) (given-Avoids e acc m a.1)

vector-Avoids : (e : ℕ) (m : List (ℕ × List ℕ)) → Avoids e m → vector e m ≡ []
vector-Avoids e [] a = refl
vector-Avoids e ((j, v) ∷ m) a = rw (==_ne j e a.0, vector) (vector-Avoids e m a.1)

-- The jobs of the clients give each endpoint what its vector holds.
pub given-input_events :
    (e : ℕ) (acc : List ℕ) (m : List (ℕ × List ℕ))
    → Distinct m
    → given e acc (input_events m) ≡ acc ++ vector e m
unfolding input_events
given-input_events e acc [] h = sym (append-nil acc)
given-input_events e acc ((j, v) ∷ m) h = elim (Bool-cases (j == e)) [
  | inl hit ↦
      let a : Avoids e m = subst (λ i. Avoids i m) ((==_iff j e).0 hit) h.0 in
      rw (hit, given, vector) (given-Avoids e (acc ++ v) m a)
  | inr miss ↦ rw (miss, given, vector) (given-input_events e acc m h.1)
]

module _ (p : ℕ → Bool) where
  pub keep-append : (xs ys : List ℕ) → keep p (xs ++ ys) ≡ keep p xs ++ keep p ys
  keep-append [] ys = refl
  keep-append (x ∷ xs) ys = elim (Bool-cases (p x)) [
    | inl yes_x ↦ rw (yes_x, keep-append xs ys)
    | inr no_x ↦ rw (no_x, keep-append xs ys)
  ]

  pub keep-All : (xs : List ℕ) → All (λ x. p x ≡ true) xs → keep p xs ≡ xs
  keep-All [] a = refl
  keep-All (x ∷ xs) a = rw (a.0, keep-All xs a.1)

  pub keep_none : (xs : List ℕ) → All (λ x. p x ≡ false) xs → keep p xs ≡ []
  keep_none [] a = refl
  keep_none (x ∷ xs) a = rw (a.0, keep_none xs a.1)

  pub keep_behind :
      (xs ys zs kept : List ℕ)
      → keep p zs ≡ kept
      → keep p (xs ++ (ys ++ zs)) ≡ keep p (xs ++ ys) ++ kept
  keep_behind xs ys zs kept h =
      ap (keep p) (sym (append_assoc xs ys zs))
      ∙ keep-append (xs ++ ys) zs
      ∙ ap (λ k. keep p (xs ++ ys) ++ k) h
