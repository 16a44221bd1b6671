-- ===== src/Network/Threads/Vectors.antt =====
-- The vector of an endpoint in a map of core/coreloop_network_plugin.hpp, and how the sections of a
-- tick move it.
use sekkeizu.Base.{
  ℕ, ◌≡◌, refl, ◌∙◌, ◌⊎◌, inl, inr, none, some, List, [], ◌∷◌, ◌++◌, arith, find, replace, emplace,
  erase_key, find-replace, find-emplace, find-erase_key, Avoids, Distinct, Avoids-find,
  Distinct-replace, Option-cases, ==_iff, ◌==◌, if◌then◌else◌,
}
use sekkeizu.Network.Tick.{create_clients, accumulate_inputs, clear_inputs}
use sekkeizu.Network.Ticks.{accumulate_inputs-known, accumulate_inputs-other}
use sekkeizu.Network.TickValid.{accumulate_inputs-has}

-- The buffers of the endpoint, if it has a vector.
abbrev pub vector : ℕ → List (ℕ × List ℕ) → List ℕ
vector e m = elim (find e m) [ none ↦ [] | some buffers ↦ buffers ]

pub vector-replace :
    (k j : ℕ) (v w : List ℕ) (m : List (ℕ × List ℕ))
    → find k m ≡ some w
    → vector j (replace k v m) ≡ (if k == j then v else vector j m)
vector-replace k j v w m h = ground (arith, find-replace k j v w m h)

pub vector-emplace : (k j : ℕ) (m : List (ℕ × List ℕ)) → vector j (emplace k [] m) ≡ vector j m
vector-emplace k j m = ground (arith, find-emplace k j [] m)

pub vector-erase_key :
    (k j : ℕ) (m : List (ℕ × List ℕ))
    → vector j (erase_key k m) ≡ (if k == j then [] else vector j m)
vector-erase_key k j m = ground (arith, find-erase_key k j m)

pub Distinct-emplace : (k : ℕ) (m : List (ℕ × List ℕ)) → Distinct m → Distinct (emplace k [] m)
Distinct-emplace k m h = elim (Option-cases (find k m)) [
  | inl gone ↦ rw (gone, Distinct) (Avoids-find k m gone, h)
  | inr (w, here) ↦ rw (here, Distinct) h
]

Avoids-erase_key : (i k : ℕ) (m : List (ℕ × List ℕ)) → Avoids i m → Avoids i (erase_key k m)
Avoids-erase_key i k [] h = tt
Avoids-erase_key i k ((j, v) ∷ m) h = ground (arith, Avoids-erase_key i k m h.1)

pub Distinct-erase_key : (k : ℕ) (m : List (ℕ × List ℕ)) → Distinct m → Distinct (erase_key k m)
Distinct-erase_key k [] h = tt
Distinct-erase_key k ((j, v) ∷ m) h =
    ground (arith, Distinct-erase_key k m h.1, Avoids-erase_key j k m h.0)

pub create_clients-vector :
    (es : List ℕ) (m : List (ℕ × List ℕ)) (j : ℕ)
    → Distinct m
    → (vector j (create_clients es m) ≡ vector j m) × Distinct (create_clients es m)
unfolding create_clients
create_clients-vector [] m j h = (refl, h)
create_clients-vector (e ∷ es) m j h =
    let (same, distinct) = create_clients-vector es (emplace e [] m) j (Distinct-emplace e m h) in
    (same ∙ vector-emplace e j m, distinct)

pub clear_inputs-vector : (m : List (ℕ × List ℕ)) (j : ℕ) → vector j (clear_inputs m) ≡ []
unfolding clear_inputs
clear_inputs-vector [] j = refl
clear_inputs-vector ((e, buffers) ∷ m) j = ground (arith, clear_inputs-vector m j)

Avoids-clear_inputs : (i : ℕ) (m : List (ℕ × List ℕ)) → Avoids i m → Avoids i (clear_inputs m)
unfolding clear_inputs
Avoids-clear_inputs i [] h = tt
Avoids-clear_inputs i ((j, v) ∷ m) h = (h.0, Avoids-clear_inputs i m h.1)

pub Distinct-clear_inputs : (m : List (ℕ × List ℕ)) → Distinct m → Distinct (clear_inputs m)
unfolding clear_inputs
Distinct-clear_inputs [] h = tt
Distinct-clear_inputs ((j, v) ∷ m) h = (Avoids-clear_inputs j m h.0, Distinct-clear_inputs m h.1)

accumulate_inputs-unknown :
    (e : ℕ) (clients inputs : List (ℕ × List ℕ))
    → find e clients ≡ none
    → let r = accumulate_inputs clients inputs in (find e r.0 ≡ none) × (find e r.1 ≡ find e inputs)
unfolding accumulate_inputs
accumulate_inputs-unknown e clients [] h = (h, refl)
accumulate_inputs-unknown e clients ((j, v) ∷ inputs) h = elim (Option-cases (find j clients)) [
  | inl gone ↦ ground (arith, accumulate_inputs-unknown e clients inputs h)
  | inr (w, here) ↦ ground (
    arith,
    accumulate_inputs-unknown e (replace j (w ++ v) clients) inputs,
    find-replace j e (w ++ v) w clients here,
    ==_iff j e,
  )
]

-- The inputs of one thread and endpoint: all of them go behind what the client has, or none moves.
abbrev pub Moves : ℕ → List (ℕ × List ℕ) → List (ℕ × List ℕ) → Type 0
Moves e clients inputs =
    let r = accumulate_inputs clients inputs in
    ((vector e r.0 ≡ vector e clients ++ vector e inputs) × (vector e r.1 ≡ []))
    ⊎ ((vector e r.0 ≡ vector e clients) × (vector e r.1 ≡ vector e inputs))

pub accumulate_inputs-Moves :
    (e : ℕ) (clients inputs : List (ℕ × List ℕ)) → Distinct inputs → Moves e clients inputs
accumulate_inputs-Moves e clients inputs h = elim (Option-cases (find e clients)) [
  | inl gone ↦
      let (a, b) = accumulate_inputs-unknown e clients inputs gone in
      inr (ground (arith, a), ground (arith, b))
  | inr (w, here) ↦ elim (Option-cases (find e inputs)) [
    | inl gone ↦
        let same = accumulate_inputs-other e clients inputs (Avoids-find e inputs gone) in
        let left = (accumulate_inputs-has clients inputs e).1 in
        inr (ground (arith, same), ground (arith, left))
    | inr (v, there) ↦
        let (a, b) = accumulate_inputs-known e clients inputs w v h here there in
        inl (ground (arith, a), ground (arith, b))
  ]
]

Avoids-accumulate_inputs :
    (i : ℕ) (inputs clients : List (ℕ × List ℕ))
    → Avoids i inputs
    → Avoids i (accumulate_inputs clients inputs).1
unfolding accumulate_inputs
Avoids-accumulate_inputs i [] clients h = tt
Avoids-accumulate_inputs i ((j, v) ∷ inputs) clients h =
    (h.0, Avoids-accumulate_inputs i inputs _ h.1)

pub accumulate_inputs-Distinct :
    (clients inputs : List (ℕ × List ℕ))
    → Distinct clients
    → Distinct inputs
    → let r = accumulate_inputs clients inputs in Distinct r.0 × Distinct r.1
unfolding accumulate_inputs
accumulate_inputs-Distinct clients [] h k = (h, tt)
accumulate_inputs-Distinct clients ((j, v) ∷ inputs) h k = elim (Option-cases (find j clients)) [
  | inl gone ↦
      let rest = accumulate_inputs-Distinct clients inputs h k.1 in
      rw (gone, accumulate_inputs) (rest.0, (Avoids-accumulate_inputs j inputs clients k.0, rest.1))
  | inr (w, here) ↦
      let clients' = replace j (w ++ v) clients in
      let rest =
        accumulate_inputs-Distinct clients' inputs (Distinct-replace j (w ++ v) clients h) k.1 in
      rw (here, accumulate_inputs)
        (rest.0, (Avoids-accumulate_inputs j inputs clients' k.0, rest.1))
]
