-- ===== src/Coreloop/Sending.antt =====
-- `send_data` of core/coreloop.hpp, with the sends that the socket has not completed yet.
use sekkeizu.Base.{ℕ, ◌+◌, ◌≡◌, refl, ap, Bool, List, [], ◌∷◌, ◌++◌, arith, if◌then◌else◌}

-- What the handler has captured, with the endpoint; a callback stands as a number.
pub record Send : Type 0 where
  pub endpoint : ℕ
  pub buffer : ℕ
  pub size : ℕ
  pub callback : ℕ

-- A call of a callback.
pub record Called : Type 0 where
  pub callback : ℕ
  pub buffer : ℕ
  pub size : ℕ
  pub bytes : ℕ

unfoldable pub send_data : ℕ → ℕ → ℕ → ℕ → List Send → List Send
send_data endpoint buffer size callback pending =
    pending
    ++ record { endpoint = endpoint; buffer = buffer; size = size; callback = callback } ∷ []

-- The handler, which calls the callback whether there was an error or not.
unfoldable pub on_sent : Send → Bool → ℕ → Called
on_sent s error bytes = record {
  callback = s.callback;
  buffer = s.buffer;
  size = s.size;
  bytes = bytes;
}

-- The sends that were asked for, those that the socket works on, and the calls of callbacks.
pub record Socket : Type 0 where
  pub sent : List Send
  pub pending : List Send
  pub called : List Called

-- The socket completes the sends in any order, with an error or without.
pub data Step (s t : Socket) : Type 0 where
  sends :
      (endpoint buffer size callback : ℕ)
      → t ≡ record s {
        sent =
            record { endpoint = endpoint; buffer = buffer; size = size; callback = callback }
            ∷ s.sent;
        pending = send_data endpoint buffer size callback s.pending;
      }
      → Step s t
  completes :
      (before after : List Send) (send : Send) (error : Bool) (bytes : ℕ)
      → s.pending ≡ before ++ send ∷ after
      → t ≡ record s { pending = before ++ after; called = on_sent send error bytes ∷ s.called }
      → Step s t

pub data Reach : Socket → Type 0 where
  start : Reach (record { sent = []; pending = []; called = [] })
  next : {s t : Socket} → Reach s → Step s t → Reach t

-- A test of the buffer, the size and the callback.
module _ (test : ℕ → ℕ → ℕ → Bool) where
  abbrev pub sends_with : List Send → ℕ
  sends_with [] = 0
  sends_with (s ∷ more) = (if test s.buffer s.size s.callback then 1 else 0) + sends_with more

  abbrev pub calls_with : List Called → ℕ
  calls_with [] = 0
  calls_with (c ∷ calls) = (if test c.buffer c.size c.callback then 1 else 0) + calls_with calls

  sends_with-append : (xs ys : List Send) → sends_with (xs ++ ys) ≡ sends_with xs + sends_with ys
  sends_with-append [] ys = omega arith
  sends_with-append (x ∷ xs) ys = omega (arith, sends_with-append xs ys)

  -- In whatever order the socket completes the sends, with errors or not, the callback of each send is
  -- called once, with its own buffer and size, unless the send is still pending: of any kind, as many were
  -- asked for as are pending and called.
  pub called_once :
      {s : Socket} → Reach s → calls_with s.called + sends_with s.pending ≡ sends_with s.sent
  unfolding send_data on_sent
  called_once Reach.start = refl
  called_once (Reach.next {s} r (Step.sends endpoint buffer size callback e)) =
      let send : Send = record {
        endpoint = endpoint;
        buffer = buffer;
        size = size;
        callback = callback;
      } in
      rw e (omega (arith, called_once r, sends_with-append s.pending (send ∷ [])))
  called_once (Reach.next {s} r (Step.completes before after send error bytes here e)) = rw e (
      omega (
        arith,
        called_once r,
        ap sends_with here,
        sends_with-append before (send ∷ after),
        sends_with-append before after,
      ))
