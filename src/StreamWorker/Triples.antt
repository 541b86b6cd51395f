-- ===== src/StreamWorker/Triples.antt =====
-- src/redis/stream.worker.ts: what is kept from step to step of a chain of awaited calls.

use boilerplate_express_ts.StreamWorker.{Reply, ok, error, Work, Action, pure, ◌>>=◌}

-- Of an answer that is no error.
abbrev pub OfReply : {S A : Type 0} → (A → Work S → Type 0) → Work S × Reply A → Type 0
OfReply Q (w, ok a) = Q a w
OfReply Q (w, error e) = Unit

module _ {S : Type 0} (I : Work S → Type 0) where
  -- From a state with `I` and `P`, the action ends in one with `I`, and with `Q` unless it is rejected.
  abbrev pub Ensures :
      {A : Type 0} → (Work S → Type 0) → Action S A → (A → Work S → Type 0) → Type 0
  Ensures P m Q = (w : Work S) → I w → P w → I (m w).0 × OfReply Q (m w)

  abbrev pub Any : {A : Type 0} → A → Work S → Type 0
  Any a w = Unit

  abbrev pub Keeps : {A : Type 0} → Action S A → Type 0
  Keeps m = (w : Work S) → I w → I (m w).0

  bind_from :
      {A B : Type 0} (Q : A → Work S → Type 0) (R : B → Work S → Type 0) (f : A → Action S B)
      (w : Work S) (r : Reply A)
      → ((a : A) → Ensures (Q a) (f a) R)
      → I w
      → OfReply Q (w, r)
      → I (((λ (v : Work S). (w, r)) >>= f) w).0 × OfReply R (((λ (v : Work S). (w, r)) >>= f) w)
  bind_from Q R f w (ok a) next i q = next a w i q
  bind_from Q R f w (error e) next i q = (i, tt)

  pub bind-Ensures :
      {A B : Type 0} (P : Work S → Type 0) (Q : A → Work S → Type 0) (R : B → Work S → Type 0)
      (m : Action S A) (f : A → Action S B)
      → Ensures P m Q
      → ((a : A) → Ensures (Q a) (f a) R)
      → Ensures P (m >>= f) R
  bind-Ensures P Q R m f first next w i p =
      bind_from Q R f (m w).0 (m w).1 next (first w i p).0 (first w i p).1

  pub trivially : {A : Type 0} (w : Work S) (r : Reply A) → OfReply (Any {A = A}) (w, r)
  trivially w (ok a) = tt
  trivially w (error e) = tt

  pub pure-Ensures :
      {A : Type 0} (P : Work S → Type 0) (Q : A → Work S → Type 0) (a : A)
      → ((w : Work S) → P w → Q a w)
      → Ensures P (pure a) Q
  pure-Ensures P Q a holds w i p = (i, holds w p)
