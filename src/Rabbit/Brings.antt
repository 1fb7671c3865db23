-- ===== src/Rabbit/Brings.antt =====
-- Sequences of declarations on a channel of a broker that keeps its contract.
use delayed_notifier.Prelude.{⊤}
use delayed_notifier.Go.Errors.{Error, Result, ok, err}
use delayed_notifier.Go.Action.{Action, on_error, ◌>>◌}
use delayed_notifier.Domain.Contract.{Ensures}
use delayed_notifier.Rabbit.Channel.{Channel}
use delayed_notifier.Rabbit.Broker.{Keeps, LawfulChannel}

module _ {S : Type 0} {ch : Channel S} (L : LawfulChannel ch) where
  abbrev pub Kept : S → S → Type 0
  Kept s s' = Keeps L.declared s s'

  pub Kept-refl : (s : S) → Kept s s
  Kept-refl s = record { exchange = λ n k h. h; queue = λ n a h. h; bound = λ q k e h. h }

  pub Kept-trans : {s t u : S} → Kept s t → Kept t u → Kept s u
  Kept-trans h k = record {
    exchange = λ n c x. k.exchange n c (h.exchange n c x);
    queue = λ n a x. k.queue n a (h.queue n a x);
    bound = λ q r e x. k.bound q r e (h.bound q r e x);
  }

  -- A call that succeeds brings `G`, and keeps what there was however it ends.
  abbrev pub Brings : (S → Type 0) → Action S ⊤ → Type 0
  Brings G m = (s : S) → Ensures {A = ⊤} (λ _ s'. G s' × Kept s s') (λ _ s'. Kept s s') (m s)

  abbrev pub Lasts : (S → Type 0) → Type 0
  Lasts G = (s s' : S) → Kept s s' → G s → G s'

  pub bring_then :
      (G H : S → Type 0) (m : Action S ⊤) (k : Action S ⊤)
      → Lasts G
      → Brings G m
      → Brings H k
      → Brings (λ s. G s × H s) (m >> k)
  bring_then G H m k lasts bm bk s = go (m s) (bm s)
    where
      then :
          (s1 : S) (y : Result ⊤ × S)
          → G s1
          → Kept s s1
          → Ensures {A = ⊤} (λ _ s'. H s' × Kept s1 s') (λ _ s'. Kept s1 s') y
          → Ensures {A = ⊤} (λ _ s'. (G s' × H s') × Kept s s') (λ _ s'. Kept s s') y
      then s1 (ok u, s2) g kept (h, kept') = ((lasts s1 s2 kept' g, h), Kept-trans kept kept')
      then s1 (err e, s2) g kept kept' = Kept-trans kept kept'

      go :
          (x : Result ⊤ × S)
          → Ensures {A = ⊤} (λ _ s'. G s' × Kept s s') (λ _ s'. Kept s s') x
          → Ensures {A = ⊤}
              (λ _ s'. (G s' × H s') × Kept s s')
              (λ _ s'. Kept s s')
              (let (r, s') = x in elim r [ ok a ↦ k s' | err e ↦ (err e, s') ])
      go (ok u, s1) (g, kept) = then s1 (k s1) g kept (bk s1)
      go (err e, s1) kept = kept

  pub bring_on_error :
      (G : S → Type 0) (f : Error → Error) (m : Action S ⊤) → Brings G m → Brings G (on_error f m)
  bring_on_error G f m b s = go (m s) (b s)
    where
      go :
          (x : Result ⊤ × S)
          → Ensures {A = ⊤} (λ _ s'. G s' × Kept s s') (λ _ s'. Kept s s') x
          → Ensures {A = ⊤} (λ _ s'. G s' × Kept s s') (λ _ s'. Kept s s') (on_error f (λ _. x) s)
      go (ok u, s1) h = h
      go (err e, s1) h = h
