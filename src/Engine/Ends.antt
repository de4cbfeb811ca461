-- ===== src/Engine/Ends.antt =====
-- What holds of the world when a program of src/engine.rs has ended well, and how a program goes on
-- from there: the rules for a broadcast that follows its journal.
use buyback.Base.{◌≡◌, refl, inl}
use mathlib.Core.Path.{subst}
use buyback.Error.{Result, ok, err}
use buyback.Keys.{Ss58}
use buyback.Store.History.{History}
use buyback.Engine.Env.{World, Async, ◌>>=◌, pure}
use buyback.Engine.Trace.{Sends, History-append, IsQuiet, IsCareful}

-- What holds of the result and the world when a program has succeeded.
pub record Ends {A : Type 0} (m : Async A) (P : A → World → Type 0) : Type 0 where
  pub holds : (w : World) (a : A) → (m w).0 ≡ ok a → P a (m w).1

ends_after :
    {A B : Type 0} (f : A → Async B) (P : B → World → Type 0)
    → ((a : A) → Ends (f a) P)
    → (r : Result A) (w : World) (b : B) → (◌>>=◌ (λ _. (r, w)) f w).0 ≡ ok b
    → P b (◌>>=◌ (λ _. (r, w)) f w).1
unfolding ◌>>=◌
ends_after f P k (ok a) w b h = (k a).holds w b h
ends_after f P k (err x) w b h = cc

pub ends_bind :
    {A B : Type 0} (m : Async A) {f : A → Async B} (P : B → World → Type 0)
    → ((a : A) → Ends (f a) P)
    → Ends (m >>= f) P
unfolding ◌>>=◌
ends_bind m {f = f} P k = record { holds = λ w. ends_after f P k (m w).0 (m w).1 }

ends_map_after :
    {A B : Type 0} (g : A → B) (Q : A → World → Type 0) (P : B → World → Type 0)
    → ((a : A) (w : World) → Q a w → P (g a) w)
    → (r : Result A) (w : World) → ((a : A) → r ≡ ok a → Q a w)
    → (b : B) → (◌>>=◌ (λ _. (r, w)) (λ a. pure (g a)) w).0 ≡ ok b
    → P b (◌>>=◌ (λ _. (r, w)) (λ a. pure (g a)) w).1
unfolding ◌>>=◌ pure
ends_map_after g Q P k (ok a) w q b h =
    let e : g a ≡ b = cc in subst (λ x. P x w) e (k a w (q a refl))
ends_map_after g Q P k (err x) w q b h = cc

pub ends_map :
    {A B : Type 0} {m : Async A} (g : A → B) (Q : A → World → Type 0) (P : B → World → Type 0)
    → ((a : A) (w : World) → Q a w → P (g a) w)
    → Ends m Q
    → Ends (m >>= λ a. pure (g a)) P
unfolding ◌>>=◌
ends_map {m = m} g Q P k q = record {
  holds = λ w. ends_map_after g Q P k (m w).0 (m w).1 (q.holds w);
}

module _ ⦃codec : Ss58⦄ {A B : Type 0} (f : A → Async B) (Q : A → World → Type 0)
    (after : (a : A) (w : World)
      → Q a w
      → History w.db (f a w).1.db × Sends w.sent (f a w).1.sent) where
  after_quiet :
      (w w' : World) (r : Result A)
      → History w.db w'.db
      → w'.sent ≡ w.sent
      → ((a : A) → r ≡ ok a → Q a w')
      → History w.db (◌>>=◌ (λ _. (r, w')) f w).1.db
        × Sends w.sent (◌>>=◌ (λ _. (r, w')) f w).1.sent
  unfolding ◌>>=◌
  after_quiet w w' (ok a) h s q =
      let (k, t) = after a w' (q a refl) in
      (History-append h k, subst (λ x. Sends x (f a w').1.sent) s t)
  after_quiet w w' (err x) h s q = (h, inl s)

  -- A quiet program that ends as the next one needs.
  pub after-IsCareful : {m : Async A} → IsQuiet m → Ends m Q → IsCareful (m >>= f)
  unfolding ◌>>=◌
  after-IsCareful {m = m} q n = record {
    history = λ w. (after_quiet w (m w).1 (m w).0 (q.history w) (q.sent w) (n.holds w)).0;
    sends = λ w. (after_quiet w (m w).1 (m w).0 (q.history w) (q.sent w) (n.holds w)).1;
  }
