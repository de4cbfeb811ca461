-- ===== src/Engine/Trace.antt =====
-- What a program of src/engine.rs may do to the world: the rules by which the proofs in Safety follow
-- a step through its awaits. Other processes use the same store meanwhile.
use buyback.Base.{
  String, Bool, true, false, List, ◌∷◌, some, ◌≡◌, refl, ◌∙◌, ◌⊎◌, inl, if◌then◌else◌,
}
use mathlib.Core.Path.{subst}
use buyback.Chain.{PendingTx, PreparedTx}
use buyback.Error.{Error, Result, ok, err}
use buyback.Keys.{Ss58}
use buyback.Store.{Db}
use buyback.Store.History.{History, opened, then_uses, pending_of}
use buyback.Store.Journals.{Since}
use buyback.Engine.Env.{World, Broadcast, Async, ◌>>=◌, lift, pure, throw, attempt}

-- The tables hold a journal of the transaction: the same hash, signer and nonce.
abbrev pub IsJournaledIn : Db → String → PreparedTx → Type 0
IsJournaledIn db job tx =
    (p : PendingTx) × (pending_of job db ≡ some p)
    × (p.tx_hash ≡ tx.tx_hash)
    × (p.signer ≡ tx.signer)
    × (p.nonce ≡ tx.nonce)

-- The tables held the journal of a broadcast when `broadcast` was called; when its bytes leave they hold it
-- still, or an update of the job has closed it since.
abbrev pub IsJournaled : ⦃codec : Ss58⦄ → Broadcast → Type 0
IsJournaled b = (j : IsJournaledIn b.called b.job b.tx) × Since b.job j.0 b.called b.stored

-- From one list of broadcasts to the next: at most one more, and that one journaled.
abbrev pub Sends : ⦃codec : Ss58⦄ → (before after : List Broadcast) → Type 0
Sends before after = (after ≡ before) ⊎ ((b : Broadcast) × (after ≡ b ∷ before) × IsJournaled b)

pub History-append : ⦃codec : Ss58⦄ {a b c : Db} → History a b → History b c → History a c
History-append h opened = h
History-append h (then_uses k u) = then_uses (History-append h k) u

module _ ⦃codec : Ss58⦄ where
  -- The program uses the store by its operations alone, and sends nothing.
  pub record IsQuiet {A : Type 0} (m : Async A) : Type 0 where
    pub history : (w : World) → History w.db (m w).1.db
    pub sent : (w : World) → (m w).1.sent ≡ w.sent

  -- The program uses the store by its operations alone, and sends at most one transaction.
  pub record IsCareful {A : Type 0} (m : Async A) : Type 0 where
    pub history : (w : World) → History w.db (m w).1.db
    pub sends : (w : World) → Sends w.sent (m w).1.sent

  pub lift-IsQuiet : {A : Type 0} (r : Result A) → IsQuiet (lift r)
  unfolding lift
  lift-IsQuiet r = record { history = λ w. opened; sent = λ w. refl }

  pub pure-IsQuiet : {A : Type 0} (a : A) → IsQuiet (pure a)
  unfolding pure
  pure-IsQuiet a = record { history = λ w. opened; sent = λ w. refl }

  pub throw-IsQuiet : {A : Type 0} (x : Error) → IsQuiet (throw {A = A} x)
  unfolding throw
  throw-IsQuiet x = record { history = λ w. opened; sent = λ w. refl }

  pub attempt-IsQuiet : {A : Type 0} {m : Async A} → IsQuiet m → IsQuiet (attempt m)
  unfolding attempt
  attempt-IsQuiet q = record { history = q.history; sent = q.sent }

  pub attempt-IsCareful : {A : Type 0} {m : Async A} → IsCareful m → IsCareful (attempt m)
  unfolding attempt
  attempt-IsCareful q = record { history = q.history; sends = q.sends }

  pub IsQuiet-IsCareful : {A : Type 0} {m : Async A} → IsQuiet m → IsCareful m
  IsQuiet-IsCareful q = record { history = q.history; sends = λ w. inl (q.sent w) }

  -- The world after a bind, by how its first part ended.
  pub bind-History :
      {A B : Type 0} (f : A → Async B) (w w' : World) (r : Result A)
      → History w.db w'.db
      → ((a : A) → History w'.db (f a w').1.db)
      → History w.db (◌>>=◌ (λ _. (r, w')) f w).1.db
  unfolding ◌>>=◌
  bind-History f w w' (ok a) h k = History-append h (k a)
  bind-History f w w' (err x) h k = h

  bind-Sends :
      {A B : Type 0} (f : A → Async B) (w w' : World) (r : Result A)
      → w'.sent ≡ w.sent
      → ((a : A) → Sends w'.sent (f a w').1.sent)
      → Sends w.sent (◌>>=◌ (λ _. (r, w')) f w).1.sent
  unfolding ◌>>=◌
  bind-Sends f w w' (ok a) h k = subst (λ s. Sends s (f a w').1.sent) h (k a)
  bind-Sends f w w' (err x) h k = inl h

  bind_sent :
      {A B : Type 0} (f : A → Async B) (w w' : World) (r : Result A)
      → w'.sent ≡ w.sent
      → ((a : A) → (f a w').1.sent ≡ w'.sent)
      → (◌>>=◌ (λ _. (r, w')) f w).1.sent ≡ w.sent
  unfolding ◌>>=◌
  bind_sent f w w' (ok a) h k = k a ∙ h
  bind_sent f w w' (err x) h k = h

  pub bind_last-Sends :
      {A B : Type 0} (f : A → Async B) (w w' : World) (r : Result A)
      → Sends w.sent w'.sent
      → ((a : A) → (f a w').1.sent ≡ w'.sent)
      → Sends w.sent (◌>>=◌ (λ _. (r, w')) f w).1.sent
  unfolding ◌>>=◌
  bind_last-Sends f w w' (ok a) h k = rw (k a) h
  bind_last-Sends f w w' (err x) h k = h

  pub bind-IsQuiet :
      {A B : Type 0} {m : Async A} {f : A → Async B}
      → IsQuiet m
      → ((a : A) → IsQuiet (f a))
      → IsQuiet (m >>= f)
  unfolding ◌>>=◌
  bind-IsQuiet {m = m} {f = f} q k = record {
    history = λ w. bind-History f w (m w).1 (m w).0 (q.history w) (λ a. (k a).history (m w).1);
    sent = λ w. bind_sent f w (m w).1 (m w).0 (q.sent w) (λ a. (k a).sent (m w).1);
  }

  -- Nothing is sent before, and at most one transaction after.
  pub bind-IsCareful :
      {A B : Type 0} {m : Async A} {f : A → Async B}
      → IsQuiet m
      → ((a : A) → IsCareful (f a))
      → IsCareful (m >>= f)
  unfolding ◌>>=◌
  bind-IsCareful {m = m} {f = f} q k = record {
    history = λ w. bind-History f w (m w).1 (m w).0 (q.history w) (λ a. (k a).history (m w).1);
    sends = λ w. bind-Sends f w (m w).1 (m w).0 (q.sent w) (λ a. (k a).sends (m w).1);
  }

  -- At most one transaction is sent before, and nothing after.
  pub then-IsCareful :
      {A B : Type 0} {m : Async A} {f : A → Async B}
      → IsCareful m
      → ((a : A) → IsQuiet (f a))
      → IsCareful (m >>= f)
  unfolding ◌>>=◌
  then-IsCareful {m = m} {f = f} q k = record {
    history = λ w. bind-History f w (m w).1 (m w).0 (q.history w) (λ a. (k a).history (m w).1);
    sends = λ w. bind_last-Sends f w (m w).1 (m w).0 (q.sends w) (λ a. (k a).sent (m w).1);
  }

  pub if-IsQuiet :
      {A : Type 0} {m n : Async A} (b : Bool) → IsQuiet m → IsQuiet n → IsQuiet (if b then m else n)
  if-IsQuiet true p q = p
  if-IsQuiet false p q = q

  pub if-IsCareful :
      {A : Type 0} {m n : Async A} (b : Bool)
      → IsCareful m
      → IsCareful n
      → IsCareful (if b then m else n)
  if-IsCareful true p q = p
  if-IsCareful false p q = q

pub ruleset quiet_rules =
    (bind-IsQuiet, lift-IsQuiet, pure-IsQuiet, throw-IsQuiet, attempt-IsQuiet, if-IsQuiet)

pub ruleset careful_rules = (bind-IsCareful, if-IsCareful, quiet_rules)
