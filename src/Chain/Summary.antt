-- ===== src/Chain/Summary.antt =====
-- What the summary of an extrinsic's events says (`from_events` of src/chain.rs).
use buyback.Base.{
  ◌≡◌, refl, ap, ◌∙◌, String, List, [], ◌∷◌, ◌++◌, Bool, true, false, ◌&&◌, ◌||◌, ◌=?◌, string_eq,
  String-discrete, is_some, arith,
}
use buyback.Chain.{EventSummary, pallet, has_name, has}
use buyback.Chain.Events.{
  Event, Kind, choose, kind_of, read_kind, is_event, is_failure, is_purchase, is_destruction,
  is_movement, is_transfer, no_events, push_name, read_events, from_events,
}
use buyback.Error.{Result, ok, err, bind_ok}

has_name-append :
    (names : List (String × String)) (p n p' n' : String)
    → has_name (names ++ (p', n') ∷ []) p n ≡ (has_name names p n || (p' =? p && n' =? n))
has_name-append [] p n p' n' = ground arith
has_name-append ((a, b) ∷ names) p n p' n' = ground (arith, has_name-append names p n p' n')

-- An event has one name.
one_name :
    (ev : Event) (p n p' n' : String)
    → (n =? n') ≡ false
    → (is_event ev p n && is_event ev p' n') ≡ false
one_name ev p n p' n' h = ground arith

one_of_two :
    (ev : Event) (p n p' n' p'' n'' : String)
    → (n =? n') ≡ false
    → (n =? n'') ≡ false
    → (is_event ev p n && (is_event ev p' n' || is_event ev p'' n'')) ≡ false
one_of_two ev p n p' n' p'' n'' h h' =
    ground (arith, one_name ev p n p' n' h, one_name ev p n p'' n'' h')

two_of_one :
    (ev : Event) (p n p' n' p'' n'' : String)
    → (n =? n'') ≡ false
    → (n' =? n'') ≡ false
    → ((is_event ev p n || is_event ev p' n') && is_event ev p'' n'') ≡ false
two_of_one ev p n p' n' p'' n'' h h' =
    ground (arith, one_name ev p n p'' n'' h, one_name ev p' n' p'' n'' h')

two_of_two :
    (ev : Event) (p n p' n' q m q' m' : String)
    → (n =? m) ≡ false
    → (n =? m') ≡ false
    → (n' =? m) ≡ false
    → (n' =? m') ≡ false
    → ((is_event ev p n || is_event ev p' n') && (is_event ev q m || is_event ev q' m')) ≡ false
two_of_two ev p n p' n' q m q' m' a b c d =
    ground (arith, one_of_two ev p n q m q' m' a b, one_of_two ev p' n' q m q' m' c d)

abbrev is_kind : Kind → Kind → Bool
is_kind Kind.failure Kind.failure = true
is_kind Kind.purchase Kind.purchase = true
is_kind Kind.destruction Kind.destruction = true
is_kind Kind.movement Kind.movement = true
is_kind Kind.transfer Kind.transfer = true
is_kind _ _ = false

module _ (a b c d e : Bool) where
  choose_purchase : (a && b) ≡ false → is_kind (choose a b c d e) Kind.purchase ≡ b
  choose_purchase ab = ground arith

  choose_destruction :
      (a && c) ≡ false → (b && c) ≡ false → is_kind (choose a b c d e) Kind.destruction ≡ c
  choose_destruction ac bc = ground arith

  choose_movement :
      (a && d) ≡ false
      → (b && d) ≡ false
      → (c && d) ≡ false
      → is_kind (choose a b c d e) Kind.movement ≡ d
  choose_movement ad bd cd = ground arith

  choose_transfer :
      (a && e) ≡ false
      → (b && e) ≡ false
      → (c && e) ≡ false
      → (d && e) ≡ false
      → is_kind (choose a b c d e) Kind.transfer ≡ e
  choose_transfer ae be ce de = ground arith

module _ (s : EventSummary) (ev : Event) (k : Kind) (s' : EventSummary)
    (h : read_kind s ev k ≡ ok s') where
  read_kind-fields :
      (s'.names ≡ s.names)
      × (s'.failed ≡ (s.failed || is_kind k Kind.failure))
      × (is_some s'.stake_added ≡ (is_some s.stake_added || is_kind k Kind.purchase))
      × (is_some s'.alpha_destroyed ≡ (is_some s.alpha_destroyed || is_kind k Kind.destruction))
      × (is_some s'.stake_moved_tao ≡ (is_some s.stake_moved_tao || is_kind k Kind.movement))
      × (is_some s'.transferred ≡ (is_some s.transferred || is_kind k Kind.transfer))
  unfolding read_kind
  read_kind-fields = ground arith

-- The kind of an event, name by name.
module _ (ev : Event) where
  kind_of-failure : is_kind (kind_of ev) Kind.failure ≡ is_failure ev
  unfolding kind_of
  kind_of-failure = ground arith

  kind_of-purchase : is_kind (kind_of ev) Kind.purchase ≡ is_purchase ev
  unfolding kind_of String-discrete
  kind_of-purchase = choose_purchase _ _ _ _ _ (one_name ev _ _ _ _ refl)

  kind_of-destruction : is_kind (kind_of ev) Kind.destruction ≡ is_destruction ev
  unfolding kind_of String-discrete
  kind_of-destruction =
      choose_destruction _ _ _ _ _ (one_of_two ev _ _ _ _ _ _ refl refl)
        (one_of_two ev _ _ _ _ _ _ refl refl)

  kind_of-movement : is_kind (kind_of ev) Kind.movement ≡ is_movement ev
  unfolding kind_of String-discrete
  kind_of-movement =
      choose_movement _ _ _ _ _ (one_of_two ev _ _ _ _ _ _ refl refl)
        (one_of_two ev _ _ _ _ _ _ refl refl) (two_of_two ev _ _ _ _ _ _ _ _ refl refl refl refl)

  kind_of-transfer : is_kind (kind_of ev) Kind.transfer ≡ is_transfer ev
  unfolding kind_of String-discrete
  kind_of-transfer =
      choose_transfer _ _ _ _ _ (one_name ev _ _ _ _ refl) (one_name ev _ _ _ _ refl)
        (two_of_one ev _ _ _ _ _ _ refl refl) (two_of_one ev _ _ _ _ _ _ refl refl)

-- Each number is there if and only if its event is.
pub record IsConsistent (s : EventSummary) : Type 0 where
  pub failed_iff : s.failed ≡ has s "System" "ExtrinsicFailed"
  pub added_iff : is_some s.stake_added ≡ has s pallet "StakeAdded"
  pub destroyed_iff :
      is_some s.alpha_destroyed ≡ (has s pallet "AlphaBurned" || has s pallet "AlphaRecycled")
  pub moved_iff :
      is_some s.stake_moved_tao ≡ (has s pallet "StakeTransferred" || has s pallet "StakeMoved")
  pub transferred_iff : is_some s.transferred ≡ has s "Balances" "Transfer"

or_swap : (a b c d : Bool) → ((a || b) || (c || d)) ≡ ((a || c) || (b || d))
or_swap a b c d = ground arith

read_event-IsConsistent :
    (s : EventSummary) (ev : Event) (s' : EventSummary)
    → read_kind s ev (kind_of ev) ≡ ok s'
    → IsConsistent s
    → IsConsistent (push_name s' ev)
read_event-IsConsistent s ev s' h c =
    let (names, failed, added, destroyed, moved, transferred) =
      read_kind-fields s ev (kind_of ev) s' h in
    let named : (p n : String) → has (push_name s' ev) p n ≡ (has s p n || is_event ev p n) = λ p n.
      has_name-append s'.names p n ev.pallet_name ev.event_name
      ∙ ap (λ (ns : List (String × String)). has_name ns p n || is_event ev p n) names in
    record {
      failed_iff =
          rw (named "System" "ExtrinsicFailed", failed, kind_of-failure ev, c.failed_iff) refl;
      added_iff = rw (named pallet "StakeAdded", added, kind_of-purchase ev, c.added_iff) refl;
      destroyed_iff =
          rw
            (
              named pallet "AlphaBurned",
              named pallet "AlphaRecycled",
              destroyed,
              kind_of-destruction ev,
              c.destroyed_iff,
            )
            (or_swap (has s pallet "AlphaBurned") (has s pallet "AlphaRecycled")
              (is_event ev pallet "AlphaBurned") (is_event ev pallet "AlphaRecycled"));
      moved_iff =
          rw
            (
              named pallet "StakeTransferred",
              named pallet "StakeMoved",
              moved,
              kind_of-movement ev,
              c.moved_iff,
            )
            (or_swap (has s pallet "StakeTransferred") (has s pallet "StakeMoved")
              (is_event ev pallet "StakeTransferred") (is_event ev pallet "StakeMoved"));
      transferred_iff =
          rw (named "Balances" "Transfer", transferred, kind_of-transfer ev, c.transferred_iff)
            refl;
    }

read_events-IsConsistent :
    (s : EventSummary) (evs : List (Result Event)) (s' : EventSummary)
    → read_events s evs ≡ ok s'
    → IsConsistent s
    → IsConsistent s'
unfolding read_events
read_events-IsConsistent s [] s' h c = ground arith
read_events-IsConsistent s (err e ∷ evs) s' h c = absurd cc
read_events-IsConsistent s (ok ev ∷ evs) s' h c =
    let (next, step, rest) = bind_ok (read_kind s ev (kind_of ev)) _ _ h in
    read_events-IsConsistent (push_name next ev) evs s' rest
      (read_event-IsConsistent s ev next step c)

no_events-IsConsistent : IsConsistent no_events
no_events-IsConsistent = record {
  failed_iff = refl;
  added_iff = refl;
  destroyed_iff = refl;
  moved_iff = refl;
  transferred_iff = refl;
}

-- In the summary of an extrinsic's events, the failure flag is set exactly if `System.ExtrinsicFailed` is
-- among the names, and each amount is there exactly if an event that carries it is among them.
pub from_events-IsConsistent :
    (evs : List (Result Event)) (s : EventSummary) → from_events evs ≡ ok s → IsConsistent s
unfolding from_events
from_events-IsConsistent evs s h = read_events-IsConsistent no_events evs s h no_events-IsConsistent
