-- ===== src/Chain/Tests.antt =====
-- A node whose finalized blocks do not hold a journaled transaction.
use buyback.Base.{false, String-discrete, [], ◌∷◌, none, ◌≡◌, refl}
use buyback.Chain.{Action, PendingTx, PendingOutcome}
use buyback.Error.{ok}
use buyback.Chain.Finalized.{Node, find_pending, find_from, find_in_block}
use buyback.Chain.Absence.{IsDead, find_pending-IsDead}

abbrev lost : PendingTx
lost = record {
  action = Action.fund;
  reservation = none;
  signer = "5";
  nonce = 0;
  tx_hash = "h";
  birth_block = 10;
  amount = 7;
}

abbrev node : Node
node = record {
  best_finalized_number = ok 80;
  at_block = λ n. ok (record {
    block_hash = "b";
    extrinsics =
        ok (record {
          hash = "x";
          events = ok (record {
            names = [];
            failed = false;
            stake_added = none;
            alpha_destroyed = none;
            stake_moved_tao = none;
            transferred = none;
          });
        })
        ∷ [];
  });
}

lost_is_dead : find_pending node lost ≡ ok PendingOutcome.dead
unfolding find_pending find_from find_in_block String-discrete
lost_is_dead = refl

find_pending-IsDead_example : IsDead node lost
find_pending-IsDead_example = find_pending-IsDead node lost lost_is_dead
