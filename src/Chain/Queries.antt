-- ===== src/Chain/Queries.antt =====
-- `stake_positions_many` of src/chain.rs against `stake_positions`.
use buyback.Base.{
  ℕ, zero, suc, ◌≤◌, List, [], ◌∷◌, Option, none, some, ◌==◌, ◌≡◌, refl, length, All, arith,
  if◌then◌else◌,
}
use buyback.Chain.{AccountId, StakePosition}
use buyback.Chain.Client.{
  View, RawStakeInfo, StakeMap, held_positions, stake_positions, insert_all, chunk, query_chunks,
  stake_positions_many,
}
use buyback.Error.{ok}

-- `BTreeMap::get` on the entries.
unfoldable pub get_positions : AccountId → StakeMap → Option (List StakePosition)
get_positions k [] = none
get_positions k ((c, v) ∷ out) = let rest = get_positions k out in if c == k then some v else rest

-- The entry of an account is the answer to the query of that account alone.
pub record Agrees (at : View) (out : StakeMap) (k : AccountId) : Type 0 where
  pub positions : List StakePosition
  pub in_map : get_positions k out ≡ some positions
  pub is_alone : stake_positions (ok at) k ≡ ok positions

pub answers :
    (AccountId → List RawStakeInfo) → List AccountId → List (AccountId × List RawStakeInfo)
answers infos [] = []
answers infos (k ∷ ks) = (k, infos k) ∷ answers infos ks

chunk-shorter : (n : ℕ) (keys : List AccountId) → length (chunk n keys).1 ≤ length keys
unfolding chunk
chunk-shorter zero keys = omega arith
chunk-shorter (suc n) [] = omega arith
chunk-shorter (suc n) (k ∷ keys) = omega (arith, chunk-shorter n keys)

chunk_64-shorter :
    (k : AccountId) (keys : List AccountId) → length (chunk 64 (k ∷ keys)).1 ≤ length keys
unfolding chunk
chunk_64-shorter k keys = chunk-shorter 63 keys

module _ (P : AccountId → Type 0) where
  All-chunk :
      (n : ℕ) (keys : List AccountId) → All P (chunk n keys).0 → All P (chunk n keys).1 → All P keys
  unfolding chunk
  All-chunk zero keys _ h = h
  All-chunk (suc n) [] _ h = tt
  All-chunk (suc n) (x ∷ keys) (a, g) h = (a, All-chunk n keys g h)

  All-map :
      (Q : AccountId → Type 0) (xs : List AccountId)
      → ((x : AccountId) → P x → Q x)
      → All P xs
      → All Q xs
  All-map Q [] f _ = tt
  All-map Q (x ∷ xs) f (a, g) = (f x a, All-map Q xs f g)

module _ (at : View) (infos : AccountId → List RawStakeInfo)
    (one : (k : AccountId) → at.stake_info k ≡ ok (infos k))
    (many : (keys : List AccountId) → at.stake_infos keys ≡ ok (answers infos keys)) where
  IsFound : StakeMap → AccountId → Type 0
  IsFound out k = get_positions k out ≡ some (held_positions (infos k))

  alone : (k : AccountId) → stake_positions (ok at) k ≡ ok (held_positions (infos k))
  unfolding stake_positions
  alone k = rw (one k) refl

  insert_one :
      (c k : AccountId) (out : StakeMap)
      → IsFound out k
      → IsFound ((c, held_positions (infos c)) ∷ out) k
  unfolding IsFound get_positions
  insert_one c k out h = ground arith

  insert_all-keeps :
      (keys : List AccountId) (out : StakeMap) (k : AccountId)
      → IsFound out k
      → IsFound (insert_all out (answers infos keys)) k
  unfolding insert_all answers
  insert_all-keeps [] out k h = h
  insert_all-keeps (c ∷ keys) out k h = insert_all-keeps keys _ k (insert_one c k out h)

  insert_all-finds :
      (keys : List AccountId) (out : StakeMap)
      → All (IsFound (insert_all out (answers infos keys))) keys
  unfolding insert_all answers IsFound get_positions
  insert_all-finds [] out = tt
  insert_all-finds (c ∷ keys) out = (
    insert_all-keeps keys _ c (ground arith),
    insert_all-finds keys ((c, held_positions (infos c)) ∷ out),
  )

  -- What the rounds from a map return.
  record Answered (rounds : ℕ) (out : StakeMap) (keys : List AccountId) : Type 0 where
    map_out : StakeMap
    is_ok : query_chunks at rounds out keys ≡ ok map_out
    finds : All (IsFound map_out) keys
    keeps : (k : AccountId) → IsFound out k → IsFound map_out k

  query_chunks-Answered :
      (rounds : ℕ) (out : StakeMap) (keys : List AccountId)
      → length keys ≤ rounds
      → Answered rounds out keys
  unfolding query_chunks
  query_chunks-Answered zero out [] h = record {
    map_out = out;
    is_ok = refl;
    finds = tt;
    keeps = λ k f. f;
  }
  query_chunks-Answered zero out (k ∷ keys) h = absurd (omega arith)
  query_chunks-Answered (suc rounds) out [] h = record {
    map_out = out;
    is_ok = refl;
    finds = tt;
    keeps = λ k f. f;
  }
  query_chunks-Answered (suc rounds) out (k ∷ keys) h =
      let all = k ∷ keys in
      let first = (chunk 64 all).0 in
      let next = insert_all out (answers infos first) in
      let a =
        query_chunks-Answered rounds next (chunk 64 all).1
          (omega (arith, chunk_64-shorter k keys, h)) in
      record {
        map_out = a.map_out;
        is_ok = rw (many first) a.is_ok;
        finds =
            All-chunk (IsFound a.map_out) 64 all
              (All-map (IsFound next) (IsFound a.map_out) first a.keeps
                (insert_all-finds first out))
              a.finds;
        keeps = λ x f. a.keeps x (insert_all-keeps first out x f);
      }

  -- If the node answers a query of several accounts with what it answers for each of them, the query of
  -- any number of accounts ends with a map in which the entry of every account is what the query of that
  -- account alone returns.
  pub stake_positions_many-stake_positions :
      (keys : List AccountId)
      → (out : StakeMap) × (stake_positions_many (ok at) keys ≡ ok out) × All (Agrees at out) keys
  unfolding stake_positions_many IsFound
  stake_positions_many-stake_positions keys =
      let a = query_chunks-Answered (length keys) [] keys (omega arith) in
      (
        a.map_out,
        a.is_ok,
        All-map (IsFound a.map_out) (Agrees at a.map_out) keys
            (λ k f. record { positions = held_positions (infos k); in_map = f; is_alone = alone k })
            a.finds,
      )
