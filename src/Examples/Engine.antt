-- ===== src/Examples/Engine.antt =====
-- The theorems on engine/wal_engine.go at concrete calls.
use warpdb.Base.{◌≡◌, refl, some, List, [], ◌∷◌, foldl, Bytes, codes}
use warpdb.Store.{new_store}
use warpdb.Store.Slots.{slot}
use warpdb.Store.Slots.Spec.{contents}
use warpdb.Wal.Replay.{replay_records}
use warpdb.Engine.Logged.{spop, lpush, WalEngine, wal_engine}
use warpdb.Store.{ok}
use warpdb.Store.Slots.Spec.{is_present}
use warpdb.Base.{Bool, true, ℤ, pos, ◌+ℤ◌}
use warpdb.Engine.Logged.Calls.{
  Call, perform, fine, set_call, incr_call, rpush_call, lpop_call, sadd_call,
}
use warpdb.Engine.Logged.Recovery.{fresh, recovery}
use warpdb.Engine.Logged.Popping.{pair, spop_diverges}
use warpdb.Engine.Logged.Divergence.{lpush_two_diverges, expire_diverges}

abbrev k : Bytes
k = codes "k"

abbrev calls : List Call
calls =
    set_call k (codes "41")
    ∷ incr_call k
    ∷ rpush_call k (codes "a") (codes "b" ∷ [])
    ∷ lpop_call k
    ∷ []

recovery_example :
    slot k (replay_records 0 (foldl (λ e c. perform c e) fresh calls).log new_store)
    ≡ slot k (foldl (λ e c. perform c e) fresh calls).mem
recovery_example = recovery 0 calls k

lpush_two_diverges_example :
    ((slot k (lpush k (codes "a" ∷ codes "b" ∷ []) (fine [] new_store)).0.mem).list
      ≡ some (codes "a" ∷ codes "b" ∷ contents (slot k new_store).list))
    × ((slot k (
          replay_records 0
            (lpush k (codes "a" ∷ codes "b" ∷ []) (fine [] new_store)).0.log
            new_store)).list
        ≡ some (codes "b" ∷ codes "a" ∷ contents (slot k new_store).list))
lpush_two_diverges_example =
    lpush_two_diverges 0 k (codes "a") (codes "b") [] new_store (λ j. unfold replay_records in refl)

-- The log of a Set, and the memory after it.
abbrev logged : WalEngine
logged = foldl (λ e c. perform c e) fresh (set_call k (codes "41") ∷ [])

present_before : is_present (slot k logged.mem) ≡ true
unfolding slot warpdb.GoMap.lookup perform warpdb.Engine.Logged.set
    warpdb.Engine.Logged.logged_first warpdb.Engine.Logged.write warpdb.Engine.Logged.write_record
    warpdb.Store.Values.set warpdb.Store.update warpdb.Store.set_shard warpdb.Store.shard_index
    warpdb.GoMap.insert new_store warpdb.Base.beq
present_before = refl

expire_diverges_example :
    let (e', result) = wal_engine.expire (pos 5) k (pos 9) logged in
    ((slot k e'.mem).expiry ≡ some (pos 5 +ℤ pos 9))
    × (((slot k (replay_records 0 e'.log new_store)).expiry ≡ (slot k logged.mem).expiry)
        × (result ≡ ok tt))
expire_diverges_example =
    expire_diverges 0 (pos 5) (pos 9) k logged (recovery 0 (set_call k (codes "41") ∷ []))
      present_before

-- The log of an SAdd of two members, and the memory after it.
abbrev logged_set : WalEngine
logged_set = foldl (λ e c. perform c e) fresh (sadd_call k (codes "a") (codes "b" ∷ []) ∷ [])

members_before : (slot k logged_set.mem).members ≡ some (pair (codes "a") (codes "b"))
unfolding slot warpdb.GoMap.lookup perform warpdb.Engine.Logged.sadd warpdb.Engine.Logged.write_all
    warpdb.Engine.Logged.one_each warpdb.Engine.Logged.write_anyway warpdb.Engine.Logged.write
    warpdb.Engine.Logged.write_record warpdb.Store.Sets.sadd warpdb.Store.Sets.sadd_shard
    warpdb.Store.Sets.add_members warpdb.Store.locked warpdb.Store.get_shard warpdb.Store.set_shard
    warpdb.Store.shard_index warpdb.GoMap.insert new_store warpdb.Base.beq
members_before = refl

spop_diverges_example :
    let (e, result) = spop 0 k (fine logged_set.log logged_set.mem) in
    (result ≡ ok (codes "a"))
    × (((slot k e.mem).members ≡ some ((codes "b", tt) ∷ []))
        × ((slot k (replay_records 1 e.log new_store)).members ≡ some ((codes "a", tt) ∷ [])))
spop_diverges_example =
    spop_diverges k (codes "a") (codes "b") logged_set.log logged_set.mem
      (recovery 1 (sadd_call k (codes "a") (codes "b" ∷ []) ∷ [])) members_before
      (unfold warpdb.Base.beq in refl)
